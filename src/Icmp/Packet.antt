-- ===== src/Icmp/Packet.antt =====
-- The packets of library/os/linux/icmp_controller.cc and the payload of
-- include/private/linux/icmp_controller.h, as structures and as bytes.
use libudjatnetwork.Prelude.{ℕ, ◌+◌, ◌*◌, ◌/◌, ◌%◌, ◌^◌, List, [], ◌∷◌, ◌++◌}
use libudjatnetwork.SockAddr.ByteOrder.{ByteOrder, little, big}
use libudjatnetwork.Icmp.Checksum.{short_bytes, in_chksum}

pub record Payload : Type 0 where
  pub id : ℕ  -- uint16_t
  pub seq : ℕ  -- uint16_t
  pub time : ℕ  -- uint64_t

-- The members of `struct icmp` that the source sets, and the payload. The rest stays cleared.
pub record Packet : Type 0 where
  pub icmp_type : ℕ
  pub icmp_cksum : ℕ
  pub icmp_id : ℕ
  pub icmp_seq : ℕ
  pub payload : Payload

-- `htons`, which is also `ntohs`.
unfoldable pub htons : ByteOrder → ℕ → ℕ
htons little n = n % 256 * 256 + n / 256 % 256
htons big n = n % 65536

-- The bytes of a `uint64_t` in memory.
long_bytes : ByteOrder → ℕ → List ℕ
long_bytes little n =
    n % 256
    ∷ n / 2 ^ 8 % 256
    ∷ n / 2 ^ 16 % 256
    ∷ n / 2 ^ 24 % 256
    ∷ n / 2 ^ 32 % 256
    ∷ n / 2 ^ 40 % 256
    ∷ n / 2 ^ 48 % 256
    ∷ n / 2 ^ 56 % 256
    ∷ []
long_bytes big n =
    n / 2 ^ 56 % 256
    ∷ n / 2 ^ 48 % 256
    ∷ n / 2 ^ 40 % 256
    ∷ n / 2 ^ 32 % 256
    ∷ n / 2 ^ 24 % 256
    ∷ n / 2 ^ 16 % 256
    ∷ n / 2 ^ 8 % 256
    ∷ n % 256
    ∷ []

-- The bytes behind the checksum: two words, twenty cleared bytes and the packed payload.
packet_tail : ByteOrder → Packet → List ℕ
packet_tail o p =
    short_bytes o p.icmp_id
    ++ (short_bytes o p.icmp_seq
        ++ (0 ∷ 0 ∷ 0 ∷ 0 ∷ 0 ∷ 0 ∷ 0 ∷ 0 ∷ 0 ∷ 0 ∷ 0 ∷ 0 ∷ 0 ∷ 0 ∷ 0 ∷ 0 ∷ 0 ∷ 0 ∷ 0 ∷ 0 ∷ []
            ++ (short_bytes o p.payload.id
                ++ (short_bytes o p.payload.seq ++ long_bytes o p.payload.time))))

-- The 40 bytes of a packet in memory.
unfoldable pub packet_bytes : ByteOrder → Packet → List ℕ
unfolding packet_tail long_bytes
packet_bytes o p = p.icmp_type % 256 ∷ 0 ∷ short_bytes o p.icmp_cksum ++ packet_tail o p

abbrev pub icmp_echo : ℕ
icmp_echo = 8

-- The packet that `send` fills in before the checksum.
unfoldable pub unsigned_request : ByteOrder → ℕ → ℕ → Payload → Packet
unsigned_request o pid seq payload = record {
  icmp_type = icmp_echo;
  icmp_cksum = 0;
  icmp_id = htons o pid;
  icmp_seq = htons o seq;
  payload = payload;
}

-- The packet that `send` gives to `sendto`, for the process id and the counter.
unfoldable pub echo_request : ByteOrder → ℕ → ℕ → Payload → Packet
unfolding unsigned_request
echo_request o pid seq payload =
    let packet = unsigned_request o pid seq payload in
    record packet { icmp_cksum = in_chksum o (packet_bytes o packet) }
