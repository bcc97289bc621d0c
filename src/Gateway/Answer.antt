-- ===== src/Gateway/Answer.antt =====
-- What `detect` of library/os/linux/defaultgateway.cc asks the kernel, and what it receives.
use libudjatnetwork.Prelude.{
  ℕ, Bool, not, ◌&&◌, ◌||◌, List, [], ◌∷◌, Option, ◌==◌, leb, if◌then◌else◌, bit_and, Result, ok,
  err, Error, ℤ, pos,
}
use libudjatnetwork.Prelude.Text.{CString}
use libudjatnetwork.NetLink.{nlmsg_error, nlmsg_done}

-- `nlmsghdr`
pub record Header : Type 0 where
  pub nlmsg_len : ℕ
  pub nlmsg_type : ℕ
  pub nlmsg_flags : ℕ
  pub nlmsg_seq : ℕ
  pub nlmsg_pid : ℕ

-- `rtattr`, with the first four bytes of its data as the host reads them.
pub record Attribute : Type 0 where
  pub rta_len : ℕ
  pub rta_type : ℕ
  pub data_word : ℕ

-- A message of the answer, with `RTM_PAYLOAD`; the attributes are those that follow one another
-- from `RTM_RTA` on.
pub record Route : Type 0 where
  pub rtm_table : ℕ
  pub payload : ℕ
  pub attributes : List Attribute

-- What a call of `recv` gives: an `errno`, or a reply.
pub data Reply : Type 0 where
  failed : ℤ → Reply
  reply : ℕ → ℕ → List Route → Reply

-- What the system calls of `detect` answer. Past the list of replies `recv` times out.
pub record Os : Type 0 where
  pub socket : ℤ
  pub errno : ℤ
  pub send_fails : Bool
  pub getpid : ℕ
  pub replies : List Reply
  pub if_indextoname : ℕ → Option CString

-- `EAGAIN`, after the second that `SO_RCVTIMEO` allows.
abbrev pub eagain : ℤ
eagain = pos 11

-- The request: `RTM_GETROUTE` with `NLM_F_DUMP | NLM_F_REQUEST`.
unfoldable pub request : ℕ → Header
request pid = record {
  nlmsg_len = 28;
  nlmsg_type = 26;
  nlmsg_flags = 769;
  nlmsg_seq = 0;
  nlmsg_pid = pid;
}

-- `NLMSG_OK(nlmsg, received_bytes)`
unfoldable pub nlmsg_ok : Header → ℕ → Bool
nlmsg_ok h n = leb 16 n && leb 16 h.nlmsg_len && leb h.nlmsg_len n

-- The `do` loop around `recv`. All its tests but the one for `NLMSG_DONE` read the header of the
-- request; the result is the messages that the last reply holds.
unfoldable pub recv_loop : Header → ℕ → ℕ → List Reply → Result (List Route)
unfolding nlmsg_ok
recv_loop h msgseq pid [] = err (Error.system_error eagain)
recv_loop h msgseq pid (failed errno ∷ rs) = err (Error.system_error errno)
recv_loop h msgseq pid (reply n kind routes ∷ rs) =
    let rest = recv_loop h msgseq pid rs in
    if not (nlmsg_ok h n) || h.nlmsg_type == nlmsg_error
    then err (Error.runtime_error "Error in received packet")
    else if kind == nlmsg_done
    then ok routes
    else if bit_and h.nlmsg_flags 2 == 0
    then ok routes
    else if not (h.nlmsg_seq == msgseq) || not (h.nlmsg_pid == pid)
    then rest
    else ok routes
