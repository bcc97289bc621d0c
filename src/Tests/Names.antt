-- ===== src/Tests/Names.antt =====
-- The words of the XML nodes.
use libudjatnetwork.Prelude.{ℕ, ◌≡◌, refl, ok, int_eq, pos}
use libudjatnetwork.Prelude.Text.{codes, same_text}
use libudjatnetwork.Udjat.{Level, error}
use libudjatnetwork.Icmp.Response.{to_string}
use libudjatnetwork.Icmp.Response.Printing.{Prints, to_string-Prints}
use libudjatnetwork.Dns.State.{DnsLib, DnsRow, factory_of_node, factory_of_code, known_state}
use libudjatnetwork.Dns.State.Rows.{factory-row}
use libudjatnetwork.Tests.{framework, properties, node}

abbrev past_end : ℕ
past_end = 6

to_string-Prints_example : Prints past_end (to_string past_end)
to_string-Prints_example = to_string-Prints past_end

abbrev dns_lib : DnsLib
dns_lib = record { matches = λ x y. int_eq x y; hstrerror = λ h. codes "error" }

abbrev row : DnsRow
row = record {
  code = pos 2;
  level = Level.warning;
  name = codes "try-again";
  label = codes "Try again";
  summary = codes "Host not found/Server Fail";
  body = codes "Non-Authoritative Host not found, or SERVERFAIL on query for ${hostname}";
}

factory-row_example :
    (factory_of_node framework (node (codes "Try-Again"))
      ≡ ok (known_state framework row properties))
    × ((factory_of_code dns_lib framework (pos 2)).code ≡ pos 2)
    × ((factory_of_code dns_lib framework (pos 2)).properties.name ≡ codes "try-again")
    × ((factory_of_code dns_lib framework (pos 2)).properties.level ≡ error)
unfolding same_text
factory-row_example =
    factory-row dns_lib framework (node (codes "Try-Again")) 2 row refl refl (λ n l. refl)
