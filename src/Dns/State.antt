-- ===== src/Dns/State.antt =====
-- `DNS::State` and its two factories: library/dns/linux/state.cc. The codes are those of netdb.h.
pub mod Rows
use libudjatnetwork.Prelude.{
  ◌≡◌, refl, ap, ◌∙◌, ℕ, zero, suc, Bool, true, false, Option, none, some, List, [], ◌∷◌,
  if◌then◌else◌, first_where, Result, ok, err, Error, ℤ, pos, negsuc, minus_one, int_eq, All,
  All-get_elem?, Option-cases, first_where-holds, inl, inr, get_elem?,
}
use libudjatnetwork.Prelude.Text.{CString, codes, same_text, same_text-congr}
use libudjatnetwork.Udjat.{
  Level, critical, error, warning, ready, Node, Properties, Framework, as_string, is_empty,
}

-- What the source takes from elsewhere besides the framework: the comparison of the framework's
-- class `State<int>`, for the code that the state was made with, and `hstrerror`.
pub record DnsLib : Type 0 where
  pub matches : ℤ → ℤ → Bool
  pub hstrerror : ℤ → CString

-- A row of the table `dnsstates`.
pub record DnsRow : Type 0 where
  pub code : ℤ
  pub level : Level
  pub name : CString
  pub label : CString
  pub summary : CString
  pub body : CString

abbrev pub host_not_found : ℤ
host_not_found = pos 1

abbrev pub try_again : ℤ
try_again = pos 2

abbrev pub no_recovery : ℤ
no_recovery = pos 3

abbrev pub no_data : ℤ
no_data = pos 4

abbrev pub netdb_success : ℤ
netdb_success = pos 0

abbrev pub dnsstates : List DnsRow
dnsstates =
    record {
      code = minus_one;
      level = critical;
      name = codes "invalid";
      label = codes "Invalid DNS";
      summary = codes "Invalid DNS response";
      body = codes "The DNS resolver state is invalid.";
    }
    ∷ record {
      code = host_not_found;
      level = error;
      name = codes "host-not-found";
      label = codes "Not found";
      summary = codes "Cant find ${hostname}";
      body = codes "Authoritative Answer 'Host not found' response on query for ${hostname}";
    }
    ∷ record {
      code = try_again;
      level = warning;
      name = codes "try-again";
      label = codes "Try again";
      summary = codes "Host not found/Server Fail";
      body = codes "Non-Authoritative Host not found, or SERVERFAIL on query for ${hostname}";
    }
    ∷ record {
      code = no_recovery;
      level = error;
      name = codes "failed";
      label = codes "Server failed";
      summary = codes "Server has failed";
      body = codes "Non recoverable errors, FORMERR, REFUSED, NOTIMP on query for ${hostname}";
    }
    ∷ record {
      code = no_data;
      level = error;
      name = codes "no-data";
      label = codes "No data";
      summary = codes "No data for ${hostname}";
      body = codes "";
    }
    ∷ record {
      code = netdb_success;
      level = ready;
      name = codes "resolved";
      label = codes "DNS Ok";
      summary = codes "Got ${hostname}";
      body = codes "The server was able to resolve ${hostname}";
    }
    ∷ []

-- `DNS::State`, with the code that it compares.
pub record State : Type 0 where
  pub code : ℤ
  pub properties : Properties

-- The function `translate`.
unfoldable pub translate : Framework → CString → CString → CString
translate fw from_xml message = if is_empty from_xml then fw.translate message else from_xml

-- The loops over the table, for a code.
unfoldable pub find_code : ℤ → Option DnsRow
find_code code = first_where (λ st. int_eq st.code code) dnsstates

-- The constructor `DNS::State(const int)`.
unfoldable pub state_of_code : DnsLib → Framework → ℤ → State
unfolding translate find_code
state_of_code lib fw code =
    let p = fw.from_name (codes "nssdb") (if int_eq code netdb_success then ready else error) in
    record {
      code = code;
      properties = elim (find_code code) [
        | some st ↦ record p {
          name = st.name;
          label = translate fw p.label st.label;
          summary = translate fw p.summary st.summary;
          body = translate fw p.body st.body;
        }
        | none ↦ record p { summary = lib.hstrerror code }
      ];
    }

-- The body of both constructors of `KnownState`, for what the base class's constructor leaves.
-- `expand` stands for what the constructor's calls of `String::expand` make of a text.
unfoldable pub known_state : Framework → DnsRow → Properties → State
unfolding translate
known_state fw st p = record {
  code = st.code;
  properties = record p {
    label = translate fw p.label st.label;
    summary = fw.expand (translate fw p.summary st.summary);
    body = fw.expand (translate fw p.body st.body);
  };
}

-- The loop of the first factory.
unfoldable pub find_name : CString → List DnsRow → Option DnsRow
find_name name [] = none
find_name name (st ∷ sts) =
    let rest = find_name name sts in if same_text name st.name then some st else rest

-- `Factory(const Abstract::Object &, const pugi::xml_node &)`. `EINVAL` is 22.
unfoldable pub factory_of_node : Framework → Node → Result State
unfolding find_name known_state
factory_of_node fw node =
    let state_name = as_string (node.attribute "dns-state") [] in
    if is_empty state_name
    then err (Error.system_error (pos 22))
    else elim (find_name state_name dnsstates) [
      | some st ↦ ok (known_state fw st (fw.from_node node))
      | none ↦ err (Error.system_error (pos 22))
    ]

-- `Factory(const Abstract::Object &, const int)`
unfoldable pub factory_of_code : DnsLib → Framework → ℤ → State
unfolding find_code known_state state_of_code
factory_of_code lib fw code = elim (find_code code) [
  | some st ↦ known_state fw st (state_of_code lib fw st.code).properties
  | none ↦ state_of_code lib fw code
]
