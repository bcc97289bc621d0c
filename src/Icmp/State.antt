-- ===== src/Icmp/State.antt =====
-- `ICMP::State` and its two factories: library/icmp/state.cc.
use libudjatnetwork.Prelude.{
  ℕ, ◌≡◌, refl, Option, none, some, List, [], ◌∷◌, ◌==◌, if◌then◌else◌, first_where, Result, ok,
  err, ◌>>=◌, runtime_error,
}
use libudjatnetwork.Prelude.Text.{CString, codes}
use libudjatnetwork.Udjat.{Level, error, ready, Node, Properties, Framework, as_string, is_empty}
use libudjatnetwork.Icmp.Response.{
  Response, invalid, echo_reply, destination_unreachable, time_exceeded, timeout,
  network_unreachable, code, response_factory,
}

-- A row of the table `icmp_states`.
pub record IcmpState : Type 0 where
  pub name : CString
  pub id : Response
  pub level : Level
  pub label : CString
  pub summary : CString
  pub body : CString

abbrev pub icmp_states : List IcmpState
icmp_states =
    record {
      name = codes "invalid";
      id = invalid;
      level = error;
      label = codes "Invalid IP";
      summary = codes "${name} address is invalid";
      body = codes "Unable to get a valid IP address for ${name}.";
    }
    ∷ record {
      name = codes "echo-reply";
      id = echo_reply;
      level = ready;
      label = codes "Active";
      summary = codes "${name} is active";
      body = codes "Got ICMP echo reply from host.";
    }
    ∷ record {
      name = codes "destination-unreachable";
      id = destination_unreachable;
      level = error;
      label = codes "Unreachable";
      summary = codes "${name} is not reachable";
      body =
          codes
            "Destination Unreachable. The gateway doesnt know how to get to the defined network.";
    }
    ∷ record {
      name = codes "time-exceeded";
      id = time_exceeded;
      level = error;
      label = codes "Timeout";
      summary = codes "${name} is not acessible";
      body =
          codes "Time Exceeded. The ICMP request has been discarded because it was 'out of time'.";
    }
    ∷ record {
      name = codes "timeout";
      id = timeout;
      level = error;
      label = codes "Unavailable";
      summary = codes "${name} is not available";
      body = codes "No ICMP response from host.";
    }
    ∷ record {
      name = codes "network-unreachable";
      id = network_unreachable;
      level = error;
      label = codes "Unreachable";
      summary = codes "Network is not reachable";
      body = codes "The entire network is unreachable.";
    }
    ∷ []

-- `ICMP::State`
pub record State : Type 0 where
  pub id : Response
  pub properties : Properties

-- The loops over the table, for an enum value.
unfoldable pub find_state : ℕ → Option IcmpState
find_state id = first_where (λ st. code st.id == id) icmp_states

-- A text of the XML node stands; an empty one is taken from the table.
abbrev pub or_default : CString → CString → CString
or_default given default = if is_empty given then default else given

-- The constructor of the first factory's local class.
unfoldable pub state_of_node : Framework → Node → IcmpState → State
state_of_node fw node st =
    let p = fw.from_node node in
    record {
      id = st.id;
      properties = record p {
        label = or_default p.label (fw.translate st.label);
        summary = or_default p.summary (fw.expand (fw.translate st.summary));
        body = or_default p.body (fw.expand (fw.translate st.body));
      };
    }

-- `Factory(const pugi::xml_node &)`
unfoldable pub factory_of_node : Framework → Node → Result State
factory_of_node fw node = response_factory (as_string (node.attribute "icmp-response") []) >>= λ id.
    elim (find_state id) [
      | none ↦ err (runtime_error "The required attribute 'icmp-response' is missing or invalid")
      | some st ↦ ok (state_of_node fw node st)
    ]

-- The constructor of the second factory's local class.
unfoldable pub state_of_object : Framework → IcmpState → State
state_of_object fw st = record {
  id = st.id;
  properties = record (fw.from_name st.name st.level) {
    label = fw.translate st.label;
    summary = fw.expand (fw.translate st.summary);
    body = fw.expand (fw.translate st.body);
  };
}

-- `Factory(const Abstract::Object &, const Response)`
unfoldable pub factory_of_object : Framework → Response → Result State
factory_of_object fw id = elim (find_state (code id)) [
  | none ↦ err (runtime_error "The required attribute 'icmp-response' is missing or invalid")
  | some st ↦ ok (state_of_object fw st)
]

-- The factory for a response never throws, whatever the response, and gives a state for that
-- response.
pub factory_of_object-id :
    (fw : Framework) (r : Response) → (s : State) × (factory_of_object fw r ≡ ok s) × (s.id ≡ r)
unfolding factory_of_object find_state state_of_object
factory_of_object-id fw invalid = (_, refl, refl)
factory_of_object-id fw echo_reply = (_, refl, refl)
factory_of_object-id fw destination_unreachable = (_, refl, refl)
factory_of_object-id fw time_exceeded = (_, refl, refl)
factory_of_object-id fw timeout = (_, refl, refl)
factory_of_object-id fw network_unreachable = (_, refl, refl)
