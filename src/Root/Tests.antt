-- ===== src/Root/Tests.antt =====
-- An agent with one client, whose middleware is a number.
use micro_xrce_dds_agent.Common.{ℕ, ◌≡◌, refl, subst, true, false, [], ◌∷◌, none, some, arith}
use micro_xrce_dds_agent.Common.Int.{pos}
use micro_xrce_dds_agent.Common.Map.{octets_eq, find}
use micro_xrce_dds_agent.Cdr.ListCdr.{list_cdr}
use micro_xrce_dds_agent.Client.Proxy.{ClientRepresentation, ProxyClient, Environment}
use micro_xrce_dds_agent.Client.Proxy as Proxy
use micro_xrce_dds_agent.Session
use micro_xrce_dds_agent.Root.{
  ClientKey, Root, xrce_cookie, create_client, delete_client, get_next_client, insert, key_lt,
}
use micro_xrce_dds_agent.Root.Keys.{has}
use micro_xrce_dds_agent.Root.Invariant.{
  IsSound, Afterwards, create_client-IsSound, delete_client-IsSound, Reached, start, created,
  handed_out,
}
use micro_xrce_dds_agent.Root.Lookup.{Reported, get_client-create_client}
use micro_xrce_dds_agent.Root.Visit.{visit, Reached-visit}
use micro_xrce_dds_agent.Root.Ascending.{IsAscending}
use micro_xrce_dds_agent.Client.Types.{status_ok}

abbrev pub env : Environment ℕ
env = record {
  new_middleware = λ properties key. 0;
  stoi = λ text. some (pos 0);
  client_dead_time = 30000;
}

abbrev pub key : ClientKey
key = 1 ∷ 2 ∷ 3 ∷ 4 ∷ []

abbrev pub representation : ClientRepresentation
representation = record {
  xrce_cookie = xrce_cookie;
  xrce_version_major = 1;
  client_key = key;
  session_id = 1;
  mtu = 512;
  properties = none;
}

abbrev pub empty : Root list_cdr ℕ
empty = record { clients = []; current_client = none }

empty-IsSound : IsSound list_cdr empty
empty-IsSound = (tt, tt, λ j e. cc)

abbrev pub client : ProxyClient list_cdr ℕ
client = record {
  representation = representation;
  store = record { objects = []; world = 0 };
  session = Session.create list_cdr (record { client_key = key; session_id = 1; mtu = 512 });
  state = Proxy.alive;
  timestamp = 0;
  client_dead_time = pos 30000;
  hard_liveliness_check = false;
  hard_liveliness_check_tries = 0;
}

abbrev one : Root list_cdr ℕ
one = record { clients = (key, client) ∷ []; current_client = some key }

one-IsSound : IsSound list_cdr one
unfolding find
one-IsSound = (
  (refl, tt),
  (λ j e. cc, tt),
  λ j e. let here : key ≡ j = cc e in subst (λ i. has i one.clients ≡ true) here refl,
)

create_client-IsSound_example :
    Afterwards list_cdr
      (λ st. IsSound list_cdr)
      (create_client list_cdr env 0 0 representation empty)
create_client-IsSound_example =
    create_client-IsSound list_cdr env 0 0 representation empty empty-IsSound

delete_client-IsSound_example : IsSound list_cdr (delete_client list_cdr key one).1
delete_client-IsSound_example = delete_client-IsSound list_cdr key one one-IsSound

get_client-create_client_example :
    Afterwards list_cdr
      (Reported list_cdr key empty)
      (create_client list_cdr env 0 0 representation empty)
get_client-create_client_example = get_client-create_client list_cdr env 0 0 representation empty

-- Another client, whose key is less.
abbrev early_key : ClientKey
early_key = 1 ∷ 2 ∷ 0 ∷ 9 ∷ []

abbrev early_client : ProxyClient list_cdr ℕ
early_client = record client {
  representation = record representation { client_key = early_key };
  session = Session.create list_cdr (record { client_key = early_key; session_id = 1; mtu = 512 });
}

abbrev both : Root list_cdr ℕ
both = record { clients = (early_key, early_client) ∷ (key, client) ∷ []; current_client = none }

one_created :
    create_client list_cdr env 0 0 representation empty
    ≡ some (status_ok, record one { current_client = none })
unfolding create_client Proxy.create find insert key_lt
one_created = refl

both_created :
    create_client list_cdr env 0 0 early_client.representation
      (record one { current_client = none })
    ≡ some (status_ok, both)
unfolding create_client Proxy.create find insert key_lt
both_created = refl

abbrev at_first : Root list_cdr ℕ
at_first = record both { current_client = some early_key }

moved : (get_next_client list_cdr both).1 ≡ at_first
unfolding get_next_client
moved = refl

at_first-Reached : Reached list_cdr env at_first
at_first-Reached = subst (Reached list_cdr env) moved (
    handed_out (
      created (created start 0 0 representation status_ok one_created) 0 0
        early_client.representation status_ok both_created))

Reached-visit_example :
    (visit list_cdr 3 at_first ≡ (early_client ∷ client ∷ [], at_first))
    × IsAscending at_first.clients
Reached-visit_example = Reached-visit list_cdr at_first 3 at_first-Reached refl (omega arith)
