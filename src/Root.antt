-- ===== src/Root.antt =====
-- The agent's clients (src/cpp/Root.cpp). Every operation holds the lock. The map is ordered by
-- the keys, arrays of four octets in lexicographic order; the iterator `current_client_` is the
-- key that it stands at, `none` at the end. A client that goes is released with its middleware,
-- which no other client uses. Log levels and the file of profiles are left out.
pub mod Keys
pub mod Ascending
pub mod Invariant
pub mod Lookup
pub mod Visit
pub mod Tests
use micro_xrce_dds_agent.Common.{
  ℕ, Bool, true, false, not, ◌&&◌, ◌||◌, List, [], ◌∷◌, Option, none, some, ltb, ◌==◌,
  if◌then◌else◌,
}
use micro_xrce_dds_agent.Common.Map.{Map, octets_eq, octets_beq, find, erase, assign, emplace}
use micro_xrce_dds_agent.Cdr.{Cdr}
use micro_xrce_dds_agent.Client.Types.{
  StatusValue, status_ok, status_err_invalid_data, status_err_incompatible,
  status_err_unknown_reference, status_err_resources,
}
use micro_xrce_dds_agent.Client.Proxy.{ClientRepresentation, ProxyClient, Environment, Properties}
use micro_xrce_dds_agent.Client.Proxy as Proxy
use micro_xrce_dds_agent.Session

abbrev pub ClientKey : Type 0
ClientKey = List ℕ

abbrev pub clientkey_invalid : ClientKey
clientkey_invalid = 0 ∷ 0 ∷ 0 ∷ 0 ∷ []

abbrev pub xrce_cookie : List ℕ
xrce_cookie = 0x58 ∷ 0x52 ∷ 0x43 ∷ 0x45 ∷ []

abbrev pub xrce_version_major : ℕ
xrce_version_major = 1

-- `operator<` of arrays.
unfoldable pub key_lt : ClientKey → ClientKey → Bool
key_lt [] [] = false
key_lt [] (y ∷ ys) = true
key_lt (x ∷ xs) [] = false
key_lt (x ∷ xs) (y ∷ ys) = ltb x y || (x == y) && key_lt xs ys

module _ {V : Type 0} where
  -- `emplace` of a key that is not there, at its place in the order.
  unfoldable pub insert : ClientKey → V → Map ClientKey V → Map ClientKey V
  insert k v [] = (k, v) ∷ []
  insert k v ((j, w) ∷ m) = if key_lt k j then (k, v) ∷ (j, w) ∷ m else (j, w) ∷ insert k v m

  -- `begin()`.
  abbrev pub first : Map ClientKey V → Option ClientKey
  first [] = none
  first ((j, w) ∷ m) = some j

  -- `++iterator`, at the entry of a key.
  unfoldable pub next : ClientKey → Map ClientKey V → Option ClientKey
  next k [] = none
  next k ((j, w) ∷ m) = if octets_beq j k then first m else next k m

-- `client_properties.insert` in a loop.
unfoldable pub properties_of : List (List ℕ × List ℕ) → Properties → Properties
properties_of [] properties = properties
properties_of ((name, value) ∷ more) properties = properties_of more (emplace name value properties)

-- The properties that a new client is given.
abbrev pub given : ClientRepresentation → Properties
given representation = elim representation.properties [ none ↦ [] | some v ↦ properties_of v [] ]

module _ (c : Cdr) (World : Type 0) where
  pub record Root : Type 0 where
    pub clients : Map ClientKey (ProxyClient c World)
    pub current_client : Option ClientKey

module _ (c : Cdr) {World : Type 0} where
  unfoldable pub get_client : ClientKey → Root c World → Option (ProxyClient c World)
  get_client key r = find key r.clients

  unfoldable pub delete_client : ClientKey → Root c World → StatusValue × Root c World
  delete_client key r = elim (get_client key r) [
    | none ↦ (status_err_unknown_reference, r)
    | some client ↦ (
      status_ok,
      record {
        clients = erase key r.clients;
        current_client = elim r.current_client [
          | none ↦ none
          | some at ↦ if octets_beq key at then next at r.clients else some at
        ];
      },
    )
  ]

  -- `none` for a client's constructor that throws.
  module _ (env : Environment World) (uninitialized now : ℕ) where
    unfoldable pub create_client :
        ClientRepresentation → Root c World → Option (StatusValue × Root c World)
    create_client representation r =
        let key = representation.client_key in
        if octets_beq key clientkey_invalid
        then some (status_err_invalid_data, r)
        else if not (octets_beq representation.xrce_cookie xrce_cookie)
        then some (status_err_invalid_data, r)
        else if not (representation.xrce_version_major == xrce_version_major)
        then some (status_err_incompatible, r)
        else elim (find key r.clients) [
          | none ↦
              elim (Proxy.create c env uninitialized representation (given representation) now) [
                | none ↦ none
                | some client ↦ some (status_ok, record r { clients = insert key client r.clients })
              ]
          | some client ↦
              if not (representation.session_id == client.representation.session_id)
              then elim (Proxy.create c env uninitialized representation [] now) [
                | none ↦ none
                | some fresh ↦ some (status_ok, record r { clients = assign key fresh r.clients })
              ]
              else some (
                status_ok,
                record r {
                  clients =
                      assign key (record client { session = Session.reset c client.session })
                        r.clients;
                },
              )
        ]

  -- `none` for `rv` false.
  unfoldable pub get_next_client : Root c World → Option (ProxyClient c World) × Root c World
  get_next_client r = elim r.current_client [
    | none ↦ (none, record r { current_client = first r.clients })
    | some at ↦ (find at r.clients, record r { current_client = next at r.clients })
  ]

  -- The destructor and `reset`.
  unfoldable pub reset : Root c World → Root c World
  reset r = record { clients = []; current_client = none }
