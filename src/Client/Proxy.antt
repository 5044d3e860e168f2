-- ===== src/Client/Proxy.antt =====
-- A client's proxy: its session, its objects and whether it is alive
-- (src/cpp/client/ProxyClient.cpp). Times are nanoseconds of the steady clock, read by the caller.
use micro_xrce_dds_agent.Common.{
  ℕ, ◌-◌, ◌/◌, Bool, true, false, List, [], ◌∷◌, Option, none, some, ltb, if◌then◌else◌,
}
use micro_xrce_dds_agent.Common.Int.{ℤ, pos, negsuc}
use micro_xrce_dds_agent.Common.Map.{Map, octets_eq, find}
use micro_xrce_dds_agent.Cdr.{Cdr}
use micro_xrce_dds_agent.Client.Types.{ObjectStore}
use micro_xrce_dds_agent.Session
use micro_xrce_dds_agent.Session.{Session}

pub data State : Type 0 where
  alive : State
  dead : State
  to_remove : State

-- The members of a CLIENT_Representation that the agent reads; strings are lists of octets.
pub record ClientRepresentation : Type 0 where
  pub xrce_cookie : List ℕ
  pub xrce_version_major : ℕ
  pub client_key : List ℕ
  pub session_id : ℕ
  pub mtu : ℕ
  pub properties : Option (List (List ℕ × List ℕ))

abbrev pub Properties : Type 0
Properties = Map (List ℕ) (List ℕ)

-- "uxr_hl".
abbrev pub uxr_hl : List ℕ
uxr_hl = 117 ∷ 120 ∷ 114 ∷ 95 ∷ 104 ∷ 108 ∷ []

abbrev pub less_than : ℕ → ℤ → Bool
less_than n (pos k) = ltb n k
less_than n (negsuc k) = false

module _ (c : Cdr) (World : Type 0) where
  pub record ProxyClient : Type 0 where
    pub representation : ClientRepresentation
    pub store : ObjectStore World
    pub session : Session c
    pub state : State
    pub timestamp : ℕ
    pub client_dead_time : ℤ
    pub hard_liveliness_check : Bool
    pub hard_liveliness_check_tries : ℕ

-- What the constructor calls: the constructor of the middleware that is selected, `std::stoi`,
-- `none` if it throws, and the constant CLIENT_DEAD_TIME in milliseconds.
pub record Environment (World : Type 0) : Type 0 where
  pub new_middleware : Properties → List ℕ → World
  pub stoi : List ℕ → Option ℤ
  pub client_dead_time : ℕ

module _ (c : Cdr) {World : Type 0} where
  -- The constructor; it throws if `std::stoi` does. The value that
  -- `hard_liveliness_check_tries_` happens to have, which it does not set, is an argument.
  module _ (env : Environment World) (uninitialized : ℕ) where
    abbrev pub proxy : ClientRepresentation → Properties → ℕ → Bool → ℤ → ProxyClient c World
    proxy representation properties now hard limit = record {
      representation = representation;
      store = record {
        objects = [];
        world = env.new_middleware properties representation.client_key;
      };
      session = Session.create c (record {
        client_key = representation.client_key;
        session_id = representation.session_id;
        mtu = representation.mtu;
      });
      state = alive;
      timestamp = now;
      client_dead_time = limit;
      hard_liveliness_check = hard;
      hard_liveliness_check_tries = uninitialized;
    }

    unfoldable pub create : ClientRepresentation → Properties → ℕ → Option (ProxyClient c World)
    create representation properties now = elim (find uxr_hl properties) [
      | none ↦ some (proxy representation properties now false (pos env.client_dead_time))
      | some value ↦ elim (env.stoi value) [
        | none ↦ none
        | some limit ↦ some (proxy representation properties now true limit)
      ]
    ]

  unfoldable pub get_state : ℕ → ProxyClient c World → State × ProxyClient c World
  get_state now p = elim p.state [
    | alive ↦
        if less_than ((now - p.timestamp) / 1000000) p.client_dead_time
        then (alive, p)
        else (dead, record p { state = dead })
    | dead ↦ (dead, p)
    | to_remove ↦ (to_remove, p)
  ]

  unfoldable pub update_state : State → ℕ → ProxyClient c World → ProxyClient c World
  update_state alive now p = record p {
    state = alive;
    timestamp = now;
    hard_liveliness_check_tries = 0;
  }
  update_state st now p = record p { state = st }
