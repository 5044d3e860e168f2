-- ===== src/SessionManager.antt =====
-- The two maps of a transport between its clients' keys and their endpoints
-- (include/uxr/agent/transport/SessionManager.hpp). The type of endpoints is the class template's
-- parameter; the lock makes every operation one step.
pub mod Consistency
pub mod Tests
use micro_xrce_dds_agent.Common.{
  ℕ, ◌≡◌, refl, ap, ◌⊎◌, inl, inr, ◌≢◌, Bool, true, false, not, ◌&&◌, Option, none, some, [], arith,
  ltb, if◌then◌else◌, Option-cases, Bool-cases,
}
use micro_xrce_dds_agent.Common.Map.{
  Eq, Map, nat_eq, find, erase, emplace, assign, find-erase, find-assign, find-emplace,
}

abbrev pub has_session_client_key : ℕ → Bool
has_session_client_key session_id = ltb session_id 128

pub record SessionManager (EndPoint : Type 0) : Type 0 where
  pub endpoint_to_client_map : Map EndPoint ℕ
  pub client_to_endpoint_map : Map ℕ EndPoint

module _ {EndPoint : Type 0} ⦃q : Eq EndPoint⦄ where
  -- The first half: what is there of the client's old endpoint goes.
  abbrev pub establish_client : SessionManager EndPoint → EndPoint → ℕ → SessionManager EndPoint
  establish_client s endpoint client_key = elim (find client_key s.client_to_endpoint_map) [
    | some old ↦ record {
      endpoint_to_client_map = erase old s.endpoint_to_client_map;
      client_to_endpoint_map = assign client_key endpoint s.client_to_endpoint_map;
    }
    | none ↦ record {
      endpoint_to_client_map = s.endpoint_to_client_map;
      client_to_endpoint_map = emplace client_key endpoint s.client_to_endpoint_map;
    }
  ]

  -- The second half: a client whose messages carry no key is found by its endpoint.
  abbrev pub establish_endpoint : SessionManager EndPoint → EndPoint → ℕ → SessionManager EndPoint
  establish_endpoint s endpoint client_key = elim (find endpoint s.endpoint_to_client_map) [
    | some other ↦ record {
      endpoint_to_client_map = assign endpoint client_key s.endpoint_to_client_map;
      client_to_endpoint_map = s.client_to_endpoint_map;
    }
    | none ↦ record {
      endpoint_to_client_map = emplace endpoint client_key s.endpoint_to_client_map;
      client_to_endpoint_map = s.client_to_endpoint_map;
    }
  ]

  unfoldable pub establish_session :
      SessionManager EndPoint → EndPoint → ℕ → ℕ → SessionManager EndPoint
  establish_session s endpoint client_key session_id =
      let t = establish_client s endpoint client_key in
      if not (has_session_client_key session_id)
      then establish_endpoint t endpoint client_key
      else t

  unfoldable pub destroy_session_of_endpoint :
      SessionManager EndPoint → EndPoint → SessionManager EndPoint
  destroy_session_of_endpoint s endpoint = elim (find endpoint s.endpoint_to_client_map) [
    | some key ↦ record {
      endpoint_to_client_map = erase endpoint s.endpoint_to_client_map;
      client_to_endpoint_map = erase key s.client_to_endpoint_map;
    }
    | none ↦ s
  ]

  unfoldable pub destroy_session_of_client : SessionManager EndPoint → ℕ → SessionManager EndPoint
  destroy_session_of_client s client_key = elim (find client_key s.client_to_endpoint_map) [
    | some endpoint ↦ record {
      endpoint_to_client_map = erase endpoint s.endpoint_to_client_map;
      client_to_endpoint_map = erase client_key s.client_to_endpoint_map;
    }
    | none ↦ s
  ]

  unfoldable pub get_client_key : SessionManager EndPoint → EndPoint → Option ℕ
  get_client_key s endpoint = find endpoint s.endpoint_to_client_map

  unfoldable pub get_endpoint : SessionManager EndPoint → ℕ → Option EndPoint
  get_endpoint s client_key = find client_key s.client_to_endpoint_map
