-- ===== src/SessionManager/Consistency.antt =====
-- How the two maps of a session manager agree
-- (include/uxr/agent/transport/SessionManager.hpp).
use micro_xrce_dds_agent.Common.{
  ℕ, ◌≡◌, refl, ap, inl, inr, Bool, false, not, ◌&&◌, ◌∙◌, none, some, arith, if◌then◌else◌,
  Option-cases, Bool-cases, ◌==◌,
}
use micro_xrce_dds_agent.Common.Map.{
  Eq, nat_eq, find, find-erase, find-erase_self, find-assign, find-emplace,
}
use micro_xrce_dds_agent.SessionManager.{
  has_session_client_key, SessionManager, establish_session, establish_client, establish_endpoint,
  destroy_session_of_endpoint, destroy_session_of_client, get_client_key, get_endpoint,
}

module _ {EndPoint : Type 0} ⦃q : Eq EndPoint⦄ where
  -- After a session is established, its client's endpoint is the new one and the other clients'
  -- endpoints are what they were.
  pub get_endpoint-establish_session :
      (s : SessionManager EndPoint) (e : EndPoint) (k id j : ℕ)
      → get_endpoint (establish_session s e k id) j ≡ (if k == j then some e else get_endpoint s j)
  unfolding establish_session get_endpoint
  get_endpoint-establish_session s e k id j =
      let m = s.client_to_endpoint_map in ground (arith, find-assign k j e m, find-emplace k j e m)

  -- Whether `f` is the endpoint at which the client `k` was.
  abbrev pub was_at : SessionManager EndPoint → ℕ → EndPoint → Bool
  was_at s k f = elim (get_endpoint s k) [ some old ↦ q.beq old f | none ↦ false ]

  establish_client_keys :
      (s : SessionManager EndPoint) (e : EndPoint) (k : ℕ) (f : EndPoint)
      → find f (establish_client s e k).endpoint_to_client_map
        ≡ (if was_at s k f then none else get_client_key s f)
  unfolding get_endpoint get_client_key
  establish_client_keys s e k f = elim (Option-cases (find k s.client_to_endpoint_map)) [
    | inl h ↦ rw (h, establish_client, was_at, get_endpoint) refl
    | inr (old, h) ↦
        rw (h, establish_client, was_at, get_endpoint) (find-erase old f s.endpoint_to_client_map)
  ]

  establish_endpoint_keys :
      (t : SessionManager EndPoint) (e : EndPoint) (k : ℕ) (f : EndPoint)
      → find f (establish_endpoint t e k).endpoint_to_client_map
        ≡ (if q.beq e f then some k else find f t.endpoint_to_client_map)
  establish_endpoint_keys t e k f = elim (Option-cases (find e t.endpoint_to_client_map)) [
    | inl h ↦ rw (h, establish_endpoint) (find-emplace e f k t.endpoint_to_client_map h)
    | inr (other, h) ↦ rw (h, establish_endpoint) (find-assign e f k t.endpoint_to_client_map)
  ]

  -- After a session is established, a client whose messages have no key is found at its
  -- endpoint; the endpoint at which the client was before is forgotten, and the other
  -- endpoints lead where they led.
  pub get_client_key-establish_session :
      (s : SessionManager EndPoint) (e : EndPoint) (k id : ℕ) (f : EndPoint)
      → get_client_key (establish_session s e k id) f ≡ (
          if not (has_session_client_key id) && q.beq e f
          then some k
          else if was_at s k f
          then none
          else get_client_key s f)
  unfolding establish_session get_client_key
  get_client_key-establish_session s e k id f = elim (Bool-cases (has_session_client_key id)) [
    | inl h ↦ rw h (establish_client_keys s e k f)
    | inr h ↦ rw h (
        establish_endpoint_keys (establish_client s e k) e k f
        ∙ ap (λ x. if q.beq e f then some k else x) (establish_client_keys s e k f))
  ]

  -- An endpoint that leads to a client is the endpoint of that client.
  abbrev pub IsConsistent : SessionManager EndPoint → Type 0
  IsConsistent s = (e : EndPoint) (k : ℕ) → get_client_key s e ≡ some k → get_endpoint s k ≡ some e

  -- Establishing a session keeps the two maps consistent.
  pub establish_session-IsConsistent :
      (s : SessionManager EndPoint) (e : EndPoint) (k id : ℕ)
      → IsConsistent s
      → IsConsistent (establish_session s e k id)
  establish_session-IsConsistent s e k id ok f j found = ground (
    arith,
    get_endpoint-establish_session s e k id j,
    get_client_key-establish_session s e k id f,
    ok f j,
    q.beq_iff e f,
    q.beq_iff f f,
  )

  -- Ending the session at an endpoint keeps the two maps consistent.
  pub destroy_session_of_endpoint-IsConsistent :
      (s : SessionManager EndPoint) (e : EndPoint)
      → IsConsistent s
      → IsConsistent (destroy_session_of_endpoint s e)
  unfolding destroy_session_of_endpoint get_client_key get_endpoint
  destroy_session_of_endpoint-IsConsistent s e ok f j found =
      let m = s.endpoint_to_client_map in
      elim (Option-cases (find e m)) [
        | inl h ↦ ground (arith, h, ok f j)
        | inr (key, h) ↦ ground (
          arith,
          h,
          ok f j,
          ok e key,
          find-erase e f m,
          find-erase key j s.client_to_endpoint_map,
          q.beq_iff e f,
        )
      ]

  -- Ending the session of a client keeps the two maps consistent.
  pub destroy_session_of_client-IsConsistent :
      (s : SessionManager EndPoint) (k : ℕ)
      → IsConsistent s
      → IsConsistent (destroy_session_of_client s k)
  unfolding destroy_session_of_client get_client_key get_endpoint
  destroy_session_of_client-IsConsistent s k ok f j found =
      let m = s.client_to_endpoint_map in
      elim (Option-cases (find k m)) [
        | inl h ↦ ground (arith, h, ok f j)
        | inr (e, h) ↦ ground (
          arith,
          h,
          ok f j,
          find-erase e f s.endpoint_to_client_map,
          find-erase k j m,
          q.beq_iff e f,
        )
      ]

  pub get_endpoint-destroy_session_of_client :
      (s : SessionManager EndPoint) (k : ℕ) → get_endpoint (destroy_session_of_client s k) k ≡ none
  unfolding destroy_session_of_client get_endpoint
  get_endpoint-destroy_session_of_client s k =
      elim (Option-cases (find k s.client_to_endpoint_map)) [
        | inl h ↦ rw (h, destroy_session_of_client) h
        | inr (e, h) ↦
            rw (h, destroy_session_of_client) (find-erase_self k s.client_to_endpoint_map)
      ]
