-- ===== src/Processor/Visits.antt =====
-- What the visit of a client in `Processor::check_heartbeats` (src/cpp/processor/Processor.cpp)
-- leaves of the clients of the agent and of their sessions.
use micro_xrce_dds_agent.Common.{
  ℕ, ◌+◌, ◌%◌, ◌≡◌, refl, sym, ap, subst, ◌∙◌, inl, inr, ◌⊎◌, false, [], ◌∷◌, Option, none, some,
  arith, if◌then◌else◌, if_each, ◌==◌, Option-cases, Bool-cases, is_some,
}
use micro_xrce_dds_agent.Common.Map as Map
use micro_xrce_dds_agent.Common.Map.{
  Map, octets_eq, nat_eq, octets_beq, octets_beq_iff, beq_refl, find, assign, erase, find-assign,
  find-erase,
}
use micro_xrce_dds_agent.Cdr.{Cdr}
use micro_xrce_dds_agent.SessionManager.{SessionManager, get_endpoint, destroy_session_of_client}
use micro_xrce_dds_agent.Client.Types.{status_ok}
use micro_xrce_dds_agent.Client.Proxy.{
  State, alive, dead, to_remove, ProxyClient, get_state, update_state,
}
use micro_xrce_dds_agent.Root.{ClientKey, Root, delete_client, get_client}
use micro_xrce_dds_agent.Processor.Heartbeats.{
  Payloads, Round, raw_key, store_client, beat, knock, remove, arrived, check_in_state,
  check_client,
}

module _ {V : Type 0} where
  pub assign-assign :
      (k : ClientKey) (v w : V) (m : Map ClientKey V) → assign k w (assign k v m) ≡ assign k w m
  unfolding assign
  assign-assign k v w [] = rw (beq_refl k) refl
  assign-assign k v w ((i, x) ∷ m) = elim (Bool-cases (octets_beq i k)) [
    | inl same ↦ rw same (rw (beq_refl k) refl)
    | inr other ↦ rw other (rw (other, assign-assign k v w m) refl)
  ]

  erase-assign : (k : ClientKey) (v : V) (m : Map ClientKey V) → erase k (assign k v m) ≡ erase k m
  unfolding assign erase
  erase-assign k v [] = rw (beq_refl k) refl
  erase-assign k v ((i, x) ∷ m) = elim (Bool-cases (octets_beq i k)) [
    | inl same ↦ rw same (rw (beq_refl k) refl)
    | inr other ↦ rw other (rw (other, erase-assign k v m) refl)
  ]

module _ (c : Cdr) {World : Type 0} where
  -- The client of a key is another one with the same key, or gone; the iterator stays.
  pub record Outcome (k : ClientKey) (root root' : Root c World) : Type 0 where
    pub iterator : root'.current_client ≡ root.current_client
    pub clients :
        ((p : ProxyClient c World) × (p.representation.client_key ≡ k)
          × (root'.clients ≡ assign k p root.clients))
        ⊎ (root'.clients ≡ erase k root.clients)

  store_client_lem :
      (k : ClientKey) (p old : ProxyClient c World) (root : Root c World)
      → find k root.clients ≡ some old
      → store_client c k p root ≡ record root { clients = assign k p root.clients }
  store_client_lem k p old root there = rw (there, store_client) refl

  stored :
      (k : ClientKey) (p old : ProxyClient c World) (root : Root c World)
      → find k root.clients ≡ some old
      → p.representation.client_key ≡ k
      → Outcome k root (store_client c k p root)
  stored k p old root there named =
      rw (there, store_client) (record { iterator = refl; clients = inl (p, named, refl) })

  found_again :
      (k : ClientKey) (p : ProxyClient c World) (m : Map ClientKey (ProxyClient c World))
      → find k (assign k p m) ≡ some p
  found_again k p m = find-assign k k p m ∙ rw (beq_refl k) refl

  stored_again :
      (k : ClientKey) (p p' old : ProxyClient c World) (root : Root c World)
      → find k root.clients ≡ some old
      → p'.representation.client_key ≡ k
      → Outcome k root (store_client c k p' (store_client c k p root))
  stored_again k p p' old root there named =
      let root1 : Root c World = record root { clients = assign k p root.clients } in
      subst (λ x. Outcome k root (store_client c k p' x))
        (sym (store_client_lem k p old root there))
        (subst (Outcome k root) (sym (store_client_lem k p' p root1 (found_again k p root.clients)))
          (record {
            iterator = refl;
            clients = inl (p', named, assign-assign k p p' root.clients);
          }))

  deleted :
      (k : ClientKey) (p old : ProxyClient c World) (root : Root c World)
      → find k root.clients ≡ some old
      → ((j : ClientKey) → root.current_client ≡ some j → octets_beq k j ≡ false)
      → ((delete_client c k (store_client c k p root)).0 ≡ status_ok)
        × Outcome k root (delete_client c k (store_client c k p root)).1
  unfolding delete_client get_client
  deleted k p old root there elsewhere =
      rw (there, store_client)
        (rw (found_again k p root.clients, delete_client, get_client)
          (
            refl,
            record {
              iterator = stays root.current_client elsewhere _;
              clients = inr (erase-assign k p root.clients);
            },
          ))
    where
      stays :
          (at : Option ClientKey)
          → ((j : ClientKey) → at ≡ some j → octets_beq k j ≡ false)
          → (f : ClientKey → Option ClientKey)
          → (elim at as (λ o. Option ClientKey) [
            | none ↦ none
            | some i ↦ if octets_beq k i then f i else some i
          ])
            ≡ at
      stays none elsewhere f = refl
      stays (some i) elsewhere f = rw (elsewhere i refl) refl

  get_state-representation :
      (now : ℕ) (p : ProxyClient c World) → (get_state c now p).1.representation ≡ p.representation
  unfolding get_state
  get_state-representation now p = ground arith

module _ {EndPoint : Type 0} ⦃q : Map.Eq EndPoint⦄ where
  -- A client without an endpoint is without one when another session is destroyed.
  get_endpoint_lost :
      (s : SessionManager EndPoint) (k j : ℕ)
      → get_endpoint s j ≡ none
      → get_endpoint (destroy_session_of_client s k) j ≡ none
  unfolding destroy_session_of_client get_endpoint
  get_endpoint_lost s k j lost = elim (Option-cases (find k s.client_to_endpoint_map)) [
    | inl absent ↦ rw (absent, destroy_session_of_client) lost
    | inr (e, there) ↦
        rw (there, destroy_session_of_client)
          (find-erase k j s.client_to_endpoint_map ∙ if_each (λ o. o ≡ none) (k == j) _ _ refl lost)
  ]

module _ (c : Cdr) (payloads : Payloads) {World EndPoint : Type 0} ⦃q : Map.Eq EndPoint⦄ where
  -- What a visit leaves of a round.
  pub record Visited (k : ClientKey) (r r' : Round c World EndPoint) : Type 0 where
    pub outcome : Outcome c k r.root r'.root
    pub lost : (j : ℕ) → get_endpoint r.sessions j ≡ none → get_endpoint r'.sessions j ≡ none

  arrived-Visited :
      (p old : ProxyClient c World) (r : Round c World EndPoint)
      → find p.representation.client_key r.root.clients ≡ some old
      → Visited p.representation.client_key r (arrived c payloads p r)
  arrived-Visited p old r there = record {
    outcome = stored c p.representation.client_key p old r.root there refl;
    lost = λ j e. e;
  }

  check_in_state-Visited :
      (now : ℕ) (state : State) (p old : ProxyClient c World) (r : Round c World EndPoint)
      → find p.representation.client_key r.root.clients ≡ some old
      → ((j : ClientKey)
          → r.root.current_client ≡ some j
          → octets_beq p.representation.client_key j ≡ false)
      → Visited p.representation.client_key r (check_in_state c payloads now state p r)
  unfolding check_in_state beat knock remove update_state
  check_in_state-Visited now alive p old r there elsewhere =
      if_each (Visited p.representation.client_key r)
        (is_some (get_endpoint r.sessions (raw_key p.representation.client_key))) _ _
        (record {
          outcome = stored_again c p.representation.client_key p _ old r.root there refl;
          lost = λ j e. e;
        })
        (arrived-Visited p old r there)
  check_in_state-Visited now dead p old r there elsewhere =
      if_each (Visited p.representation.client_key r) p.hard_liveliness_check _ _
        (record {
          outcome = stored_again c p.representation.client_key p _ old r.root there (
              if_each
                (λ (x : ProxyClient c World).
                  x.representation.client_key ≡ p.representation.client_key)
                ((p.hard_liveliness_check_tries + 1) % 256 == 3) _ _ refl refl);
          lost = λ j e. e;
        })
        (arrived-Visited p old r there)
  check_in_state-Visited now to_remove p old r there elsewhere =
      if_each (Visited p.representation.client_key r) p.hard_liveliness_check _ _
        (let (fine, outcome) = deleted c p.representation.client_key p old r.root there elsewhere in
          rw (fine, remove)
            (record {
              outcome = outcome;
              lost = λ j e. get_endpoint_lost r.sessions (raw_key p.representation.client_key) j e;
            }))
        (arrived-Visited p old r there)

  -- The visit of a client that the agent has, and whose key the iterator has left.
  pub check_client-Visited :
      (now : ℕ) (k : ClientKey) (p : ProxyClient c World) (r : Round c World EndPoint)
      → p.representation.client_key ≡ k
      → find k r.root.clients ≡ some p
      → ((j : ClientKey) → r.root.current_client ≡ some j → octets_beq k j ≡ false)
      → Visited k r (check_client c payloads now p r)
  unfolding check_client
  check_client-Visited now k p r named there elsewhere =
      let (state, p') = get_state c now p in
      let same : k ≡ p'.representation.client_key =
        sym (ap (λ x. x.client_key) (get_state-representation c now p) ∙ named) in
      subst (λ i. Visited i r (check_in_state c payloads now state p' r)) (sym same)
        (check_in_state-Visited now state p' p r
          (subst (λ i. find i r.root.clients ≡ some p) same there)
          (subst (λ i. (j : ClientKey) → r.root.current_client ≡ some j → octets_beq i j ≡ false)
            same elsewhere))
