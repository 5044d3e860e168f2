-- ===== src/Processor/Silence.antt =====
-- What becomes of a client that has fallen silent (src/cpp/processor/Processor.cpp).
use micro_xrce_dds_agent.Common.{
  ℕ, ◌+◌, ◌-◌, ◌/◌, ◌%◌, ◌≡◌, refl, sym, ap, subst, ◌∙◌, true, false, none, some, ◌==◌,
  if◌then◌else◌,
}
use micro_xrce_dds_agent.Common.Map.{
  octets_eq, octets_beq, nat_eq, beq_refl, find, assign, erase, find-assign, find-erase_self,
}
use micro_xrce_dds_agent.Common.Map as Map
use micro_xrce_dds_agent.Cdr.{Cdr}
use micro_xrce_dds_agent.SessionManager.{get_endpoint}
use micro_xrce_dds_agent.SessionManager.Consistency.{get_endpoint-destroy_session_of_client}
use micro_xrce_dds_agent.Client.Proxy.{
  State, alive, dead, to_remove, ProxyClient, get_state, update_state, less_than,
}
use micro_xrce_dds_agent.Root.{ClientKey, Root, get_client, delete_client}
use micro_xrce_dds_agent.Root.Lookup.{get_client-delete_client}
use micro_xrce_dds_agent.Processor.Rounds.{IsReady, heartbeats, heartbeats_round}
use micro_xrce_dds_agent.Processor.Heartbeats.{
  Payloads, Round, raw_key, store_client, knock, remove, check_client, check_in_state, arrived,
}

module _ (c : Cdr) {World : Type 0} where
  find-store_client :
      (key : ClientKey) (p old : ProxyClient c World) (root : Root c World)
      → find key root.clients ≡ some old
      → find key (store_client c key p root).clients ≡ some p
  find-store_client key p old root there =
      rw (there, store_client) (find-assign key key p root.clients ∙ rw (beq_refl key) refl)

  -- A dead client after a further round.
  abbrev pub knocked : ℕ → ProxyClient c World → ProxyClient c World
  knocked now p =
      let tries = (p.hard_liveliness_check_tries + 1) % 256 in
      let counted : ProxyClient c World = record p { hard_liveliness_check_tries = tries } in
      if tries == 3 then update_state c to_remove now counted else counted

  -- The client once `get_state` has found it dead and `n` rounds have counted it.
  abbrev silent : ProxyClient c World → ℕ → ProxyClient c World
  silent p n = record p { state = dead; hard_liveliness_check_tries = n }

  abbrev doomed : ProxyClient c World → ProxyClient c World
  doomed p = record p { state = to_remove; hard_liveliness_check_tries = 3 }

  get_state_expired :
      (now : ℕ) (p : ProxyClient c World)
      → p.state ≡ alive
      → less_than ((now - p.timestamp) / 1000000) p.client_dead_time ≡ false
      → p.hard_liveliness_check_tries ≡ 0
      → get_state c now p ≡ (dead, silent p 0)
  unfolding get_state
  get_state_expired now p is expired fresh =
      rw (is, get_state) (rw expired (ap (λ n. (dead, silent p n)) fresh))

module _ (c : Cdr) (payloads : Payloads) {World EndPoint : Type 0} ⦃q : Map.Eq EndPoint⦄ where
  check_dead :
      (now : ℕ) (p old : ProxyClient c World) (r : Round c World EndPoint)
      → find p.representation.client_key r.root.clients ≡ some old
      → p.hard_liveliness_check ≡ true
      → find p.representation.client_key (check_in_state c payloads now dead p r).root.clients
        ≡ some (knocked c now p)
  unfolding check_in_state knock
  check_dead now p old r there hard =
      let key = p.representation.client_key in
      let at = arrived c payloads p r in
      subst
        (λ b.
          find key (if b then knock c payloads now p at else at).root.clients
          ≡ some (knocked c now p))
        (sym hard)
        (find-store_client c key (knocked c now p) p at.root
          (find-store_client c key p old r.root there))

  check_removed :
      (now : ℕ) (p old : ProxyClient c World) (r : Round c World EndPoint)
      → find p.representation.client_key r.root.clients ≡ some old
      → p.hard_liveliness_check ≡ true
      → (find p.representation.client_key (check_in_state c payloads now to_remove p r).root.clients
          ≡ none)
        × (get_endpoint
              (check_in_state c payloads now to_remove p r).sessions
              (raw_key p.representation.client_key)
            ≡ none)
  unfolding check_in_state remove delete_client get_client
  check_removed now p old r there hard =
      let key = p.representation.client_key in
      let at = arrived c payloads p r in
      let held : find key (store_client c key p r.root).clients ≡ some p =
        find-store_client c key p old r.root there in
      subst
        (λ b.
          (find key (if b then remove c payloads p at else at).root.clients ≡ none)
          × (get_endpoint (if b then remove c payloads p at else at).sessions (raw_key key) ≡ none))
        (sym hard)
        (rw (held, remove, delete_client, get_client)
          (
            (get_client-delete_client c key key at.root).0 ∙ rw (beq_refl key) refl,
            get_endpoint-destroy_session_of_client r.sessions (raw_key key),
          ))

  -- The visit of a client, by the state that `get_state` gives it.
  check_client_in_state :
      (now : ℕ) (p p' : ProxyClient c World) (state : State) (r : Round c World EndPoint)
      → get_state c now p ≡ (state, p')
      → check_client c payloads now p r ≡ check_in_state c payloads now state p' r
  unfolding check_client
  check_client_in_state now p p' state r is = ap (λ x. check_in_state c payloads now x.0 x.1 r) is

  -- A round counts a client that is dead.
  round_knocks :
      (fuel now : ℕ) (destination : EndPoint) (p p' : ProxyClient c World)
      (r : Round c World EndPoint)
      → IsReady c payloads fuel r
      → p'.hard_liveliness_check ≡ true
      → find p'.representation.client_key r.root.clients ≡ some p
      → get_state c now p ≡ (dead, p')
      → IsReady c payloads fuel (heartbeats c payloads fuel now destination r)
        × (find p'.representation.client_key
              (heartbeats c payloads fuel now destination r).root.clients
            ≡ some (knocked c now p'))
  round_knocks fuel now destination p p' r ready hard there is =
      let key = p'.representation.client_key in
      let (visits, ready') = heartbeats_round c payloads key fuel now destination r ready in
      let (x, found, same, _) = visits.visited p there in
      (
        ready',
        same
            ∙ ap (λ y. find key y.root.clients) (check_client_in_state now p p' dead x is)
            ∙ check_dead now p' p x found hard,
      )

  -- A round removes a client that is to be removed.
  round_removes :
      (fuel now : ℕ) (destination : EndPoint) (p : ProxyClient c World) (r : Round c World EndPoint)
      → IsReady c payloads fuel r
      → p.hard_liveliness_check ≡ true
      → find p.representation.client_key r.root.clients ≡ some p
      → get_state c now p ≡ (to_remove, p)
      → let after = heartbeats c payloads fuel now destination r in
        (find p.representation.client_key after.root.clients ≡ none)
        × (get_endpoint after.sessions (raw_key p.representation.client_key) ≡ none)
  round_removes fuel now destination p r ready hard there is =
      let key = p.representation.client_key in
      let (visits, _) = heartbeats_round c payloads key fuel now destination r ready in
      let (x, found, same, lost) = visits.visited p there in
      let visit = check_client_in_state now p p to_remove x is in
      let (gone, forgotten) = check_removed now p p x found hard in
      (
        same ∙ ap (λ y. find key y.root.clients) visit ∙ gone,
        lost (raw_key key) (ap (λ y. get_endpoint y.sessions (raw_key key)) visit ∙ forgotten),
      )

  -- A client with the hard liveliness check that is alive and has not been counted when a call of
  -- `check_heartbeats` finds its time over is gone after this call and three more, and its endpoint
  -- is forgotten, whatever other clients there are, if nothing else happens in between. The iterator
  -- over the clients is at the first one before the four calls, where every call leaves it: a call
  -- that finds it at the end, as the first one does, visits no client and comes before the four.
  -- Every client has one entry, under its own key, and the fuel is greater than their number.
  pub check_heartbeats_silent :
      (p : ProxyClient c World) (r : Round c World EndPoint) (fuel t1 t2 t3 t4 : ℕ)
      (destination : EndPoint)
      → IsReady c payloads fuel r
      → get_client c p.representation.client_key r.root ≡ some p
      → p.hard_liveliness_check ≡ true
      → p.hard_liveliness_check_tries ≡ 0
      → p.state ≡ alive
      → less_than ((t1 - p.timestamp) / 1000000) p.client_dead_time ≡ false
      → let key = p.representation.client_key in
        let call : ℕ → Round c World EndPoint → Round c World EndPoint =
          λ now. heartbeats c payloads fuel now destination in
        let after = call t4 (call t3 (call t2 (call t1 r))) in
        (get_client c key after.root ≡ none) × (get_endpoint after.sessions (raw_key key) ≡ none)
  unfolding get_client get_state update_state
  check_heartbeats_silent p r fuel t1 t2 t3 t4 destination ready there hard fresh is expired =
      let (ready1, e1) =
        round_knocks fuel t1 destination p (silent c p 0) r ready hard there
          (get_state_expired c t1 p is expired fresh) in
      let (ready2, e2) =
        round_knocks fuel t2 destination (silent c p 1) (silent c p 1) _ ready1 hard e1 refl in
      let (ready3, e3) =
        round_knocks fuel t3 destination (silent c p 2) (silent c p 2) _ ready2 hard e2 refl in
      round_removes fuel t4 destination (doomed c p) _ ready3 hard e3 refl
