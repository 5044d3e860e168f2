-- ===== src/Processor/Rounds.antt =====
-- A round of `Processor::check_heartbeats` (src/cpp/processor/Processor.cpp) over all the clients of
-- the agent.
use mathlib.Core.List.{append_assoc}
use micro_xrce_dds_agent.Common.{
  ℕ, zero, suc, ◌+◌, ◌≤◌, ◌<◌, ◌≡◌, refl, sym, ap, ap₂, subst, ◌∙◌, inl, inr, true, false, [], ◌∷◌,
  ◌++◌, Option, none, some, arith, length, length-append, Bool-cases, is_some,
}
use micro_xrce_dds_agent.Common.Map as Map
use micro_xrce_dds_agent.Common.Map.{
  Map, octets_eq, nat_eq, octets_beq, octets_beq_iff, beq_refl, find, assign, erase,
}
use micro_xrce_dds_agent.Cdr.{Cdr}
use micro_xrce_dds_agent.Message.Header.{default_header}
use micro_xrce_dds_agent.SessionManager.{get_endpoint}
use micro_xrce_dds_agent.Client.Proxy.{ProxyClient}
use micro_xrce_dds_agent.Root.{ClientKey, Root, first, get_next_client}
use micro_xrce_dds_agent.Root.Keys.{
  HasUniqueKeys, assign-HasUniqueKeys, erase-HasUniqueKeys, has-first,
}
use micro_xrce_dds_agent.Root.Visit.{head_new, find-append, next-append}
use micro_xrce_dds_agent.Processor.Heartbeats.{Payloads, Round, check_client, check_heartbeats}
use micro_xrce_dds_agent.Processor.Visits.{Outcome, Visited, check_client-Visited}

module _ {V : Type 0} where
  assign-append :
      (k : ClientKey) (v w : V) (before rest : Map ClientKey V)
      → find k before ≡ none
      → assign k w (before ++ ((k, v) ∷ rest)) ≡ before ++ ((k, w) ∷ rest)
  unfolding find assign
  assign-append k v w [] rest new = rw (beq_refl k) refl
  assign-append k v w ((i, x) ∷ before) rest new = ground (arith, assign-append k v w before rest)

  erase_new : (k : ClientKey) (m : Map ClientKey V) → find k m ≡ none → erase k m ≡ m
  unfolding find erase
  erase_new k [] new = refl
  erase_new k ((i, x) ∷ m) new = ground (arith, erase_new k m)

  erase-append :
      (k : ClientKey) (v : V) (before rest : Map ClientKey V)
      → find k before ≡ none
      → find k rest ≡ none
      → erase k (before ++ ((k, v) ∷ rest)) ≡ before ++ rest
  unfolding find erase
  erase-append k v [] rest new later = rw (beq_refl k) (erase_new k rest later)
  erase-append k v ((i, x) ∷ before) rest new later = ground (arith, erase-append k v before rest)

  find_front :
      (j : ClientKey) (before rest : Map ClientKey V)
      → find j rest ≡ none
      → find j (before ++ rest) ≡ find j before
  unfolding find
  find_front j [] rest none_there = none_there
  find_front j ((i, x) ∷ before) rest none_there = ground (arith, find_front j before rest)

  find_last :
      (j k : ClientKey) (v : V) (before : Map ClientKey V)
      → octets_beq k j ≡ false
      → find j (before ++ ((k, v) ∷ [])) ≡ find j before
  unfolding find
  find_last j k v before other = find_front j before ((k, v) ∷ []) (rw other refl)

  rest_unique :
      (before rest : Map ClientKey V) → HasUniqueKeys (before ++ rest) → HasUniqueKeys rest
  rest_unique [] rest unique = unique
  rest_unique ((i, x) ∷ before) rest (new, unique) = rest_unique before rest unique

  find_here :
      (j k : ClientKey) (v p : V) (m : Map ClientKey V)
      → octets_beq k j ≡ true
      → find j ((k, v) ∷ m) ≡ some p
      → v ≡ p
  unfolding find
  find_here j k v p m same at = ground arith

  find_later :
      (j k : ClientKey) (v : V) (m : Map ClientKey V)
      → octets_beq k j ≡ false
      → find j ((k, v) ∷ m) ≡ find j m
  unfolding find
  find_later j k v m other = rw other refl

  find_neither :
      (j k : ClientKey) (v : V) (m : Map ClientKey V)
      → find j ((k, v) ∷ m) ≡ none
      → (octets_beq k j ≡ false) × (find j m ≡ none)
  unfolding find
  find_neither j k v m absent = ground arith

  first_other :
      (k i : ClientKey) (m : Map ClientKey V)
      → find k m ≡ none
      → first m ≡ some i
      → octets_beq k i ≡ false
  first_other k i m absent at = elim (Bool-cases (octets_beq k i)) [
    | inl same ↦
        let here : k ≡ i = (octets_beq_iff k i).0 same in
        absurd (cc (has-first m i at, ap (λ l. is_some (find l m)) here, ap is_some absent))
    | inr other ↦ other
  ]

module _ (c : Cdr) {World : Type 0} where
  -- Every client is entered under its own key.
  abbrev pub AreNamed : Map ClientKey (ProxyClient c World) → Type 0
  AreNamed [] = Unit
  AreNamed ((k, p) ∷ m) = (p.representation.client_key ≡ k) × AreNamed m

  assign-AreNamed :
      (k : ClientKey) (p : ProxyClient c World) (m : Map ClientKey (ProxyClient c World))
      → p.representation.client_key ≡ k
      → AreNamed m
      → AreNamed (assign k p m)
  unfolding assign
  assign-AreNamed k p [] is named = (is, tt)
  assign-AreNamed k p ((i, x) ∷ m) is (own, named) = elim (Bool-cases (octets_beq i k)) [
    | inl same ↦ rw same (is, named)
    | inr other ↦ rw other (own, assign-AreNamed k p m is named)
  ]

  erase-AreNamed :
      (k : ClientKey) (m : Map ClientKey (ProxyClient c World)) → AreNamed m → AreNamed (erase k m)
  unfolding erase
  erase-AreNamed k [] named = tt
  erase-AreNamed k ((i, x) ∷ m) (own, named) = elim (Bool-cases (octets_beq i k)) [
    | inl same ↦ rw same (erase-AreNamed k m named)
    | inr other ↦ rw other (own, erase-AreNamed k m named)
  ]

  rest_named :
      (before rest : Map ClientKey (ProxyClient c World))
      → AreNamed (before ++ rest)
      → AreNamed rest
  rest_named [] rest named = named
  rest_named ((i, x) ∷ before) rest (own, named) = rest_named before rest named

  -- Every client has one entry, under its own key.
  abbrev pub AreEntered : Map ClientKey (ProxyClient c World) → Type 0
  AreEntered m = HasUniqueKeys m × AreNamed m

  -- Where a round stands that has `rest` before it.
  abbrev At :
      Map ClientKey (ProxyClient c World) → Map ClientKey (ProxyClient c World) → Root c World
  At before rest = record { clients = before ++ rest; current_client = first rest }

  -- What a visit of the client `k` makes of the clients before it.
  record Passed (k : ClientKey) (before rest : Map ClientKey (ProxyClient c World))
      (root : Root c World) : Type 0 where
    before' : Map ClientKey (ProxyClient c World)
    stands : root ≡ At before' rest
    entered : AreEntered (before' ++ rest)
    others : (j : ClientKey) → octets_beq k j ≡ false → find j before' ≡ find j before
    shorter : length before' ≤ suc (length before)

  passed :
      (k : ClientKey) (v : ProxyClient c World) (before rest : Map ClientKey (ProxyClient c World))
      (root root' : Root c World)
      → root ≡ record { clients = before ++ ((k, v) ∷ rest); current_client = first rest }
      → AreEntered (before ++ ((k, v) ∷ rest))
      → Outcome c k root root'
      → Passed k before rest root'
  passed k v before rest root root' stood (unique, named) outcome = elim outcome.clients [
    | inl (p, own, is) ↦
        let shift : (before ++ ((k, p) ∷ [])) ++ rest ≡ before ++ ((k, p) ∷ rest) =
          append_assoc before ((k, p) ∷ []) rest in
        let now : root'.clients ≡ (before ++ ((k, p) ∷ [])) ++ rest =
          is ∙ ap (assign k p) clients ∙ assign-append k v p before rest new ∙ sym shift in
        record {
          before' = before ++ ((k, p) ∷ []);
          stands = ap₂ (λ m i. record { clients = m; current_client = i }) now iterator;
          entered =
              subst AreEntered (assign-append k v p before rest new ∙ sym shift)
                (assign-HasUniqueKeys k p m unique, assign-AreNamed k p m own named);
          others = λ j other. find_last j k p before other;
          shorter = omega (arith, length-append before ((k, p) ∷ []));
        }
    | inr is ↦
        let gone : erase k m ≡ before ++ rest = erase-append k v before rest new later in
        record {
          before' = before;
          stands =
              ap₂ (λ m i. record { clients = m; current_client = i })
                (is ∙ ap (erase k) clients ∙ gone) iterator;
          entered =
              subst AreEntered gone (erase-HasUniqueKeys k m unique, erase-AreNamed k m named);
          others = λ j other. refl;
          shorter = omega arith;
        }
  ]
    where
      m : Map ClientKey (ProxyClient c World)
      m = before ++ ((k, v) ∷ rest)

      new : find k before ≡ none
      new = head_new k v before rest unique

      later : find k rest ≡ none
      later = (rest_unique before ((k, v) ∷ rest) unique).0

      clients : root.clients ≡ before ++ ((k, v) ∷ rest)
      clients = ap (λ r. r.clients) stood

      iterator : root'.current_client ≡ first rest
      iterator = outcome.iterator ∙ ap (λ r. r.current_client) stood

  moved_to :
      (k : ClientKey) (v : ProxyClient c World) (before rest : Map ClientKey (ProxyClient c World))
      → HasUniqueKeys (before ++ ((k, v) ∷ rest))
      → get_next_client c (At before ((k, v) ∷ rest))
        ≡ (some v, record { clients = before ++ ((k, v) ∷ rest); current_client = first rest })
  unfolding get_next_client
  moved_to k v before rest unique =
      let new = head_new k v before rest unique in
      ap₂ (λ o i. (o, record { clients = before ++ ((k, v) ∷ rest); current_client = i }))
        (find-append k v before rest new) (next-append k v before rest new)

module _ (c : Cdr) (payloads : Payloads) {World EndPoint : Type 0} ⦃q : Map.Eq EndPoint⦄ where
  -- What a round leaves of a client `j` and of the agent, with `before` behind it and `rest` before
  -- it.
  pub record RoundOf (j : ClientKey) (now : ℕ) (before rest : Map ClientKey (ProxyClient c World))
      (r r' : Round c World EndPoint) : Type 0 where
    pub done : r'.root.current_client ≡ first r'.root.clients
    pub entered : AreEntered c r'.root.clients
    pub shorter : length r'.root.clients ≤ length before + length rest
    pub lost : (i : ℕ) → get_endpoint r.sessions i ≡ none → get_endpoint r'.sessions i ≡ none
    pub kept : find j rest ≡ none → find j r'.root.clients ≡ find j before
    pub visited :
        (p : ProxyClient c World)
        → find j rest ≡ some p
        → (x : Round c World EndPoint) × (find j x.root.clients ≡ some p)
          × (find j r'.root.clients ≡ find j (check_client c payloads now p x).root.clients)
          × ((i : ℕ)
              → get_endpoint (check_client c payloads now p x).sessions i ≡ none
              → get_endpoint r'.sessions i ≡ none)

  check_heartbeats_step :
      (fuel now : ℕ) (r : Round c World EndPoint) (p : ProxyClient c World) (root : Root c World)
      → get_next_client c r.root ≡ (some p, root)
      → check_heartbeats c payloads (suc fuel) now r
        ≡ check_heartbeats c payloads fuel now
            (check_client c payloads now p (record r { root = root }))
  unfolding check_heartbeats
  check_heartbeats_step fuel now r p root is =
      ap
        (λ (x : Option (ProxyClient c World) × Root c World).
          elim x.0 as (λ o. Round c World EndPoint) [
            | none ↦ record r { root = x.1 }
            | some p ↦
                check_heartbeats c payloads fuel now
                  (check_client c payloads now p (record r { root = x.1 }))
          ])
        is

  check_heartbeats_end :
      (fuel now : ℕ) (r : Round c World EndPoint)
      → r.root.current_client ≡ none
      → check_heartbeats c payloads (suc fuel) now r
        ≡ record r { root = record r.root { current_client = first r.root.clients } }
  unfolding check_heartbeats get_next_client
  check_heartbeats_end fuel now r over = rw (over, get_next_client) refl

  -- The round with the iterator past the client `k`.
  abbrev moved :
      ClientKey
      → ProxyClient c World
      → Map ClientKey (ProxyClient c World)
      → Map ClientKey (ProxyClient c World)
      → Round c World EndPoint
      → Round c World EndPoint
  moved k v before rest r = record r {
    root = record { clients = before ++ ((k, v) ∷ rest); current_client = first rest };
  }

  -- A round that visits one client and goes on.
  round_step :
      (j k : ClientKey) (v : ProxyClient c World) (now : ℕ)
      (before rest : Map ClientKey (ProxyClient c World)) (r r' : Round c World EndPoint)
      → AreEntered c (before ++ ((k, v) ∷ rest))
      → let x = check_client c payloads now v (moved k v before rest r) in
        Visited c payloads k (moved k v before rest r) x
        → (past : Passed c k before rest x.root) → RoundOf j now past.before' rest x r'
        → RoundOf j now before ((k, v) ∷ rest) r r'
  unfolding find
  round_step j k v now before rest r r' entered visit past further = record {
    done = further.done;
    entered = further.entered;
    shorter = omega (arith, further.shorter, past.shorter);
    lost = λ i e. further.lost i (visit.lost i e);
    kept = λ absent.
        let (other, later) = find_neither j k v rest absent in
        further.kept later ∙ past.others j other;
    visited = λ p at. elim (Bool-cases (octets_beq k j)) [
      | inl same ↦
          subst
            (λ w.
              (x : Round c World EndPoint) × (find j x.root.clients ≡ some w)
              × (find j r'.root.clients ≡ find j (check_client c payloads now w x).root.clients)
              × ((i : ℕ)
                  → get_endpoint (check_client c payloads now w x).sessions i ≡ none
                  → get_endpoint r'.sessions i ≡ none))
            (find_here j k v p rest same at)
            (
              moved k v before rest r,
              subst (λ l. find l (before ++ ((k, v) ∷ rest)) ≡ some v) (is same)
                  (find-append k v before rest (head_new k v before rest entered.0)),
              further.kept (later same)
                  ∙ sym (
                      ap (λ x. find j x.clients) past.stands
                      ∙ find_front j past.before' rest (later same)),
              further.lost,
            )
      | inr other ↦ further.visited p (sym (find_later j k v rest other) ∙ at)
    ];
  }
    where
      is : octets_beq k j ≡ true → k ≡ j
      is same = (octets_beq_iff k j).0 same

      later : octets_beq k j ≡ true → find j rest ≡ none
      later same =
          subst (λ l. find l rest ≡ none) (is same) (rest_unique before ((k, v) ∷ rest) entered.0).0

  round_rest :
      (j : ClientKey) (fuel now : ℕ) (before rest : Map ClientKey (ProxyClient c World))
      (r : Round c World EndPoint)
      → r.root ≡ At c before rest
      → AreEntered c (before ++ rest)
      → length rest < fuel
      → RoundOf j now before rest r (check_heartbeats c payloads fuel now r)
  unfolding find
  round_rest j zero now before rest r stood entered enough = absurd (omega (arith, enough))
  round_rest j (suc fuel) now before [] r stood entered enough =
      let clients : r.root.clients ≡ before ++ [] = ap (λ x. x.clients) stood in
      subst (RoundOf j now before [] r)
        (sym (check_heartbeats_end fuel now r (ap (λ x. x.current_client) stood)))
        (record {
          done = refl;
          entered = subst (AreEntered c) (sym clients) entered;
          shorter = omega (arith, ap length clients, length-append before []);
          lost = λ i e. e;
          kept = λ absent. ap (find j) clients ∙ find_front j before [] absent;
          visited = λ p at. cc;
        })
  round_rest j (suc fuel) now before ((k, v) ∷ rest) r stood entered enough =
      let absent_later : find k rest ≡ none = (rest_unique before ((k, v) ∷ rest) entered.0).0 in
      let visit : Visited c payloads k (moved k v before rest r)
          (check_client c payloads now v (moved k v before rest r)) =
        check_client-Visited c payloads now k v (moved k v before rest r)
          (rest_named c before ((k, v) ∷ rest) entered.1).0
          (find-append k v before rest (head_new k v before rest entered.0))
          (λ i at. first_other k i rest absent_later at) in
      let past : Passed c k before rest
          (check_client c payloads now v (moved k v before rest r)).root =
        passed c k v before rest (moved k v before rest r).root _ refl entered visit.outcome in
      subst (RoundOf j now before ((k, v) ∷ rest) r)
        (sym (
          check_heartbeats_step fuel now r v (moved k v before rest r).root
            (ap (get_next_client c) stood ∙ moved_to c k v before rest entered.0)))
        (round_step j k v now before rest r _ entered visit past (
          round_rest j fuel now past.before' rest _ past.stands past.entered
            (omega (arith, enough))))

  -- A call of `check_heartbeats`, whose variables are new; `destination` is what the endpoint of the
  -- packet is to begin with.
  abbrev pub heartbeats : ℕ → ℕ → EndPoint → Round c World EndPoint → Round c World EndPoint
  heartbeats fuel now destination r =
      check_heartbeats c payloads fuel now
        (record r { header = default_header; destination = destination })

  -- The iterator is at the first client, every client has one entry, under its own key, and the fuel
  -- is greater than the number of clients.
  pub record IsReady (fuel : ℕ) (r : Round c World EndPoint) : Type 0 where
    pub at : r.root.current_client ≡ first r.root.clients
    pub entered : AreEntered c r.root.clients
    pub enough : length r.root.clients < fuel

  -- A call visits every client, and leaves the agent ready for the next one.
  pub heartbeats_round :
      (j : ClientKey) (fuel now : ℕ) (destination : EndPoint) (r : Round c World EndPoint)
      → IsReady fuel r
      → RoundOf j now [] r.root.clients
          (record r { header = default_header; destination = destination })
          (heartbeats fuel now destination r)
        × IsReady fuel (heartbeats fuel now destination r)
  heartbeats_round j fuel now destination r ready =
      let visits =
        round_rest j fuel now [] r.root.clients
          (record r { header = default_header; destination = destination })
          (ap (λ i. record r.root { current_client = i }) ready.at) ready.entered ready.enough in
      (
        visits,
        record {
          at = visits.done;
          entered = visits.entered;
          enough = omega (arith, visits.shorter, ready.enough);
        },
      )
