-- ===== src/Root/Visit.antt =====
-- Visiting the agent's clients one by one (src/cpp/Root.cpp, and the loop of
-- `Processor::check_heartbeats` in src/cpp/processor/Processor.cpp).
use mathlib.Core.List.{append_assoc}
use micro_xrce_dds_agent.Common.{
  ℕ, zero, suc, ◌<◌, ◌≡◌, refl, sym, ap, ap₂, subst, ◌∙◌, true, List, [], ◌∷◌, ◌++◌, map, length,
  Option, none, some, arith, is_some,
}
use micro_xrce_dds_agent.Common.Map.{Map, octets_eq, octets_beq_iff, beq_refl, find}
use micro_xrce_dds_agent.Cdr.{Cdr}
use micro_xrce_dds_agent.Client.Proxy.{ProxyClient}
use micro_xrce_dds_agent.Root.{ClientKey, Root, first, next, get_next_client}
use micro_xrce_dds_agent.Root.Keys.{HasUniqueKeys}
use micro_xrce_dds_agent.Root.Ascending.{IsAscending}
use micro_xrce_dds_agent.Root.Invariant.{Reached, Reached-IsSound}
use micro_xrce_dds_agent.Client.Proxy.{Environment}

module _ {V : Type 0} where
  pub has_middle :
      (k : ClientKey) (v : V) (before rest : Map ClientKey V)
      → is_some (find k (before ++ ((k, v) ∷ rest))) ≡ true
  unfolding find
  has_middle k v [] rest = rw (beq_refl k) refl
  has_middle k v ((i, w) ∷ before) rest = ground (arith, has_middle k v before rest)

  pub head_new :
      (k : ClientKey) (v : V) (before rest : Map ClientKey V)
      → HasUniqueKeys (before ++ ((k, v) ∷ rest))
      → find k before ≡ none
  unfolding find
  head_new k v [] rest unique = refl
  head_new k v ((i, w) ∷ before) rest (new, unique) =
      ground
        (arith, head_new k v before rest unique, has_middle k v before rest, octets_beq_iff i k)

  pub find-append :
      (k : ClientKey) (v : V) (before rest : Map ClientKey V)
      → find k before ≡ none
      → find k (before ++ ((k, v) ∷ rest)) ≡ some v
  unfolding find
  find-append k v [] rest new = rw (beq_refl k) refl
  find-append k v ((i, w) ∷ before) rest new = ground (arith, find-append k v before rest)

  pub next-append :
      (k : ClientKey) (v : V) (before rest : Map ClientKey V)
      → find k before ≡ none
      → next k (before ++ ((k, v) ∷ rest)) ≡ first rest
  unfolding find next
  next-append k v [] rest new = rw (beq_refl k) refl
  next-append k v ((i, w) ∷ before) rest new = ground (arith, next-append k v before rest)

module _ (c : Cdr) {World : Type 0} where
  -- `while (root_.get_next_client(client))`, at most `fuel` times.
  abbrev pub visit : ℕ → Root c World → List (ProxyClient c World) × Root c World
  visit zero r = ([], r)
  visit (suc fuel) r =
      let (found, after) = get_next_client c r in
      let (clients, last) = visit fuel after in
      elim found [ none ↦ ([], after) | some client ↦ (client ∷ clients, last) ]

  visit_step :
      (fuel : ℕ) (r after : Root c World) (client : ProxyClient c World)
      → get_next_client c r ≡ (some client, after)
      → visit (suc fuel) r ≡ (client ∷ (visit fuel after).0, (visit fuel after).1)
  visit_step fuel r after client e =
      ap
        (λ (x : Option (ProxyClient c World) × Root c World).
          elim x.0 as (λ o. List (ProxyClient c World) × Root c World) [
            | none ↦ ([], x.1)
            | some found ↦ (found ∷ (visit fuel x.1).0, (visit fuel x.1).1)
          ])
        e

  -- The agent with the iterator at the first client of `rest`.
  abbrev before_rest :
      Map ClientKey (ProxyClient c World) → Map ClientKey (ProxyClient c World) → Root c World
  before_rest before rest = record { clients = before ++ rest; current_client = first rest }

  visit_rest :
      (fuel : ℕ) (before rest : Map ClientKey (ProxyClient c World))
      → HasUniqueKeys (before ++ rest)
      → length rest < fuel
      → visit fuel (before_rest before rest)
        ≡ (map (λ p. p.1) rest, before_rest [] (before ++ rest))
  unfolding get_next_client
  visit_rest zero before rest unique enough = absurd (omega (arith, enough))
  visit_rest (suc fuel) before [] unique enough = refl
  visit_rest (suc fuel) before ((k, v) ∷ rest) unique enough =
      let new = head_new k v before rest unique in
      let m = before ++ ((k, v) ∷ rest) in
      let shift : (before ++ ((k, v) ∷ [])) ++ rest ≡ m = append_assoc before ((k, v) ∷ []) rest in
      let after : Root c World = record { clients = m; current_client = first rest } in
      let step : get_next_client c (before_rest before ((k, v) ∷ rest)) ≡ (some v, after) =
        ap₂ (λ client at. (client, record { clients = m; current_client = at }))
          (find-append k v before rest new) (next-append k v before rest new) in
      let more : visit fuel after ≡ (map (λ p. p.1) rest, before_rest [] m) =
        subst
          (λ x.
            visit fuel (record { clients = x; current_client = first rest })
            ≡ (map (λ p. p.1) rest, before_rest [] x))
          shift
          (visit_rest fuel (before ++ ((k, v) ∷ [])) rest (subst HasUniqueKeys (sym shift) unique)
            (omega (arith, enough))) in
      visit_step fuel (before_rest before ((k, v) ∷ rest)) after v step
      ∙ ap (λ x. (v ∷ x.0, x.1)) more

  -- From the first client on, `get_next_client` hands out every client once, in the order of the
  -- list, then reports the end, and the iterator is at the first client again.
  pub visit_all :
      (m : Map ClientKey (ProxyClient c World)) (fuel : ℕ)
      → HasUniqueKeys m
      → length m < fuel
      → visit fuel (record { clients = m; current_client = first m })
        ≡ (map (λ p. p.1) m, record { clients = m; current_client = first m })
  visit_all m fuel unique enough = visit_rest fuel [] m unique enough

  -- Whatever clients were created, deleted and handed out before, a loop over `get_next_client` that
  -- starts at the first client hands out every client once, then reports the end, and the iterator
  -- is at the first client again; the keys of the clients stand in ascending order, which is the
  -- order in which the clients are handed out. The fuel is to be greater than the number of clients.
  pub Reached-visit :
      {env : Environment World} (r : Root c World) (fuel : ℕ)
      → Reached c env r
      → r.current_client ≡ first r.clients
      → length r.clients < fuel
      → (visit fuel r ≡ (map (λ p. p.1) r.clients, r)) × IsAscending r.clients
  Reached-visit r fuel reached at enough =
      let (unique, ascending, _) = Reached-IsSound c reached in
      (
        subst
            (λ i.
              visit fuel (record r { current_client = i })
              ≡ (map (λ p. p.1) r.clients, record r { current_client = i }))
            (sym at) (visit_all r.clients fuel unique enough),
        ascending,
      )
