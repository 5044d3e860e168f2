-- ===== src/Root/Keys.antt =====
-- The map of the clients as a list: insertion in order and iterators (src/cpp/Root.cpp).
use micro_xrce_dds_agent.Common.{
  ◌≡◌, refl, subst, if_each, ◌∙◌, inl, inr, Bool, true, false, [], ◌∷◌, none, some, arith,
  if◌then◌else◌, Bool-cases, is_some,
}
use micro_xrce_dds_agent.Common.Map.{
  Map, octets_eq, octets_beq, octets_beq_iff, beq_refl, find, erase, assign, find-erase,
  find-assign,
}
use micro_xrce_dds_agent.Root.{ClientKey, key_lt, insert, first, next}

module _ {V : Type 0} where
  -- Every key has one entry.
  abbrev pub HasUniqueKeys : Map ClientKey V → Type 0
  HasUniqueKeys [] = Unit
  HasUniqueKeys ((k, v) ∷ m) = (find k m ≡ none) × HasUniqueKeys m

  abbrev pub has : ClientKey → Map ClientKey V → Bool
  has k m = is_some (find k m)

  pub find-insert :
      (k j : ClientKey) (v : V) (m : Map ClientKey V)
      → find k m ≡ none
      → find j (insert k v m) ≡ (if octets_beq k j then some v else find j m)
  unfolding find insert
  find-insert k j v [] absent = refl
  find-insert k j v ((i, w) ∷ m) absent =
      ground
        (arith, find-insert k j v m, octets_beq_iff i k, octets_beq_iff i j, octets_beq_iff k j)

  pub insert-HasUniqueKeys :
      (k : ClientKey) (v : V) (m : Map ClientKey V)
      → find k m ≡ none
      → HasUniqueKeys m
      → HasUniqueKeys (insert k v m)
  unfolding find insert
  insert-HasUniqueKeys k v [] absent unique = (refl, tt)
  insert-HasUniqueKeys k v ((i, w) ∷ m) absent (new, unique) =
      if_each HasUniqueKeys (key_lt k i) _ _ (absent, (new, unique))
        (kept absent, insert-HasUniqueKeys k v m (later absent) unique)
    where
      later : find k ((i, w) ∷ m) ≡ none → find k m ≡ none
      later absent = ground arith

      kept : find k ((i, w) ∷ m) ≡ none → find i (insert k v m) ≡ none
      kept absent = ground (arith, find-insert k i v m, octets_beq_iff i k, octets_beq_iff k i)

  pub erase-HasUniqueKeys :
      (k : ClientKey) (m : Map ClientKey V) → HasUniqueKeys m → HasUniqueKeys (erase k m)
  unfolding erase
  erase-HasUniqueKeys k [] unique = tt
  erase-HasUniqueKeys k ((i, w) ∷ m) (new, unique) = elim (Bool-cases (octets_beq i k)) [
    | inl same ↦ rw same (erase-HasUniqueKeys k m unique)
    | inr other ↦ rw other (
      find-erase k i m ∙ if_each (λ o. o ≡ none) (octets_beq k i) _ _ refl new,
      erase-HasUniqueKeys k m unique,
    )
  ]

  pub assign-HasUniqueKeys :
      (k : ClientKey) (v : V) (m : Map ClientKey V) → HasUniqueKeys m → HasUniqueKeys (assign k v m)
  unfolding find assign
  assign-HasUniqueKeys k v [] unique = (refl, tt)
  assign-HasUniqueKeys k v ((i, w) ∷ m) (new, unique) = elim (Bool-cases (octets_beq i k)) [
    | inl same ↦ rw same (subst (λ j. find j m ≡ none) ((octets_beq_iff i k).0 same) new, unique)
    | inr other ↦ rw other (kept other, assign-HasUniqueKeys k v m unique)
  ]
    where
      kept : octets_beq i k ≡ false → find i (assign k v m) ≡ none
      kept other = ground (arith, find-assign k i v m, octets_beq_iff i k, octets_beq_iff k i)

  pub has-first : (m : Map ClientKey V) (j : ClientKey) → first m ≡ some j → has j m ≡ true
  unfolding find
  has-first [] j at = cc
  has-first ((i, w) ∷ m) j at = ground (arith, beq_refl j)

  pub has-next : (k j : ClientKey) (m : Map ClientKey V) → next k m ≡ some j → has j m ≡ true
  unfolding find next
  has-next k j [] at = cc
  has-next k j ((i, w) ∷ m) at = ground (arith, has-next k j m, has-first m j)

  pub next_other :
      (k j : ClientKey) (m : Map ClientKey V)
      → HasUniqueKeys m
      → next k m ≡ some j
      → octets_beq k j ≡ false
  unfolding find next
  next_other k j [] unique at = cc
  next_other k j ((i, w) ∷ m) (new, unique) at =
      ground (arith, next_other k j m unique, has-first m j, octets_beq_iff k j, octets_beq_iff i k)
