-- ===== src/Root/Ascending.antt =====
-- The map of the clients is ordered by the keys (src/cpp/Root.cpp, where it is a `std::map`).
use micro_xrce_dds_agent.Common.{
  ◌≡◌, refl, sym, ap, subst, ◌∙◌, inl, inr, Bool, true, false, [], ◌∷◌, none, arith, if◌then◌else◌,
  Bool-cases, is_some,
}
use micro_xrce_dds_agent.Common.Map.{
  Map, octets_eq, octets_beq, octets_beq_iff, find, erase, assign, find-erase, find-assign,
}
use micro_xrce_dds_agent.Root.{ClientKey, key_lt, insert}
use micro_xrce_dds_agent.Root.Keys.{has, find-insert}

key_lt_trans : (j k l : ClientKey) → key_lt j k ≡ true → key_lt k l ≡ true → key_lt j l ≡ true
unfolding key_lt
key_lt_trans [] [] l p q = cc
key_lt_trans [] (y ∷ ys) [] p q = cc
key_lt_trans [] (y ∷ ys) (z ∷ zs) p q = refl
key_lt_trans (x ∷ xs) [] l p q = cc
key_lt_trans (x ∷ xs) (y ∷ ys) [] p q = cc
key_lt_trans (x ∷ xs) (y ∷ ys) (z ∷ zs) p q = ground (arith, key_lt_trans xs ys zs)

key_lt_either : (j k : ClientKey) → key_lt j k ≡ false → octets_beq k j ≡ false → key_lt k j ≡ true
unfolding key_lt
key_lt_either [] [] p q = cc
key_lt_either [] (y ∷ ys) p q = cc
key_lt_either (x ∷ xs) [] p q = refl
key_lt_either (x ∷ xs) (y ∷ ys) p q = ground (arith, key_lt_either xs ys)

module _ {V : Type 0} where
  -- Every key in the map is greater than `k`.
  abbrev IsBelow : ClientKey → Map ClientKey V → Type 0
  IsBelow k m = (j : ClientKey) → has j m ≡ true → key_lt k j ≡ true

  -- The keys stand in ascending order.
  abbrev pub IsAscending : Map ClientKey V → Type 0
  IsAscending [] = Unit
  IsAscending ((k, v) ∷ m) = IsBelow k m × IsAscending m

  IsBelow-insert :
      (i k : ClientKey) (v : V) (m : Map ClientKey V)
      → find k m ≡ none
      → key_lt i k ≡ true
      → IsBelow i m
      → IsBelow i (insert k v m)
  IsBelow-insert i k v m absent less below j there = elim (Bool-cases (octets_beq k j)) [
    | inl same ↦ ap (key_lt i) (sym ((octets_beq_iff k j).0 same)) ∙ less
    | inr other ↦ below j (rw (← there, find-insert k j v m absent, other) refl)
  ]

  pub insert-IsAscending :
      (k : ClientKey) (v : V) (m : Map ClientKey V)
      → find k m ≡ none
      → IsAscending m
      → IsAscending (insert k v m)
  unfolding find insert
  insert-IsAscending k v [] absent ascending = (λ j there. cc, tt)
  insert-IsAscending k v ((i, w) ∷ m) absent (below, ascending) = elim (Bool-cases (key_lt k i)) [
    | inl less ↦ rw less (below_both less, (below, ascending))
    | inr not_less ↦ rw not_less (
      IsBelow-insert i k v m later (key_lt_either k i not_less other) below,
      insert-IsAscending k v m later ascending,
    )
  ]
    where
      later : find k m ≡ none
      later = ground arith

      other : octets_beq i k ≡ false
      other = ground arith

      below_both : key_lt k i ≡ true → IsBelow k ((i, w) ∷ m)
      below_both less j there = elim (Bool-cases (octets_beq i j)) [
        | inl same ↦ ap (key_lt k) (sym ((octets_beq_iff i j).0 same)) ∙ less
        | inr differs ↦ key_lt_trans k i j less (below j (rw (← there, differs) refl))
      ]

  pub erase-IsAscending :
      (k : ClientKey) (m : Map ClientKey V) → IsAscending m → IsAscending (erase k m)
  unfolding erase
  erase-IsAscending k [] ascending = tt
  erase-IsAscending k ((i, w) ∷ m) (below, ascending) = elim (Bool-cases (octets_beq i k)) [
    | inl same ↦ rw same (erase-IsAscending k m ascending)
    | inr other ↦ rw other (kept, erase-IsAscending k m ascending)
  ]
    where
      kept : IsBelow i (erase k m)
      kept j there = below j (had (octets_beq k j) (ap is_some (sym (find-erase k j m)) ∙ there))
        where
          had : (b : Bool) → is_some (if b then none else find j m) ≡ true → has j m ≡ true
          had true e = cc
          had false e = e

  -- The entry of a key that is there is assigned to.
  pub assign-IsAscending :
      (k : ClientKey) (v : V) (m : Map ClientKey V)
      → has k m ≡ true
      → IsAscending m
      → IsAscending (assign k v m)
  unfolding find assign
  assign-IsAscending k v [] there ascending = cc
  assign-IsAscending k v ((i, w) ∷ m) there (below, ascending) =
      elim (Bool-cases (octets_beq i k)) [
        | inl same ↦
            rw same (subst (λ l. IsBelow l m) ((octets_beq_iff i k).0 same) below, ascending)
        | inr other ↦
            let later : has k m ≡ true = rw (← there, other) refl in
            rw other (kept later, assign-IsAscending k v m later ascending)
      ]
    where
      kept : has k m ≡ true → IsBelow i (assign k v m)
      kept later j held = elim (Bool-cases (octets_beq k j)) [
        | inl same ↦ below j (ap (λ l. has l m) (sym ((octets_beq_iff k j).0 same)) ∙ later)
        | inr other ↦ below j (rw (← held, find-assign k j v m, other) refl)
      ]
