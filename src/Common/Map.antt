-- ===== src/Common/Map.antt =====
-- Maps whose keys have a Boolean equality, as association lists.
use Prim.Native.Nat.{ℕ}
use mathlib.Core.Path.{◌≡◌, refl, sym, ap, ◌∙◌}
use mathlib.Core.Logic.{◌⊎◌, ◌↔◌, inl, inr}
use mathlib.Core.Bool.{Bool, true, false, ◌&&◌}
use mathlib.Core.List.{List, [], ◌∷◌}
use mathlib.Core.Option.{Option, none, some}
use native.Mathlib.Omega.{arith}
use micro_xrce_dds_agent.Common.Tests.{◌==◌, ==_iff, if◌then◌else◌, Bool-cases}

pub record Eq {ℓ} (K : Type ℓ) : Type ℓ where
  pub beq : K → K → Bool
  pub beq_iff : (a b : K) → (beq a b ≡ true) ↔ (a ≡ b)

instance abbrev pub nat_eq : Eq ℕ
nat_eq = record { beq = ◌==◌; beq_iff = ==_iff }

abbrev pub octets_beq : List ℕ → List ℕ → Bool
octets_beq [] [] = true
octets_beq [] (y ∷ ys) = false
octets_beq (x ∷ xs) [] = false
octets_beq (x ∷ xs) (y ∷ ys) = (x == y) && octets_beq xs ys

pub octets_beq_iff : (xs ys : List ℕ) → (octets_beq xs ys ≡ true) ↔ (xs ≡ ys)
octets_beq_iff [] [] = (λ e. refl, λ e. refl)
octets_beq_iff [] (y ∷ ys) = (λ e. cc, λ e. cc)
octets_beq_iff (x ∷ xs) [] = (λ e. cc, λ e. cc)
octets_beq_iff (x ∷ xs) (y ∷ ys) = ground (arith, octets_beq_iff xs ys)

instance abbrev pub octets_eq : Eq (List ℕ)
octets_eq = record { beq = octets_beq; beq_iff = octets_beq_iff }

abbrev pub pair_beq : (ℕ × ℕ) → (ℕ × ℕ) → Bool
pair_beq (a, b) (x, y) = (a == x) && (b == y)

pub pair_beq_iff : (p r : ℕ × ℕ) → (pair_beq p r ≡ true) ↔ (p ≡ r)
pair_beq_iff (a, b) (x, y) = ground arith

instance abbrev pub pair_eq : Eq (ℕ × ℕ)
pair_eq = record { beq = pair_beq; beq_iff = pair_beq_iff }

abbrev pub Map {ℓ κ} : Type ℓ → Type κ → Type (ℓ ⊔ κ)
Map K V = List (K × V)

module _ {ℓ} {K : Type ℓ} ⦃q : Eq K⦄ where
  pub beq_refl : (k : K) → q.beq k k ≡ true
  beq_refl k = (q.beq_iff k k).1 refl

module _ {ℓ κ} {K : Type ℓ} {V : Type κ} ⦃q : Eq K⦄ where
  unfoldable pub find : K → Map K V → Option V
  find k [] = none
  find k ((j, v) ∷ m) = if q.beq j k then some v else find k m

  unfoldable pub erase : K → Map K V → Map K V
  erase k [] = []
  erase k ((j, v) ∷ m) = if q.beq j k then erase k m else (j, v) ∷ erase k m

  -- `emplace` and `insert` keep the value of a key that is there.
  unfoldable pub emplace : K → V → Map K V → Map K V
  emplace k v m = elim (find k m) [ none ↦ (k, v) ∷ m | some w ↦ m ]

  -- `m[k] = v`, and an assignment through an iterator.
  unfoldable pub assign : K → V → Map K V → Map K V
  assign k v [] = (k, v) ∷ []
  assign k v ((j, w) ∷ m) = if q.beq j k then (k, v) ∷ m else (j, w) ∷ assign k v m

  pub find-erase :
      (k j : K) (m : Map K V) → find j (erase k m) ≡ (if q.beq k j then none else find j m)
  unfolding find erase
  find-erase k j [] = ground arith
  find-erase k j ((i, w) ∷ m) =
      ground (arith, find-erase k j m, q.beq_iff i k, q.beq_iff i j, q.beq_iff k j)

  pub find-erase_self : (k : K) (m : Map K V) → find k (erase k m) ≡ none
  find-erase_self k m = find-erase k k m ∙ rw (beq_refl k) refl

  pub find-assign :
      (k j : K) (v : V) (m : Map K V)
      → find j (assign k v m) ≡ (if q.beq k j then some v else find j m)
  unfolding find assign
  find-assign k j v [] = ground arith
  find-assign k j v ((i, w) ∷ m) =
      ground (arith, find-assign k j v m, q.beq_iff i k, q.beq_iff i j, q.beq_iff k j)

  pub find-emplace :
      (k j : K) (v : V) (m : Map K V)
      → find k m ≡ none
      → find j (emplace k v m) ≡ (if q.beq k j then some v else find j m)
  unfolding find emplace
  find-emplace k j v m h = rw (h, emplace, find) refl

  -- `emplace` leaves a map that has the key.
  pub emplace_there : (k : K) (v w : V) (m : Map K V) → find k m ≡ some w → emplace k v m ≡ m
  unfolding emplace
  emplace_there k v w m h = rw (h, emplace) refl

  pub find_of_absent :
      (k j : K) (m : Map K V) → find k m ≡ none → find j m ≡ (if q.beq k j then none else find j m)
  find_of_absent k j m absent = elim (Bool-cases (q.beq k j)) [
    | inl same ↦ rw same (ap (λ i. find i m) (sym ((q.beq_iff k j).0 same)) ∙ absent)
    | inr other ↦ rw other refl
  ]

  -- What is found behind `erase` was there before, under another key.
  pub find_of_erased :
      (k j : K) (v : V) (m : Map K V)
      → find j (erase k m) ≡ some v
      → (find j m ≡ some v) × (q.beq k j ≡ false)
  find_of_erased k j v m e = ground (arith, find-erase k j m)

  -- What is found behind `emplace` was there before or is the new entry.
  pub find-emplace_inv :
      (k j : K) (v w : V) (m : Map K V)
      → find j (emplace k v m) ≡ some w
      → (find j m ≡ some w) ⊎ (k ≡ j) × (v ≡ w)
  unfolding find emplace
  find-emplace_inv k j v w m e = ground (arith, q.beq_iff k j)
