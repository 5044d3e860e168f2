-- ===== src/Common/Dict.antt =====
-- `std::map` and `std::unordered_map` with integer keys, as association lists. `emplace` and
-- `insert` keep the entry that is there; `operator[]` makes a missing entry, and assigning
-- through it replaces the entry.
use Prim.Native.Nat.{ℕ}
use mathlib.Core.Path.{◌≡◌}
use mathlib.Core.Logic.{◌⊎◌, ◌≢◌, inl, inr}
use mathlib.Core.List.{List, [], ◌∷◌}
use mathlib.Core.Option.{Option, none, some}
use native.Mathlib.Omega.{arith}
use micro_xrce_dds_agent.Common.Tests.{◌==◌, if◌then◌else◌, Option-cases}

abbrev pub Dict {ℓ} : Type ℓ → Type ℓ
Dict V = List (ℕ × V)

module _ {ℓ} {V : Type ℓ} where
  unfoldable pub find : ℕ → Dict V → Option V
  find wanted [] = none
  find wanted ((k, v) ∷ entries) = if k == wanted then some v else find wanted entries

  unfoldable pub erase : ℕ → Dict V → Dict V
  erase k [] = []
  erase k ((j, v) ∷ m) = if j == k then erase k m else (j, v) ∷ erase k m

  -- `emplace` and `insert`: nothing happens if the key is there.
  unfoldable pub emplace : ℕ → V → Dict V → Dict V
  emplace k v m = elim (find k m) [ none ↦ (k, v) ∷ m | some w ↦ m ]

  -- `m[k] = v`.
  unfoldable pub assign : ℕ → V → Dict V → Dict V
  assign k v [] = (k, v) ∷ []
  assign k v ((i, old) ∷ entries) =
      if i == k then (k, v) ∷ entries else (i, old) ∷ assign k v entries

  -- `m[k]`, with the value that a missing entry gets.
  unfoldable pub find_or : ℕ → V → Dict V → V
  find_or k d m = elim (find k m) [ none ↦ d | some v ↦ v ]

  pub find-erase : (k j : ℕ) (m : Dict V) → find j (erase k m) ≡ (if k == j then none else find j m)
  unfolding find erase
  find-erase k j [] = ground arith
  find-erase k j ((i, w) ∷ m) = ground (arith, find-erase k j m)

  pub find-assign :
      (k j : ℕ) (v : V) (m : Dict V) → find j (assign k v m) ≡ (if k == j then some v else find j m)
  unfolding find assign
  find-assign k j v [] = ground arith
  find-assign k j v ((i, w) ∷ m) = ground (arith, find-assign k j v m)

  pub find-emplace :
      (k j : ℕ) (v : V) (m : Dict V)
      → find k m ≡ none
      → find j (emplace k v m) ≡ (if k == j then some v else find j m)
  unfolding find emplace
  find-emplace k j v m h = ground arith

  -- What is found behind `emplace` was there before or is the new entry.
  pub find-emplace_inv :
      (k j : ℕ) (v w : V) (m : Dict V)
      → find j (emplace k v m) ≡ some w
      → (find j m ≡ some w) ⊎ (j ≡ k) × (w ≡ v)
  unfolding find emplace
  find-emplace_inv k j v w m e = ground arith

  -- The new key is found.
  pub find-emplace_self :
      (k : ℕ) (v : V) (m : Dict V)
      → (find k (emplace k v m) ≡ some v)
        ⊎ (w : V) × (find k m ≡ some w) × (find k (emplace k v m) ≡ some w)
  unfolding find emplace
  find-emplace_self k v m = elim (Option-cases (find k m)) [
    | inl e ↦ inl (ground arith)
    | inr (w, e) ↦ inr (w, e, ground arith)
  ]

  pub find_of_erased :
      (k j : ℕ) (v : V) (m : Dict V) → find j (erase k m) ≡ some v → (find j m ≡ some v) × (j ≢ k)
  find_of_erased k j v m e = ground (arith, find-erase k j m)
