-- ===== src/Ced/Names.antt =====
-- The topic names in references (the functions `remove_suffix_form_…` of
-- src/cpp/middleware/ced/CedMiddleware.cpp). Texts are lists of characters.
use Prim.Native.Nat.{ℕ, suc}
use micro_xrce_dds_agent.Common.{
  ◌≡◌, refl, ap, ◌∙◌, Bool, true, false, ◌&&◌, List, [], ◌∷◌, ◌++◌, Option, none, some, ◌==◌,
  if◌then◌else◌, take, take-append, length, Bool-cases, inl, inr, arith,
}

abbrev starts_with : List ℕ → List ℕ → Bool
starts_with [] xs = true
starts_with (c ∷ cs) [] = false
starts_with (c ∷ cs) (x ∷ xs) = (c == x) && starts_with cs xs

abbrev next_index : Option ℕ → Option ℕ
next_index none = none
next_index (some i) = some (suc i)

-- `find`: the index of the first occurrence.
unfoldable pub find_text : List ℕ → List ℕ → Option ℕ
find_text pattern [] = none
find_text pattern (x ∷ xs) =
    if starts_with pattern (x ∷ xs) then some 0 else next_index (find_text pattern xs)

-- `substr(0, i)` with what `find` returns, where `npos` stands for all of the text.
abbrev substr_to : Option ℕ → List ℕ → List ℕ
substr_to none xs = xs
substr_to (some i) xs = take i xs

-- "__t", "__dw" and "__dr".
abbrev pub topic_suffix : List ℕ
topic_suffix = b'_' ∷ b'_' ∷ b't' ∷ []

abbrev pub datawriter_suffix : List ℕ
datawriter_suffix = b'_' ∷ b'_' ∷ b'd' ∷ b'w' ∷ []

abbrev pub datareader_suffix : List ℕ
datareader_suffix = b'_' ∷ b'_' ∷ b'd' ∷ b'r' ∷ []

unfoldable pub remove_suffix_form_topic_ref : List ℕ → List ℕ
remove_suffix_form_topic_ref ref = substr_to (find_text topic_suffix ref) ref

unfoldable pub remove_suffix_form_datawriter_ref : List ℕ → List ℕ
remove_suffix_form_datawriter_ref ref = substr_to (find_text datawriter_suffix ref) ref

unfoldable pub remove_suffix_form_datareader_ref : List ℕ → List ℕ
remove_suffix_form_datareader_ref ref = substr_to (find_text datareader_suffix ref) ref

-- No suffix begins in the name before it, unless one stands in the name.
abbrev Unbordered : List ℕ → Type 0
Unbordered pattern =
    (x : ℕ) (xs rest : List ℕ)
    → starts_with pattern (x ∷ xs) ≡ false
    → starts_with pattern (x ∷ (xs ++ (pattern ++ rest))) ≡ false

topic_suffix-Unbordered : Unbordered topic_suffix
topic_suffix-Unbordered x [] rest h = ground arith
topic_suffix-Unbordered x (y ∷ []) rest h = ground arith
topic_suffix-Unbordered x (y ∷ z ∷ zs) rest h = ground arith

datawriter_suffix-Unbordered : Unbordered datawriter_suffix
datawriter_suffix-Unbordered x [] rest h = ground arith
datawriter_suffix-Unbordered x (y ∷ []) rest h = ground arith
datawriter_suffix-Unbordered x (y ∷ z ∷ []) rest h = ground arith
datawriter_suffix-Unbordered x (y ∷ z ∷ v ∷ vs) rest h = ground arith

datareader_suffix-Unbordered : Unbordered datareader_suffix
datareader_suffix-Unbordered x [] rest h = ground arith
datareader_suffix-Unbordered x (y ∷ []) rest h = ground arith
datareader_suffix-Unbordered x (y ∷ z ∷ []) rest h = ground arith
datareader_suffix-Unbordered x (y ∷ z ∷ v ∷ vs) rest h = ground arith

next_index-none : (o : Option ℕ) → next_index o ≡ none → o ≡ none
next_index-none none h = refl
next_index-none (some i) h = cc

-- Behind a name without the pattern, the pattern is found at the name's end.
find_text-append :
    (pattern name rest : List ℕ)
    → Unbordered pattern
    → starts_with pattern (pattern ++ rest) ≡ true
    → find_text pattern (pattern ++ rest) ≡ some 0
    → find_text pattern name ≡ none
    → find_text pattern (name ++ (pattern ++ rest)) ≡ some (length name)
unfolding find_text
find_text-append pattern [] rest alone here first absent = first
find_text-append pattern (x ∷ xs) rest alone here first absent =
    elim (Bool-cases (starts_with pattern (x ∷ xs))) [
      | inl yes_here ↦ absurd (cc)
      | inr not_here ↦
          let later : find_text pattern xs ≡ none =
            ground (arith, next_index-none (find_text pattern xs)) in
          rw (alone x xs rest not_here)
            (ap next_index (find_text-append pattern xs rest alone here first later))
    ]

-- The references to a topic, to a data writer and to a data reader, made of a topic's name in
-- which no suffix stands, a suffix and anything behind it, all lead to the topic's name, and a
-- name by itself does too.
pub remove_suffix-append :
    (name rest : List ℕ)
    → find_text topic_suffix name ≡ none
    → find_text datawriter_suffix name ≡ none
    → find_text datareader_suffix name ≡ none
    → (remove_suffix_form_topic_ref (name ++ (topic_suffix ++ rest)) ≡ name)
      × (remove_suffix_form_datawriter_ref (name ++ (datawriter_suffix ++ rest)) ≡ name)
      × (remove_suffix_form_datareader_ref (name ++ (datareader_suffix ++ rest)) ≡ name)
      × (remove_suffix_form_topic_ref name ≡ name)
      × (remove_suffix_form_datawriter_ref name ≡ name)
      × (remove_suffix_form_datareader_ref name ≡ name)
unfolding remove_suffix_form_topic_ref remove_suffix_form_datawriter_ref
    remove_suffix_form_datareader_ref find_text
remove_suffix-append name rest no_t no_dw no_dr = (
  cut _ (topic_suffix ++ rest)
      (find_text-append topic_suffix name rest topic_suffix-Unbordered refl refl no_t),
  cut _ (datawriter_suffix ++ rest)
      (find_text-append datawriter_suffix name rest datawriter_suffix-Unbordered refl refl no_dw),
  cut _ (datareader_suffix ++ rest)
      (find_text-append datareader_suffix name rest datareader_suffix-Unbordered refl refl no_dr),
  ap (λ o. substr_to o name) no_t,
  ap (λ o. substr_to o name) no_dw,
  ap (λ o. substr_to o name) no_dr,
)
  where
    cut :
        (o : Option ℕ) (tail : List ℕ) → o ≡ some (length name) → substr_to o (name ++ tail) ≡ name
    cut o tail found = ap (λ i. substr_to i (name ++ tail)) found ∙ take-append name tail
