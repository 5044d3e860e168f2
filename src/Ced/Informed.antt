-- ===== src/Ced/Informed.antt =====
-- Who is told of the topics (`CedTopicManager` in src/cpp/middleware/ced/CedEntities.cpp).
use micro_xrce_dds_agent.Common.{
  ℕ, ◌≡◌, refl, ap, subst, Bool, true, false, List, [], ◌∷◌, ◌++◌, Option, none, some,
  if◌then◌else◌, Bool-cases, ◌⊎◌, inl, inr, ◌==◌,
}
use micro_xrce_dds_agent.Common.Int.{ℤ}
use micro_xrce_dds_agent.Common.Map.{
  nat_eq, octets_eq, Map, find, erase, assign, find-assign, find-erase,
}
use micro_xrce_dds_agent.Ced.Manager.{
  Name, int_eq, Call, new_topic, names_calls, topic_calls, call_all, names_of,
}

-- A call was made.
abbrev pub WasMade : Call → List Call → Type 0
WasMade c [] = ⊥
WasMade c (x ∷ xs) = (x ≡ c) ⊎ WasMade c xs

pub WasMade-append :
    (c : Call) (xs ys : List Call) → WasMade c xs ⊎ WasMade c ys → WasMade c (xs ++ ys)
WasMade-append c [] ys (inl made) = absurd made
WasMade-append c [] ys (inr made) = made
WasMade-append c (x ∷ xs) ys (inl (inl same)) = inl same
WasMade-append c (x ∷ xs) ys (inl (inr made)) = inr (WasMade-append c xs ys (inl made))
WasMade-append c (x ∷ xs) ys (inr made) = inr (WasMade-append c xs ys (inr made))

WasMade-names_calls :
    (c : Call) (cb : ℕ) (domain : ℤ) (names : Map Name ℕ) (others : List Call)
    → WasMade c others
    → WasMade c (names_calls cb domain names others)
unfolding names_calls
WasMade-names_calls c cb domain [] others made = made
WasMade-names_calls c cb domain ((name, w) ∷ rest) others made =
    inr (WasMade-names_calls c cb domain rest others made)

found-names_calls :
    (cb : ℕ) (domain : ℤ) (name : Name) (w : ℕ) (names : Map Name ℕ) (others : List Call)
    → find name names ≡ some w
    → WasMade (new_topic cb domain name) (names_calls cb domain names others)
unfolding names_calls find
found-names_calls cb domain name w [] others found = cc
found-names_calls cb domain name w ((other, v) ∷ rest) others found =
    elim (Bool-cases (octets_eq.beq other name)) [
      | inl same ↦ inl (ap (new_topic cb domain) ((octets_eq.beq_iff other name).0 same))
      | inr different ↦ inr (
          found-names_calls cb domain name w rest others
            (subst (λ b. (if b then some v else find name rest) ≡ some w) different found))
    ]

pub found-call_all :
    (call : ℕ → Call) (key cb : ℕ) (m : Map ℕ ℕ)
    → find key m ≡ some cb
    → WasMade (call cb) (call_all call m)
unfolding call_all find
found-call_all call key cb [] found = cc
found-call_all call key cb ((k, v) ∷ rest) found = elim (Bool-cases (k == key)) [
  | inl same ↦
      inl (ap call (cc (subst (λ b. (if b then some v else find key rest) ≡ some cb) same found)))
  | inr different ↦ inr (
      found-call_all call key cb rest
        (subst (λ b. (if b then some v else find key rest) ≡ some cb) different found))
]

-- A topic is registered in a domain.
abbrev pub IsRegistered : ℤ → Name → Map ℤ (Map Name ℕ) → Type 0
IsRegistered domain name topics = (w : ℕ) × (find name (names_of domain topics) ≡ some w)

pub found-topic_calls :
    (cb : ℕ) (domain : ℤ) (name : Name) (topics : Map ℤ (Map Name ℕ))
    → IsRegistered domain name topics
    → WasMade (new_topic cb domain name) (topic_calls cb topics)
unfolding topic_calls find
found-topic_calls cb domain name [] (w, found) = cc
found-topic_calls cb domain name ((other, names) ∷ rest) (w, found) =
    elim (Bool-cases (int_eq.beq other domain)) [
      | inl same ↦
          subst
            (λ d. WasMade (new_topic cb d name) (names_calls cb other names (topic_calls cb rest)))
            ((int_eq.beq_iff other domain).0 same)
            (found-names_calls cb other name w names (topic_calls cb rest) (at_head true same))
      | inr different ↦
          WasMade-names_calls _ cb other names (topic_calls cb rest)
            (found-topic_calls cb domain name rest (w, at_head false different))
    ]
  where
    at_head :
        (b : Bool)
        → int_eq.beq other domain ≡ b
        → find name (
            let o : Option (Map Name ℕ) = if b then some names else find domain rest in
            elim o [ none ↦ [] | some ns ↦ ns ])
          ≡ some w
    at_head b e =
        subst
          (λ c.
            find name (
              let o : Option (Map Name ℕ) = if c then some names else find domain rest in
              elim o [ none ↦ [] | some ns ↦ ns ])
            ≡ some w)
          e found

-- What is found in the names that are found, or not.
FoundIn : Option (Map Name ℕ) → Name → ℕ → Type 0
FoundIn o name w = find name (elim o as (λ x. Map Name ℕ) [ none ↦ [] | some ns ↦ ns ]) ≡ some w

-- What is registered in a domain that is assigned, or where a domain is erased.
pub IsRegistered-assign :
    (domain d : ℤ) (name : Name) (names : Map Name ℕ) (topics : Map ℤ (Map Name ℕ))
    → IsRegistered d name (assign domain names topics)
    → ((domain ≡ d) × ((w : ℕ) × (find name names ≡ some w))) ⊎ IsRegistered d name topics
unfolding FoundIn
IsRegistered-assign domain d name names topics (w, found) =
    by_test _ refl (subst (λ o. FoundIn o name w) (find-assign domain d names topics) found)
  where
    by_test :
        (b : Bool)
        → int_eq.beq domain d ≡ b
        → FoundIn (if int_eq.beq domain d then some names else find d topics) name w
        → ((domain ≡ d) × ((w : ℕ) × (find name names ≡ some w))) ⊎ IsRegistered d name topics
    by_test true same there = inl ((int_eq.beq_iff domain d).0 same, (w, rw same at there))
    by_test false other there = inr (w, rw other at there)

pub IsRegistered-erase :
    (domain d : ℤ) (name : Name) (topics : Map ℤ (Map Name ℕ))
    → IsRegistered d name (erase domain topics)
    → IsRegistered d name topics
unfolding FoundIn find
IsRegistered-erase domain d name topics (w, found) =
    by_test _ refl (subst (λ o. FoundIn o name w) (find-erase domain d topics) found)
  where
    by_test :
        (b : Bool)
        → int_eq.beq domain d ≡ b
        → FoundIn (if int_eq.beq domain d then none else find d topics) name w
        → IsRegistered d name topics
    by_test true same there = cc (rw same at there)
    by_test false other there = (w, rw other at there)
