-- ===== src/Ced/Delivery.antt =====
-- What a reader of a topic gets (src/cpp/middleware/ced/CedEntities.cpp), against the log of all
-- that was written.
use micro_xrce_dds_agent.Common.{
  ℕ, zero, suc, ◌+◌, ◌-◌, ◌%◌, ◌≤◌, ◌<◌, ◌≡◌, ◌≢◌, ◌⊎◌, refl, ap, sym, subst, ◌∙◌, false, List, [],
  ◌∷◌, ◌++◌, Option, none, some, ◌==◌, if◌then◌else◌, length, drop, Bool-cases, length-append,
  length-drop, drop-drop, inl, inr, arith,
}
use micro_xrce_dds_agent.SeqNum.{increment, add_int}
use micro_xrce_dds_agent.Ced.GlobalTopic.{
  Sample, Access, GlobalTopic, check_access, put, get_data_loop, unless_done, read_now,
}
use micro_xrce_dds_agent.Ced.Log.{
  seq, Shows, Holds, seek, counted, resumed, loop_lem, fix_last_read_lem, last_write_of, Shows-drop,
}

-- The sample that is put is the next one of the log, as long as there are less than sixteen.
put-Shows :
    (x : Sample) (t : GlobalTopic) (xs : List Sample) (k : ℕ)
    → length xs < 16
    → Shows t xs k
    → t.last_write ≡ seq (k + length xs)
    → Shows (put x t) (xs ++ (x ∷ [])) k
unfolding Shows put add_int increment
put-Shows x t [] k few end at = (ground arith, ground arith)
put-Shows x t (y ∷ ys) k few (here, rest) at =
    (ground arith, put-Shows x t ys (suc k) (omega arith) rest (at ∙ ap seq (omega arith)))

drop-append_short :
    {A : Type 0} (j : ℕ) (xs ys : List A) → j ≤ length xs → drop j (xs ++ ys) ≡ drop j xs ++ ys
drop-append_short zero xs ys h = refl
drop-append_short (suc j) [] ys h = absurd (omega arith)
drop-append_short (suc j) (x ∷ xs) ys h = drop-append_short j xs ys (omega arith)

-- The samples of the log from one of the last sixteen on are at their places.
Holds-drop :
    (log : List Sample) (t : GlobalTopic) (j : ℕ)
    → Holds log t
    → length log ≤ j + 16
    → j ≤ length log
    → Shows t (drop j log) j
Holds-drop log t j holds late early =
    let start = length log - 16 in
    let same : start + (j - start) ≡ j = omega arith in
    subst (λ i. Shows t (drop i log) i) same
      (subst (λ xs. Shows t xs (start + (j - start))) (drop-drop (j - start) start log)
        (Shows-drop t (j - start) (drop start log) start holds
          (omega (arith, length-drop {0} start log))))

-- A topic that has what is left of a log has what is left of the longer log when a sample is put.
pub put-Holds :
    (x : Sample) (log : List Sample) (t : GlobalTopic)
    → Holds log t
    → Holds (log ++ (x ∷ [])) (put x t)
put-Holds x log t holds =
    let j = length log + 1 - 16 in
    let longer : length (log ++ (x ∷ [])) ≡ length log + 1 =
      length-append log (x ∷ []) ∙ omega arith in
    let shows = Holds-drop log t j holds (omega arith) (omega arith) in
    let at : t.last_write ≡ seq (j + length (drop j log)) = last_write_of t (drop j log) j shows in
    subst (λ n. Shows (put x t) (drop (n - 16) (log ++ (x ∷ []))) (n - 16)) (sym longer)
      (subst (λ xs. Shows (put x t) xs j) (sym (drop-append_short j log (x ∷ []) (omega arith)))
        (put-Shows x t (drop j log) j (omega (arith, length-drop {0} j log)) shows at))

drop_all : {A : Type 0} (xs : List A) → drop (length xs) xs ≡ []
drop_all [] = refl
drop_all (x ∷ xs) = drop_all xs

goes_on :
    (last_write l : ℕ) (again : ℕ → Option (List ℕ) × ℕ)
    → (l == last_write) ≡ false
    → unless_done last_write again (none, l) ≡ again l
goes_on last_write l again more = rw (more, unless_done) refl

seek_end :
    (a : Access) (log : List Sample) (q : ℕ)
    → q ≡ length log
    → seek a (drop q log) q ≡ (none, length log)
unfolding seek
seek_end a log q end =
    ap (λ i. seek a (drop i log) i) end ∙ ap (λ xs. seek a xs (length log)) (drop_all log)

-- A read without a timeout gets the data of the first sample that the reader may read, among
-- those from the place on where it goes on, and then stands behind it; if there is none, it
-- stands at the end.
pub read_now_lem :
    (a : Access) (log : List Sample) (t : GlobalTopic) (p : ℕ)
    → Holds log t
    → p ≤ length log
    → read_now a t (seq p)
      ≡ counted (seek a (drop (resumed (length log) p) log) (resumed (length log) p))
unfolding read_now
read_now_lem a log t p holds behind =
    let n = length log in
    let q = resumed n p in
    let shows : Shows t (drop q log) q = Holds-drop log t q holds (omega arith) (omega arith) in
    let at : t.last_write ≡ seq n =
      last_write_of t _ (n - 16) holds ∙ ap seq (omega (arith, length-drop {0} (n - 16) log)) in
    elim (Bool-cases (seq p == t.last_write)) [
      | inl end ↦
          let same : seq p ≡ seq n = ground arith in
          let caught_up : q ≡ n = ground arith in
          rw end (ap (λ l. (none, l)) same ∙ sym (ap counted (seek_end a log q caught_up)))
      | inr more ↦
          let gap : (n - p) % 65536 ≢ 0 = ground arith in
          let left : (seq q == t.last_write) ≡ false = ground arith in
          rw more (
            ap (get_data_loop 16 a t) (fix_last_read_lem t n p at behind gap)
            ∙ (sym (goes_on t.last_write (seq q) (get_data_loop 16 a t) left)
                ∙ loop_lem 16 a t (drop q log) q (omega (arith, length-drop {0} q log))
                    (omega (arith, length-drop {0} q log)) shows))
    ]

-- The data of the samples that may be read, in order.
unfoldable pub permitted : Access → List Sample → List (List ℕ)
permitted a [] = []
permitted a ((src, octets) ∷ xs) =
    if check_access a src then octets ∷ permitted a xs else permitted a xs

-- The calls of a reader until there is nothing more.
abbrev then_more : (ℕ → List (List ℕ)) → Option (List ℕ) × ℕ → List (List ℕ)
then_more more (none, last_read) = []
then_more more (some octets, last_read) = octets ∷ more last_read

unfoldable pub received : ℕ → Access → GlobalTopic → ℕ → List (List ℕ)
received zero a t last_read = []
received (suc calls) a t last_read = then_more (received calls a t) (read_now a t last_read)

-- What `seek` finds, against what may be read.
seek-cases :
    (a : Access) (xs : List Sample) (q : ℕ)
    → ((seek a xs q ≡ (none, q + length xs)) × (permitted a xs ≡ []))
      ⊎ ((octets : List ℕ) × (j : ℕ) × (seek a xs q ≡ (some octets, q + j))
          × (0 < j)
          × (j ≤ length xs)
          × (permitted a xs ≡ octets ∷ permitted a (drop j xs)))
unfolding seek permitted
seek-cases a [] q = inl (ap (λ n. (none, n)) (omega arith), refl)
seek-cases a ((src, octets) ∷ xs) q = elim (Bool-cases (check_access a src)) [
  | inl may ↦
      rw may
        (inr (octets, 1, ap (λ n. (some octets, n)) (omega arith), omega arith, omega arith, refl))
  | inr not_this ↦ rw not_this (elim (seek-cases a xs (suc q)) [
    | inl (found, nothing) ↦ inl (found ∙ ap (λ n. (none, n)) (omega arith), nothing)
    | inr (o, j, found, some_way, within, rest) ↦
        inr (o, suc j, found ∙ ap (λ n. (some o, n)) (omega arith), omega arith, omega arith, rest)
  ])
]

-- Called until there is nothing more, a reader gets the data of all samples that it may read, in
-- the order in which they were written, each once, from the place on where it goes on.
pub received_lem :
    (calls : ℕ) (a : Access) (log : List Sample) (t : GlobalTopic) (p : ℕ)
    → Holds log t
    → p ≤ length log
    → length log - resumed (length log) p < calls
    → received calls a t (seq p) ≡ permitted a (drop (resumed (length log) p) log)
unfolding received
received_lem zero a log t p holds behind enough = absurd (omega arith)
received_lem (suc calls) a log t p holds behind enough =
    let n = length log in
    let q = resumed n p in
    let e = read_now_lem a log t p holds behind in
    elim (seek-cases a (drop q log) q) [
      | inl (found, nothing) ↦
          ap (then_more (received calls a t)) (e ∙ ap counted found) ∙ sym nothing
      | inr (o, j, found, some_way, within, rest) ↦
          let len = length-drop {0} q log in
          let same : resumed n (q + j) ≡ q + j = omega arith in
          let ih =
            received_lem calls a log t (q + j) holds (omega (arith, len))
              (omega (arith, len, same)) in
          ap (then_more (received calls a t)) (e ∙ ap counted found)
          ∙ (ap (λ xs. o ∷ xs)
                (ih
                  ∙ (ap (λ i. permitted a (drop i log)) same
                      ∙ ap (permitted a) (sym (drop-drop j q log))))
              ∙ sym rest)
    ]
