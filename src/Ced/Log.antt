-- ===== src/Ced/Log.antt =====
-- The sixteen samples of a topic against all that was ever written to it
-- (src/cpp/middleware/ced/CedEntities.cpp).
use micro_xrce_dds_agent.Common.{
  ℕ, min, zero, suc, ◌+◌, ◌-◌, ◌%◌, ◌≤◌, ◌≡◌, ◌≢◌, refl, ap, subst, ◌∙◌, true, false, List, [], ◌∷◌,
  Option, none, some, ◌==◌, if◌then◌else◌, length, drop, Bool-cases, inl, inr, arith,
}
use micro_xrce_dds_agent.SeqNum.{increment, sub_int, le, gt, lt, sub}
use micro_xrce_dds_agent.Ced.GlobalTopic.{
  Sample, Access, GlobalTopic, check_access, get_data, unless_done, get_data_loop, fix_last_read,
}

-- The sequence number of a sample that comes behind `n` others is that of `n + 1`.
abbrev pub seq : ℕ → ℕ
seq n = (n + 65535) % 65536

increment-seq : (n : ℕ) → increment (seq n) ≡ seq (suc n)
unfolding increment
increment-seq n = ground arith

index_of : (n : ℕ) → seq (suc n) % 16 ≡ n % 16
index_of n = omega arith

-- The topic has the samples, which are those behind `k` others, at their places.
unfoldable pub Shows : GlobalTopic → List Sample → ℕ → Type 0
Shows t [] k = t.last_write ≡ seq k
Shows t (x ∷ xs) k = (t.history (k % 16) ≡ x) × Shows t xs (suc k)

-- The topic is what is left when all the samples of the log were written.
abbrev pub Holds : List Sample → GlobalTopic → Type 0
Holds log t = Shows t (drop (length log - 16) log) (length log - 16)

pub last_write_of :
    (t : GlobalTopic) (xs : List Sample) (k : ℕ) → Shows t xs k → t.last_write ≡ seq (k + length xs)
unfolding Shows
last_write_of t [] k shows = shows ∙ ap seq (omega arith)
last_write_of t (x ∷ xs) k (at, rest) = last_write_of t xs (suc k) rest ∙ ap seq (omega arith)

pub Shows-drop :
    (t : GlobalTopic) (j : ℕ) (xs : List Sample) (k : ℕ)
    → Shows t xs k
    → j ≤ length xs
    → Shows t (drop j xs) (k + j)
unfolding Shows
Shows-drop t zero xs k shows h = subst (λ n. Shows t xs n) (omega arith) shows
Shows-drop t (suc j) [] k shows h = absurd (omega arith)
Shows-drop t (suc j) (x ∷ xs) k (at, rest) h =
    subst (λ n. Shows t (drop j xs) n) (omega arith) (Shows-drop t j xs (suc k) rest (omega arith))

-- What a reader should get of the samples behind `p` others: the data of the first one that it
-- may read, and how many samples are behind it then.
unfoldable pub seek : Access → List Sample → ℕ → Option (List ℕ) × ℕ
seek a [] p = (none, p)
seek a ((src, octets) ∷ xs) p =
    if check_access a src then (some octets, suc p) else seek a xs (suc p)

get_data_lem :
    (a : Access) (t : GlobalTopic) (x : Sample) (k : ℕ)
    → t.history (k % 16) ≡ x
    → get_data a t (seq k) ≡ (if check_access a x.0 then some x.1 else none, seq (suc k))
unfolding get_data
get_data_lem a t x k at = rw (increment-seq k, index_of k, at)

-- A result with the position as `last_read`.
abbrev pub counted : Option (List ℕ) × ℕ → Option (List ℕ) × ℕ
counted (rv, p) = (rv, seq p)

-- With as many rounds as there are samples, the loop finds what it should.
pub loop_lem :
    (fuel : ℕ) (a : Access) (t : GlobalTopic) (xs : List Sample) (k : ℕ)
    → length xs ≤ fuel
    → length xs ≤ 16
    → Shows t xs k
    → unless_done t.last_write (get_data_loop fuel a t) (none, seq k) ≡ counted (seek a xs k)
unfolding get_data_loop Shows seek
loop_lem fuel a t [] k enough few end =
    let last : (seq k == t.last_write) ≡ true = ground arith in rw (last, unless_done) refl
loop_lem zero a t (x ∷ xs) k enough few shows = absurd (omega arith)
loop_lem (suc fuel) a t (x ∷ xs) k enough few (at, rest) =
    let end = last_write_of t xs (suc k) rest in
    let last : (seq k == t.last_write) ≡ false = ground arith in
    rw (last, unless_done)
      (ap (unless_done t.last_write (get_data_loop fuel a t)) (get_data_lem a t x k at)
        ∙ elim (Bool-cases (check_access a x.0)) [
          | inl may ↦ rw may refl
          | inr not_this ↦
              rw not_this (loop_lem fuel a t xs (suc k) (omega arith) (omega arith) rest)
        ])

-- Where a reader behind `p` of `n` samples goes on: there, or at the oldest sample that is left. The
-- sequence numbers do not tell how often they went round in between.
abbrev pub resumed : ℕ → ℕ → ℕ
resumed n p = n - min 16 ((n - p) % 65536)

pub fix_last_read_lem :
    (t : GlobalTopic) (n p : ℕ)
    → t.last_write ≡ seq n
    → p ≤ n
    → (n - p) % 65536 ≢ 0
    → fix_last_read t (seq p) ≡ seq (resumed n p)
unfolding fix_last_read sub_int sub le gt lt
fix_last_read_lem t n p at before gap = rw at (ground arith)
