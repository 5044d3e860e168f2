-- ===== src/Scheduler/Order.antt =====
-- The order in which the scheduler hands elements out, and the bounds of its queues.
use micro_xrce_dds_agent.Common.{
  ℕ, zero, suc, ◌≤◌, ◌<◌, ◌≡◌, ◌≢◌, refl, ap, ◌∙◌, Bool, true, false, List, [], ◌∷◌, ◌++◌, Option,
  none, some, ◌⊎◌, inl, inr, length, length-append, is_empty, leb, ◌==◌, Bool-cases, ==_iff,
  ==_refl, if◌then◌else◌, drop, arith,
}
use micro_xrce_dds_agent.Common.Dict.{find, find_or, assign, find-assign}
use micro_xrce_dds_agent.Scheduler.{
  PacketScheduler, waiting, stopped, popped, priorities, deque_of, push, available_priority, pop,
  pop_from, pop_available,
}

find_or-assign {ℓ} :
    {V : Type ℓ} (i j : ℕ) (d v : V) (m : List (ℕ × V))
    → find_or j d (assign i v m) ≡ (if i == j then v else find_or j d m)
unfolding find_or
find_or-assign {V} i j d v m = ap found (find-assign i j v m) ∙ either (i == j)
  where
    found : Option V → V
    found o = elim o [ none ↦ d | some w ↦ w ]

    either :
        (b : Bool) → found (if b then some v else find j m) ≡ (if b then v else found (find j m))
    either true = refl
    either false = refl

module _ {T : Type 0} where
  nothing : (xs : List T) → is_empty xs ≡ true → xs ≡ []
  nothing [] e = refl
  nothing (x ∷ xs) e = cc

  something : (xs : List T) → is_empty xs ≡ false → (x : T) × (rest : List T) × (xs ≡ x ∷ rest)
  something [] e = cc
  something (x ∷ xs) e = (x, xs, refl)

  up :
      (n : ℕ) (s : PacketScheduler T)
      → is_empty (deque_of T n s) ≡ true
      → (q : ℕ) → q < suc n
      → (q < n → deque_of T q s ≡ [])
      → deque_of T q s ≡ []
  up n s gone q below lower = elim (Bool-cases (q == n)) [
    | inl e ↦ let same : q ≡ n = (==_iff q n).0 e in rw same (nothing (deque_of T n s) gone)
    | inr e ↦ lower (ground arith)
  ]

  -- What the search finds is the highest priority whose deque is not empty.
  available_priority-highest :
      (n : ℕ) (s : PacketScheduler T)
      → (available_priority T n s ≡ none) × ((q : ℕ) → q < n → deque_of T q s ≡ [])
        ⊎ (p : ℕ) × (available_priority T n s ≡ some p)
          × (is_empty (deque_of T p s) ≡ false)
          × ((q : ℕ) → p < q → q < n → deque_of T q s ≡ [])
  unfolding available_priority
  available_priority-highest zero s = inl (refl, λ q lt. absurd (omega arith))
  available_priority-highest (suc n) s = elim (Bool-cases (is_empty (deque_of T n s))) [
    | inr filled ↦ inr (n, rw filled refl, filled, λ q above below. absurd (omega arith))
    | inl gone ↦ elim (available_priority-highest n s) [
      | inl (found, lower) ↦ inl (rw gone found, λ q below. up n s gone q below (lower q))
      | inr (p, found, filled, higher) ↦
          inr (p, rw gone found, filled, λ q above below. up n s gone q below (higher q above))
    ]
  ]

  -- While the scheduler runs, `pop` waits only if the queues of all priorities are empty; otherwise it hands out the first element of the highest priority whose queue is not empty, and takes just that one from the queue.
  pub pop_lem :
      (s : PacketScheduler T)
      → s.running_cond ≡ true
      → (pop T s ≡ waiting) × ((q : ℕ) → q < priorities → deque_of T q s ≡ [])
        ⊎ (p : ℕ) × (x : T) × (rest : List T) × (deque_of T p s ≡ x ∷ rest)
          × ((q : ℕ) → p < q → q < priorities → deque_of T q s ≡ [])
          × (pop T s ≡ popped x (record s { deque = assign p rest s.deque }))
  unfolding pop
  pop_lem s running = elim (available_priority-highest priorities s) [
    | inl (found, lower) ↦ inl (here ∙ ap (pop_available T s) found, lower)
    | inr (p, found, filled, higher) ↦
        let (x, rest, e) = something (deque_of T p s) filled in
        inr (p, x, rest, e, higher, here ∙ ap (pop_available T s) found ∙ ap (pop_from T s p) e)
  ]
    where
      here : pop T s ≡ pop_available T s (available_priority T priorities s)
      here =
          ap (λ b. if b then pop_available T s (available_priority T priorities s) else stopped)
            running

  abbrev with_queue : ℕ → List T → PacketScheduler T → PacketScheduler T
  with_queue p queue s = record s {
    sizes = assign p (find_or p 0 s.sizes) s.sizes;
    deque = assign p queue s.deque;
  }

  with_queue_lem :
      (p : ℕ) (queue : List T) (s : PacketScheduler T)
      → (deque_of T p (with_queue p queue s) ≡ queue)
        × ((q : ℕ) → p ≢ q → deque_of T q (with_queue p queue s) ≡ deque_of T q s)
  with_queue_lem p queue s = (
    find_or-assign p p [] queue s.deque ∙ ap (λ b. if b then queue else deque_of T p s) (==_refl p),
    λ q other.
        let e : (p == q) ≡ false = ground arith in
        find_or-assign p q [] queue s.deque ∙ ap (λ b. if b then queue else deque_of T q s) e,
  )

  push_full :
      (element y : T) (ys : List T) (p : ℕ) (s : PacketScheduler T)
      → leb (find_or p 0 s.sizes) (length (deque_of T p s)) ≡ true
      → deque_of T p s ≡ y ∷ ys
      → push T element p s ≡ some (with_queue p (ys ++ (element ∷ [])) s)
  unfolding push
  push_full element y ys p s full e = rw (full, e) refl

  push_room :
      (element : T) (p : ℕ) (s : PacketScheduler T)
      → leb (find_or p 0 s.sizes) (length (deque_of T p s)) ≡ false
      → push T element p s ≡ some (with_queue p (deque_of T p s ++ (element ∷ [])) s)
  unfolding push
  push_room element p s room = rw room refl

  filled_queue : (xs : List T) → 0 < length xs → is_empty xs ≡ false
  filled_queue [] e = absurd (omega arith)
  filled_queue (x ∷ xs) e = refl

  -- With a size above 0 for its priority, an element is put at the end of the queue of the priority, which loses its first element if it is full and so stays within the size, and the other queues do not change.
  pub push_lem :
      (element : T) (p : ℕ) (s : PacketScheduler T)
      → 0 < find_or p 0 s.sizes
      → length (deque_of T p s) ≤ find_or p 0 s.sizes
      → (s' : PacketScheduler T) × (push T element p s ≡ some s')
        × (deque_of T p s'
            ≡ drop
                (if leb (find_or p 0 s.sizes) (length (deque_of T p s)) then 1 else 0)
                (deque_of T p s)
              ++ (element ∷ []))
        × (length (deque_of T p s') ≤ find_or p 0 s.sizes)
        × ((q : ℕ) → p ≢ q → deque_of T q s' ≡ deque_of T q s)
  push_lem element p s some_room bound =
      let queue = deque_of T p s in
      elim (Bool-cases (leb (find_or p 0 s.sizes) (length queue))) [
        | inl full ↦
            let (y, ys, e) = something queue (filled_queue queue (ground arith)) in
            let (same, others) = with_queue_lem p (ys ++ (element ∷ [])) s in
            (
              with_queue p (ys ++ (element ∷ [])) s,
              push_full element y ys p s full e,
              same ∙ rw (full, e) refl,
              rw same (omega (arith, length-append ys (element ∷ []), ap length e, bound)),
              others,
            )
        | inr room ↦
            let (same, others) = with_queue_lem p (queue ++ (element ∷ [])) s in
            (
              with_queue p (queue ++ (element ∷ [])) s,
              push_room element p s room,
              same ∙ rw room refl,
              rw same (ground (arith, length-append queue (element ∷ []))),
              others,
            )
      ]
