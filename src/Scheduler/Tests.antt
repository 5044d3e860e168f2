-- ===== src/Scheduler/Tests.antt =====
-- A scheduler with room for one element of priority 0, as `init` leaves it.
use micro_xrce_dds_agent.Common.{
  ℕ, ◌≤◌, ◌<◌, ◌≡◌, ◌≢◌, refl, [], ◌∷◌, ◌++◌, some, ◌⊎◌, List, length, drop, true, arith,
}
use micro_xrce_dds_agent.Common.Dict.{assign, find_or, find}
use micro_xrce_dds_agent.Scheduler.{
  PacketScheduler, waiting, popped, deque_of, push, pop, priorities,
}
use micro_xrce_dds_agent.Scheduler.Order.{pop_lem, push_lem}

abbrev scheduler : PacketScheduler ℕ
scheduler = record {
  deque = (0, 7 ∷ []) ∷ [];
  sizes = (0, 1) ∷ [];
  running_cond = true;
  max_size = 1;
}

pop_lem_example :
    (pop ℕ scheduler ≡ waiting) × ((q : ℕ) → q < priorities → deque_of ℕ q scheduler ≡ [])
    ⊎ (p : ℕ) × (x : ℕ) × (rest : List ℕ) × (deque_of ℕ p scheduler ≡ x ∷ rest)
      × ((q : ℕ) → p < q → q < priorities → deque_of ℕ q scheduler ≡ [])
      × (pop ℕ scheduler ≡ popped x (record scheduler { deque = assign p rest scheduler.deque }))
pop_lem_example = pop_lem scheduler refl

push_lem_example :
    (s' : PacketScheduler ℕ) × (push ℕ 8 0 scheduler ≡ some s')
    × (deque_of ℕ 0 s' ≡ drop 1 (7 ∷ []) ++ (8 ∷ []))
    × (length (deque_of ℕ 0 s') ≤ 1)
    × ((q : ℕ) → 0 ≢ q → deque_of ℕ q s' ≡ deque_of ℕ q scheduler)
unfolding find_or find
push_lem_example = push_lem 8 0 scheduler (omega arith) (omega arith)
