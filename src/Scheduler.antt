-- ===== src/Scheduler.antt =====
-- include/uxr/agent/scheduler/PacketScheduler.hpp: bounded queues by priority. Every operation
-- holds the mutex.
pub mod Order
pub mod Tests
use micro_xrce_dds_agent.Common.{
  ℕ, zero, suc, Bool, true, false, not, ◌&&◌, List, [], ◌∷◌, ◌++◌, Option, none, some, length,
  is_empty, drop, leb, if◌then◌else◌,
}
use micro_xrce_dds_agent.Common.Dict.{Dict, find_or, assign}

-- Priorities are octets.
abbrev pub priorities : ℕ
priorities = 256

module _ (T : Type 0) where
  pub record PacketScheduler : Type 0 where
    pub deque : Dict (List T)
    pub sizes : Dict ℕ
    pub running_cond : Bool
    pub max_size : ℕ

  -- The constructor.
  unfoldable pub create : ℕ → PacketScheduler
  create max_size = record { deque = []; sizes = []; running_cond = false; max_size = max_size }

  -- `deque_[priority]`; a missing entry is an empty deque.
  abbrev pub deque_of : ℕ → PacketScheduler → List T
  deque_of priority s = find_or priority [] s.deque

  unfoldable pub set_priority_size : ℕ → ℕ → PacketScheduler → PacketScheduler
  set_priority_size priority size s = record s { sizes = assign priority size s.sizes }

  unfoldable pub init : PacketScheduler → PacketScheduler
  init s = record s { sizes = assign 0 s.max_size s.sizes; running_cond = true }

  unfoldable pub deinit : PacketScheduler → PacketScheduler
  deinit s = record s { running_cond = false }

  -- `none` is `pop_front` on an empty deque, which is undefined.
  unfoldable pub push : T → ℕ → PacketScheduler → Option PacketScheduler
  push element priority s =
      let size = find_or priority 0 s.sizes in
      let queue = deque_of priority s in
      let sized = record s { sizes = assign priority size s.sizes } in
      if leb size (length queue)
      then (elim queue [
        | [] ↦ none
        | x ∷ xs ↦ some (record sized { deque = assign priority (xs ++ (element ∷ [])) s.deque })
      ])
      else some (record sized { deque = assign priority (queue ++ (element ∷ [])) s.deque })

  unfoldable pub push_front : T → ℕ → PacketScheduler → PacketScheduler
  push_front element priority s = record s {
    deque = assign priority (element ∷ deque_of priority s) s.deque;
  }

  -- The first deque that is not empty, from the highest of `n` priorities down.
  unfoldable pub available_priority : ℕ → PacketScheduler → Option ℕ
  available_priority zero s = none
  available_priority (suc n) s =
      let rest = available_priority n s in if is_empty (deque_of n s) then rest else some n

  -- What the wait of `pop` sees: it goes on while all is empty and the scheduler runs.
  pub data Popped : Type 0 where
    waiting stopped : Popped
    popped : T → PacketScheduler → Popped

  abbrev pub pop_from : PacketScheduler → ℕ → List T → Popped
  pop_from s priority [] = waiting
  pop_from s priority (x ∷ xs) = popped x (record s { deque = assign priority xs s.deque })

  abbrev pub pop_available : PacketScheduler → Option ℕ → Popped
  pop_available s none = waiting
  pop_available s (some priority) = pop_from s priority (deque_of priority s)

  -- `empty()` is that no priority is available.
  unfoldable pub pop : PacketScheduler → Popped
  unfolding available_priority
  pop s =
      let result = pop_available s (available_priority priorities s) in
      if s.running_cond then result else stopped
