-- ===== src/InputStream/BestEffort.antt =====
-- `BestEffortInputStream`: a bounded queue that takes only messages ahead of the last one taken.
pub mod Order
use micro_xrce_dds_agent.Common.{
  ℕ, ◌-◌, ◌^◌, Bool, true, false, ◌&&◌, List, [], ◌∷◌, ◌++◌, Option, none, some, length, ltb,
  if◌then◌else◌,
}
use micro_xrce_dds_agent.SeqNum

pub record BestEffortInputStream (M : Type 0) : Type 0 where
  pub messages : List M
  pub last_received : ℕ

module _ {M : Type 0} where
  abbrev pub init : BestEffortInputStream M
  init = record { messages = []; last_received = 2 ^ 16 - 1 }

  unfoldable pub push_message : ℕ → ℕ → M → BestEffortInputStream M → Bool × BestEffortInputStream M
  push_message depth seq_num message s =
      if SeqNum.gt seq_num s.last_received && ltb (length s.messages) depth
      then (true, record s { messages = s.messages ++ (message ∷ []); last_received = seq_num })
      else (false, s)

  unfoldable pub emplace_message :
      {A : Type 0} → ℕ → ℕ → (A → M) → A → BestEffortInputStream M → Bool × BestEffortInputStream M
  emplace_message depth seq_num make args s =
      if SeqNum.gt seq_num s.last_received && ltb (length s.messages) depth
      then (true, record s { messages = s.messages ++ (make args ∷ []); last_received = seq_num })
      else (false, s)

  unfoldable pub pop_message : BestEffortInputStream M → Option M × BestEffortInputStream M
  pop_message s = elim s.messages [ [] ↦ (none, s) | m ∷ ms ↦ (some m, record s { messages = ms }) ]

  unfoldable pub reset : BestEffortInputStream M → BestEffortInputStream M
  reset s = record s { messages = []; last_received = 2 ^ 16 - 1 }
