-- ===== src/InputStream/None.antt =====
-- `NoneInputStream`: a bounded queue. `depth` is BEST_EFFORT_STREAM_DEPTH of the build.
use micro_xrce_dds_agent.Common.{
  ℕ, Bool, true, false, List, [], ◌∷◌, ◌++◌, Option, none, some, length, ltb, if◌then◌else◌,
}

pub record NoneInputStream (M : Type 0) : Type 0 where
  pub messages : List M

module _ {M : Type 0} where
  unfoldable pub push_message : ℕ → M → NoneInputStream M → Bool × NoneInputStream M
  push_message depth message s =
      if ltb (length s.messages) depth
      then (true, record s { messages = s.messages ++ (message ∷ []) })
      else (false, s)

  -- The message is built from the arguments only where there is room.
  unfoldable pub emplace_message :
      {A : Type 0} → ℕ → (A → M) → A → NoneInputStream M → Bool × NoneInputStream M
  emplace_message depth make args s =
      if ltb (length s.messages) depth
      then (true, record s { messages = s.messages ++ (make args ∷ []) })
      else (false, s)

  unfoldable pub pop_message : NoneInputStream M → Option M × NoneInputStream M
  pop_message s = elim s.messages [ [] ↦ (none, s) | m ∷ ms ↦ (some m, record s { messages = ms }) ]

  unfoldable pub reset : NoneInputStream M → NoneInputStream M
  reset s = record s { messages = [] }
