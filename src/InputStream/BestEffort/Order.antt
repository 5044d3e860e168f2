-- ===== src/InputStream/BestEffort/Order.antt =====
-- The order in which a best-effort input stream takes messages.
use mathlib.Core.List.{append-nil, append_assoc}
use micro_xrce_dds_agent.Common.{
  ℕ, suc, ◌≤◌, ◌≡◌, sym, ◌∙◌, true, false, List, [], ◌∷◌, ◌++◌, map, inl, inr, Bool-cases, length,
  length-append, arith, if◌then◌else◌,
}
use micro_xrce_dds_agent.SeqNum
use micro_xrce_dds_agent.InputStream.BestEffort.{BestEffortInputStream, push_message}

module _ {M : Type 0} (depth : ℕ) where
  -- Messages pushed one after the other, with those that were taken.
  pub push_all : List (ℕ × M) → BestEffortInputStream M → List (ℕ × M) × BestEffortInputStream M
  push_all [] s = ([], s)
  push_all ((k, m) ∷ ms) s =
      let (done, s') = push_message depth k m s in
      let (taken, s'') = push_all ms s' in (if done then (k, m) ∷ taken else taken, s'')

  -- Each number is ahead of the one before it, the first of `last`.
  abbrev pub Ascending : ℕ → List (ℕ × M) → Type 0
  Ascending last [] = Unit
  Ascending last ((k, m) ∷ ms) = (SeqNum.lt last k ≡ true) × Ascending k ms

  push_taken :
      (k : ℕ) (m : M) (s : BestEffortInputStream M)
      → (push_message depth k m s).0 ≡ true
      → (push_message depth k m s).1
        ≡ record s { messages = s.messages ++ (m ∷ []); last_received = k }
  unfolding push_message
  push_taken k m s e = ground arith

  push_refused :
      (k : ℕ) (m : M) (s : BestEffortInputStream M)
      → (push_message depth k m s).0 ≡ false
      → (push_message depth k m s).1 ≡ s
  unfolding push_message
  push_refused k m s e = ground arith

  push_needs :
      (k : ℕ) (m : M) (s : BestEffortInputStream M)
      → (push_message depth k m s).0 ≡ true
      → (SeqNum.lt s.last_received k ≡ true) × (suc (length s.messages) ≤ depth)
  unfolding push_message SeqNum.gt
  push_needs k m s e = ground arith

  -- Of any messages pushed, those taken have ascending sequence numbers from the last one received on, they are queued in that order behind what was there, and the queue stays within its depth.
  pub push_all-Ascending :
      (ms : List (ℕ × M)) (s : BestEffortInputStream M)
      → length s.messages ≤ depth
      → let (taken, s') = push_all ms s in
        Ascending s.last_received taken
        × (s'.messages ≡ s.messages ++ map (λ p. p.1) taken)
        × (length s'.messages ≤ depth)
  unfolding push_all
  push_all-Ascending [] s room = (tt, sym (append-nil s.messages), room)
  push_all-Ascending ((k, m) ∷ ms) s room = elim (Bool-cases (push_message depth k m s).0) [
    | inl done ↦
        let (ahead, fits) = push_needs k m s done in
        let s' : BestEffortInputStream M = record s {
          messages = s.messages ++ (m ∷ []);
          last_received = k;
        } in
        let (asc, queued, short) =
          push_all-Ascending ms s' (omega (arith, length-append s.messages (m ∷ []))) in
        rw (done, push_taken k m s done)
          ((ahead, asc), queued ∙ append_assoc s.messages (m ∷ []) _, short)
    | inr refused ↦ rw (refused, push_refused k m s refused) (push_all-Ascending ms s room)
  ]
