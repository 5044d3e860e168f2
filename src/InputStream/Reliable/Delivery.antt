-- ===== src/InputStream/Reliable/Delivery.antt =====
-- What a reliable input stream hands out. A run interleaves arrivals, also late and repeated
-- ones, and heartbeats with attempts to take the next message.
use micro_xrce_dds_agent.Common.{
  ℕ, zero, suc, ◌+◌, ◌^◌, ◌≤◌, ◌<◌, ◌≡◌, refl, sym, ap, subst, ap₂, ◌∙◌, List, [], ◌∷◌, ◌++◌, none,
  some, inl, inr, arith, length, length-append,
}
use micro_xrce_dds_agent.Common.Dict.{find, emplace, find-emplace_self}
use micro_xrce_dds_agent.Cdr.{Cdr}
use micro_xrce_dds_agent.Message.Input.{InputMessage}
use micro_xrce_dds_agent.InputStream.Reliable.{
  ReliableInputStream, init, push_message, pop_message, update_from_heartbeat,
}
use micro_xrce_dds_agent.InputStream.Reliable.Window.{number, before}
use micro_xrce_dds_agent.InputStream.Reliable.Window

nothing_found {ℓ} : {V : Type ℓ} (k : ℕ) {m : V} → find k [] ≡ some m → ⊥
unfolding find
nothing_found k e = cc

module _ (c : Cdr) (sent : ℕ → InputMessage c) (depth : ℕ) (lo : 0 < depth)
    (hi : depth < 2 ^ 15) where
  abbrev Inv : ℕ → ReliableInputStream c → Type 0
  Inv = Window.Inv c sent depth lo hi

  -- The runs of a stream, with the messages that it has handed out so far. A message arrives less
  -- than half the range of numbers away from the next one to be handled, on either side, and a
  -- heartbeat names a first unacknowledged message that is not ahead of it.
  pub data Run : ReliableInputStream c → List (InputMessage c) → Type 0 where
    start : Run (init c) []
    arrive :
        {s : ReliableInputStream c} {out : List (InputMessage c)}
        → Run s out
        → (i : ℕ) → length out ≤ i + 2 ^ 15
        → i < length out + 2 ^ 15
        → Run (push_message c depth (number i) (sent i) s).1 out
    heartbeat :
        {s : ReliableInputStream c} {out : List (InputMessage c)}
        → Run s out
        → (first last : ℕ) → first ≤ length out
        → length out < first + 2 ^ 15
        → Run (update_from_heartbeat c (number first) last s) out
    take_none :
        {s : ReliableInputStream c} {out : List (InputMessage c)}
        → Run s out
        → (pop_message c s).0 ≡ none
        → Run (pop_message c s).1 out
    take_some :
        {s : ReliableInputStream c} {out : List (InputMessage c)} {m : InputMessage c}
        → Run s out
        → (pop_message c s).0 ≡ some m
        → Run (pop_message c s).1 (out ++ (m ∷ []))

  -- The first `n` messages of the sender.
  abbrev pub first_sent : ℕ → List (InputMessage c)
  first_sent zero = []
  first_sent (suc n) = first_sent n ++ (sent n ∷ [])

  taken :
      (h : ℕ) (s : ReliableInputStream c) {m : InputMessage c}
      → Inv h s
      → (pop_message c s).0 ≡ some m
      → (m ≡ sent h) × Inv (suc h) (pop_message c s).1
  taken h s v e = elim (Window.pop-Inv c sent depth lo hi h s v) [
    | inl (nothing, _) ↦ cc
    | inr (next, after) ↦ (cc, after)
  ]

  untaken :
      (h : ℕ) (s : ReliableInputStream c)
      → Inv h s
      → (pop_message c s).0 ≡ none
      → Inv h (pop_message c s).1
  untaken h s v e = elim (Window.pop-Inv c sent depth lo hi h s v) [
    | inl (_, same) ↦ subst (Inv h) (sym same) v
    | inr (next, _) ↦ cc
  ]

  length-snoc :
      (out : List (InputMessage c)) (m : InputMessage c)
      → length (out ++ (m ∷ [])) ≡ suc (length out)
  length-snoc out m = omega (arith, length-append out (m ∷ []))

  Run-Inv :
      {s : ReliableInputStream c} {out : List (InputMessage c)}
      → Run s out
      → (out ≡ first_sent (length out)) × Inv (length out) s
  Run-Inv start = (refl, record { handled = refl; stored = λ k m e. absurd (nothing_found k e) })
  Run-Inv (arrive {s = s} {out = out} r i near far) =
      let (same, v) = Run-Inv r in
      (same, Window.push-Inv c sent depth lo hi (length out) i s near far v)
  Run-Inv (heartbeat {s = s} {out = out} r first last near far) =
      let (same, v) = Run-Inv r in
      (same, Window.heartbeat-Inv c sent depth lo hi (length out) first last s near far v)
  Run-Inv (take_none {s = s} {out = out} r e) =
      let (same, v) = Run-Inv r in (same, untaken (length out) s v e)
  Run-Inv (take_some {s = s} {out = out} {m = m} r e) =
      let (same, v) = Run-Inv r in
      let (next, after) = taken (length out) s v e in
      rw (length-snoc out m) (ap₂ (λ xs x. xs ++ (x ∷ [])) same next, after)

  -- With a depth from 1 to below half the range of numbers, on a run whose arrivals are at most half the range away from the next message to be handed out, and whose heartbeats name a first message that is not ahead of that one and less than half the range behind it, the messages handed out are the sender's first messages, each once and in order, also when messages arrive twice, late or out of order. Heartbeats that let the stream skip messages are outside.
  pub delivered_in_order :
      {s : ReliableInputStream c} {out : List (InputMessage c)}
      → Run s out
      → out ≡ first_sent (length out)
  delivered_in_order r = (Run-Inv r).0

  -- With a depth from 1 to below half the range of numbers, on a run whose arrivals are at most half the range away from the next message to be handed out, and whose heartbeats name a first message that is not ahead of that one and less than half the range behind it, once the next message of the sender has arrived, it is what the stream hands out next. Heartbeats that let the stream skip messages are outside.
  pub delivered_next :
      {s : ReliableInputStream c} {out : List (InputMessage c)}
      → Run s out
      → let n = length out in
        (pop_message c (push_message c depth (number n) (sent n) s).1).0 ≡ some (sent n)
  delivered_next {s} {out} r = elim (find-emplace_self (number n) (sent n) s.messages) [
    | inl new ↦ handed_out (sent n) (rw stored new)
    | inr (w, _, old) ↦ handed_out w (rw stored old)
  ]
    where
      n : ℕ
      n = length out

      v : Inv n s
      v = (Run-Inv r).1

      s' : ReliableInputStream c
      s' = (push_message c depth (number n) (sent n) s).1

      v' : Inv n s'
      v' = Window.push-Inv c sent depth lo hi n n s (omega arith) (omega arith) v

      stored : s'.messages ≡ emplace (number n) (sent n) s.messages
      stored = Window.pushed c sent depth lo hi n n s (omega arith) (omega arith) v ∙ ground arith

      handed_out :
          (w : InputMessage c)
          → find (number n) s'.messages ≡ some w
          → (pop_message c s').0 ≡ some (sent n)
      handed_out w e =
          let here : (pop_message c s').0 ≡ some w =
            rw (Window.pop_lem c sent depth lo hi n s' v', e) refl in
          here ∙ ap some (taken n s' v' here).0
