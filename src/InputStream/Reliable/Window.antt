-- ===== src/InputStream/Reliable/Window.antt =====
-- What a reliable input stream stores. The sender numbers its messages from 0 on without
-- bound, `sent i` is its i-th message, and i % 2^16 the number that this message
-- carries.
use micro_xrce_dds_agent.Common.{
  ℕ, suc, ◌+◌, ◌-◌, ◌%◌, ◌^◌, ◌≤◌, ◌<◌, ◌≡◌, refl, ap, ◌∙◌, false, ◌&&◌, Option, none, some, ◌⊎◌,
  inl, inr, arith, leb, ltb, Bool-cases, Option-cases, if◌then◌else◌,
}
use micro_xrce_dds_agent.Common.Int.{pos}
use micro_xrce_dds_agent.Common.Dict.{find, erase, emplace, find_of_erased, find-emplace_inv}
use micro_xrce_dds_agent.SeqNum
use micro_xrce_dds_agent.SeqNum.Order.{add_lem, add_int_lem}
use micro_xrce_dds_agent.Cdr.{Cdr}
use micro_xrce_dds_agent.Message.Input.{InputMessage}
use micro_xrce_dds_agent.InputStream.Reliable.{
  ReliableInputStream, push_message, pop_message, update_from_heartbeat,
}

-- The number of the i-th message, and the number before it.
abbrev pub number : ℕ → ℕ
number i = i % 2 ^ 16

abbrev pub before : ℕ → ℕ
before i = (i + (2 ^ 16 - 1)) % 2 ^ 16

-- A message that is not half the range of numbers away from the next one to be handled is taken
-- for what it is.
window_lem :
    (depth h i : ℕ)
    → 0 < depth
    → depth < 2 ^ 15
    → h ≤ i + 2 ^ 15
    → i < h + 2 ^ 15
    → (SeqNum.gt (number i) (before h) && SeqNum.le (number i) (SeqNum.add (before h) depth))
      ≡ (leb h i && ltb i (h + depth))
unfolding SeqNum.gt SeqNum.le SeqNum.lt
window_lem depth h i lo hi near far =
    rw (add_lem (before h) depth (omega arith) (omega arith)) (ground arith)

pub next_number : (h : ℕ) → SeqNum.add_int (before h) (pos 1) ≡ number h
next_number h = rw (add_int_lem (before h) 1 (omega arith)) (omega arith)

lt_back :
    (h first : ℕ) → first ≤ h → h < first + 2 ^ 15 → SeqNum.lt (number h) (number first) ≡ false
unfolding SeqNum.lt
lt_back h first near far = ground arith

module _ (c : Cdr) (sent : ℕ → InputMessage c) (depth : ℕ) (lo : 0 < depth)
    (hi : depth < 2 ^ 15) where
  -- `h` messages have been handled; what is stored are messages of the window behind them.
  pub record Inv (h : ℕ) (s : ReliableInputStream c) : Type 0 where
    pub handled : s.last_handled ≡ before h
    pub stored :
        (k : ℕ) (m : InputMessage c)
        → find k s.messages ≡ some m
        → (i : ℕ) × (h ≤ i) × (i < h + depth) × (k ≡ number i) × (m ≡ sent i)

  push_handled :
      (k : ℕ) (m : InputMessage c) (s : ReliableInputStream c)
      → (push_message c depth k m s).1.last_handled ≡ s.last_handled
  unfolding push_message
  push_handled k m s = ground arith

  push_messages :
      (k : ℕ) (m : InputMessage c) (s : ReliableInputStream c)
      → (push_message c depth k m s).1.messages ≡ (
          if SeqNum.gt k s.last_handled && SeqNum.le k (SeqNum.add s.last_handled depth)
          then emplace k m s.messages
          else s.messages)
  unfolding push_message emplace
  push_messages k m s = ground arith

  emplace_stored :
      (h i : ℕ) (s : ReliableInputStream c)
      → Inv h s
      → h ≤ i
      → i < h + depth
      → (k : ℕ) (m : InputMessage c) → find k (emplace (number i) (sent i) s.messages) ≡ some m
      → (j : ℕ) × (h ≤ j) × (j < h + depth) × (k ≡ number j) × (m ≡ sent j)
  emplace_stored h i s v p q k m e = elim (find-emplace_inv (number i) k (sent i) m s.messages e) [
    | inl old ↦ v.stored k m old
    | inr (same, new) ↦ (i, p, q, same, new)
  ]

  -- A message of the window is stored, any other is ignored.
  pub pushed :
      (h i : ℕ) (s : ReliableInputStream c)
      → h ≤ i + 2 ^ 15
      → i < h + 2 ^ 15
      → Inv h s
      → (push_message c depth (number i) (sent i) s).1.messages ≡ (
          if leb h i && ltb i (h + depth)
          then emplace (number i) (sent i) s.messages
          else s.messages)
  pushed h i s near far v =
      push_messages (number i) (sent i) s
      ∙ rw v.handled (rw (window_lem depth h i lo hi near far) refl)

  pub push-Inv :
      (h i : ℕ) (s : ReliableInputStream c)
      → h ≤ i + 2 ^ 15
      → i < h + 2 ^ 15
      → Inv h s
      → Inv h (push_message c depth (number i) (sent i) s).1
  push-Inv h i s near far v = record {
    handled = push_handled (number i) (sent i) s ∙ v.handled;
    stored = λ k m e. elim (Bool-cases (leb h i && ltb i (h + depth))) [
      | inl inside ↦
          emplace_stored h i s v (ground arith) (ground arith) k m
            (rw (pushed h i s near far v, inside) at e)
      | inr outside ↦ v.stored k m (rw (pushed h i s near far v, outside) at e)
    ];
  }

  pub pop_lem :
      (h : ℕ) (s : ReliableInputStream c)
      → Inv h s
      → pop_message c s ≡ (elim (find (number h) s.messages) [
        | none ↦ (none, s)
        | some m ↦
            (some m, record s { last_handled = number h; messages = erase (number h) s.messages })
      ])
  unfolding pop_message
  pop_lem h s v =
      ap (λ k. pop_next k s) (ap (λ k. SeqNum.add_int k (pos 1)) v.handled ∙ next_number h)
    where
      pop_next : ℕ → ReliableInputStream c → Option (InputMessage c) × ReliableInputStream c
      pop_next next s = elim (find next s.messages) [
        | none ↦ (none, s)
        | some m ↦ (some m, record s { last_handled = next; messages = erase next s.messages })
      ]

  erased-Inv :
      (h : ℕ) (s : ReliableInputStream c)
      → Inv h s
      → Inv (suc h) (record s { last_handled = number h; messages = erase (number h) s.messages })
  erased-Inv h s v = record {
    handled = omega arith;
    stored = λ k m e.
        let (kept, other) = find_of_erased (number h) k m s.messages e in
        let (i, p, q, r, t) = v.stored k m kept in (i, ground (arith, r, other), omega arith, r, t);
  }

  -- What is handed out is the next message, and the window moves on; otherwise nothing changes.
  pub pop-Inv :
      (h : ℕ) (s : ReliableInputStream c)
      → Inv h s
      → ((pop_message c s).0 ≡ none) × ((pop_message c s).1 ≡ s)
        ⊎ ((pop_message c s).0 ≡ some (sent h)) × Inv (suc h) (pop_message c s).1
  pop-Inv h s v = elim (Option-cases (find (number h) s.messages)) [
    | inl e ↦ inl (rw (pop_lem h s v, e) refl, rw (pop_lem h s v, e) refl)
    | inr (m, e) ↦
        let (i, p, q, r, t) = v.stored (number h) m e in
        let same : i ≡ h = omega arith in
        inr (rw (pop_lem h s v, e, t, same) refl, rw (pop_lem h s v, e) (erased-Inv h s v))
  ]

  heartbeat_keeps :
      (first last : ℕ) (s : ReliableInputStream c)
      → SeqNum.lt (SeqNum.add_int s.last_handled (pos 1)) first ≡ false
      → ((update_from_heartbeat c first last s).last_handled ≡ s.last_handled)
        × ((update_from_heartbeat c first last s).messages ≡ s.messages)
  unfolding update_from_heartbeat
  heartbeat_keeps first last s e = ground arith

  pub heartbeat-Inv :
      (h first last : ℕ) (s : ReliableInputStream c)
      → first ≤ h
      → h < first + 2 ^ 15
      → Inv h s
      → Inv h (update_from_heartbeat c (number first) last s)
  heartbeat-Inv h first last s near far v =
      let not_ahead : SeqNum.lt (SeqNum.add_int s.last_handled (pos 1)) (number first) ≡ false =
        rw v.handled (rw next_number (lt_back h first near far)) in
      let (same, kept) = heartbeat_keeps (number first) last s not_ahead in
      record { handled = same ∙ v.handled; stored = λ k m e. v.stored k m (rw kept at e) }
