-- ===== src/OutputStream/Reliable/Window.antt =====
-- What a reliable output stream keeps. Its messages are numbered from 0 on without bound, and the
-- i-th carries the number i % 2^16. Those before `acked` are acknowledged, those before `taken`
-- have been handed out, and `made` is how many there are.
use micro_xrce_dds_agent.Common.{
  ℕ, zero, suc, ◌+◌, ◌^◌, ◌≤◌, ◌<◌, ◌≡◌, refl, ap, ◌∙◌, Bool, true, false, ◌&&◌, [], none, some,
  ◌⊎◌, inl, inr, arith, leb, ltb, ◌==◌, Bool-cases, Option-cases, ==_iff, ==_refl, if◌then◌else◌,
}
use micro_xrce_dds_agent.Common.Int.{pos}
use micro_xrce_dds_agent.Common.Dict.{
  find, erase, find-erase, find_of_erased, find-emplace, find-emplace_inv,
}
use micro_xrce_dds_agent.SeqNum
use micro_xrce_dds_agent.SeqNum.Order.{add_int_lem}
use micro_xrce_dds_agent.Cdr.{Cdr}
use micro_xrce_dds_agent.Message.Header.{MessageHeader}
use micro_xrce_dds_agent.Message.Output.{OutputMessage}
use micro_xrce_dds_agent.InputStream.Reliable.Window.{number, before, next_number}
use micro_xrce_dds_agent.OutputStream.BestEffort.{next_header}
use micro_xrce_dds_agent.OutputStream.Types.{SessionInfo}
use micro_xrce_dds_agent.OutputStream.Reliable.{
  ReliableOutputStream, init, push_next, get_next_message, get_message, acknack_loop,
  update_from_acknack,
}

gt-number : (i j : ℕ) → i < j + 2 ^ 15 → j < i + 2 ^ 15 → SeqNum.gt (number j) (number i) ≡ ltb i j
unfolding SeqNum.gt SeqNum.lt
gt-number i j p q = ground arith

lt-before : (i j : ℕ) → i ≤ j → j < i + 2 ^ 15 → SeqNum.lt (before i) (before j) ≡ ltb i j
unfolding SeqNum.lt
lt-before i j p q = ground arith

module _ (c : Cdr) (message : ℕ → OutputMessage c) where
  pub record Window (acked taken made : ℕ) (s : ReliableOutputStream c) : Type 0 where
    pub first : s.first_unacked ≡ number acked
    pub sent : s.last_sent ≡ before taken
    pub last : s.last_unacked ≡ before made
    pub acked_taken : acked ≤ taken
    pub taken_made : taken ≤ made
    pub narrow : made < acked + 2 ^ 15
    pub held : (i : ℕ) → acked ≤ i → i < made → find (number i) s.messages ≡ some (message i)
    pub only :
        (k : ℕ) (m : OutputMessage c)
        → find k s.messages ≡ some m
        → (i : ℕ) × (acked ≤ i) × (i < made) × (k ≡ number i)

  -- One message acknowledged.
  abbrev acknowledge : ReliableOutputStream c → ReliableOutputStream c
  acknowledge s = record s {
    messages = erase s.first_unacked s.messages;
    first_unacked = SeqNum.add_int s.first_unacked (pos 1);
  }

  acknowledge-Window :
      (acked taken made : ℕ) (s : ReliableOutputStream c)
      → acked < taken
      → Window acked taken made s
      → Window (acked + 1) taken made (acknowledge s)
  acknowledge-Window acked taken made s more_taken v = record {
    first =
        ap (λ k. SeqNum.add_int k (pos 1)) v.first
        ∙ add_int_lem (number acked) 1 (omega arith)
        ∙ omega arith;
    sent = v.sent;
    last = v.last;
    acked_taken = omega arith;
    taken_made = v.taken_made;
    narrow = omega (arith, v.narrow);
    held = λ i p q.
        let kept : (s.first_unacked == number i) ≡ false = rw v.first (ground (arith, v.narrow)) in
        find-erase s.first_unacked (number i) s.messages ∙ rw kept (v.held i (omega arith) q);
    only = λ k m e.
        let (there, other) = find_of_erased s.first_unacked k m s.messages e in
        let (i, p, q, r) = v.only k m there in (i, ground (arith, r, other, v.first), q, r);
  }

  acknack_more :
      (fuel k : ℕ) (s : ReliableOutputStream c)
      → SeqNum.gt k s.first_unacked ≡ true
      → acknack_loop c (suc fuel) k s ≡ acknack_loop c fuel k (acknowledge s)
  unfolding acknack_loop
  acknack_more fuel k s e = rw (e, acknack_loop) refl

  acknack_done :
      (fuel k : ℕ) (s : ReliableOutputStream c)
      → SeqNum.gt k s.first_unacked ≡ false
      → acknack_loop c (suc fuel) k s ≡ s
  unfolding acknack_loop
  acknack_done fuel k s e = rw (e, acknack_loop) refl

  acknack_none : (k : ℕ) (s : ReliableOutputStream c) → acknack_loop c zero k s ≡ s
  unfolding acknack_loop
  acknack_none k s = refl

  acknack_loop-Window :
      (fuel acked taken made upto : ℕ) (s : ReliableOutputStream c)
      → upto < acked + fuel
      → acked < upto + 2 ^ 15
      → upto ≤ taken
      → Window acked taken made s
      → Window
          (if ltb acked upto then upto else acked)
          taken
          made
          (acknack_loop c fuel (number upto) s)
  acknack_loop-Window zero acked taken made upto s enough near sent v =
      let stale : ltb acked upto ≡ false = ground arith in
      rw (stale, acknack_none (number upto) s) v
  acknack_loop-Window (suc fuel) acked taken made upto s enough near sent v =
      elim (Bool-cases (ltb acked upto)) [
        | inl ahead ↦
            let test : SeqNum.gt (number upto) s.first_unacked ≡ true =
              rw v.first
                (gt-number acked upto near (omega (arith, v.narrow, v.taken_made)) ∙ ahead) in
            let r =
              acknack_loop-Window fuel (acked + 1) taken made upto (acknowledge s) (omega arith)
                (ground arith) sent (acknowledge-Window acked taken made s (ground arith) v) in
            let (here, next) : (ltb acked upto ≡ true)
                × ((if ltb (acked + 1) upto then upto else acked + 1) ≡ upto) =
              (ahead, ground arith) in
            rw (here, acknack_more fuel (number upto) s test) (rw next at r)
        | inr stale ↦
            let test : SeqNum.gt (number upto) s.first_unacked ≡ false =
              rw v.first (gt-number acked upto near (ground arith) ∙ stale) in
            rw (stale, acknack_done fuel (number upto) s test) v
      ]

  accepted :
      (k : ℕ) (s : ReliableOutputStream c)
      → update_from_acknack c k s ≡ (
          if SeqNum.le k (SeqNum.add_int s.last_sent (pos 1))
          then acknack_loop c (2 ^ 16) k s
          else s)
  unfolding update_from_acknack
  accepted k s = refl

  -- An ACKNACK that names a number less than half the range away from the next one to be sent acknowledges the messages before it when it lies between the first unacknowledged message and the next one to be sent, and then exactly those from it on are kept; otherwise it changes nothing.
  pub update_from_acknack-Window :
      (acked taken made upto : ℕ) (s : ReliableOutputStream c)
      → taken < upto + 2 ^ 15
      → upto < taken + 2 ^ 15
      → Window acked taken made s
      → Window
          (if ltb acked upto && leb upto taken then upto else acked)
          taken
          made
          (update_from_acknack c (number upto) s)
  unfolding SeqNum.le
  update_from_acknack-Window acked taken made upto s near far v =
      let next : SeqNum.add_int s.last_sent (pos 1) ≡ number taken =
        rw v.sent (next_number taken) in
      let ahead : SeqNum.gt (number upto) (number taken) ≡ ltb taken upto =
        gt-number taken upto near far in
      elim (Bool-cases (leb upto taken)) [
        | inl sent ↦
            let test : SeqNum.le (number upto) (SeqNum.add_int s.last_sent (pos 1)) ≡ true =
              rw (next, ahead) (ground arith) in
            let same : (ltb acked upto && leb upto taken) ≡ ltb acked upto = ground arith in
            rw (same, accepted (number upto) s, test)
              (acknack_loop-Window (2 ^ 16) acked taken made upto s (omega (arith, v.acked_taken))
                (omega (arith, v.acked_taken, near)) (ground arith) v)
        | inr unsent ↦
            let test : SeqNum.le (number upto) (SeqNum.add_int s.last_sent (pos 1)) ≡ false =
              rw (next, ahead) (ground arith) in
            let same : (ltb acked upto && leb upto taken) ≡ false = ground arith in
            rw (same, accepted (number upto) s, test) v
      ]

  -- The next message to be sent is always there: it is handed out, in order, while one is left, and then nothing is.
  pub get_next_message-Window :
      (acked taken made : ℕ) (s : ReliableOutputStream c)
      → Window acked taken made s
      → ((taken < made)
          × ((get_next_message c s).0 ≡ some (some (message taken)))
          × Window acked (taken + 1) made (get_next_message c s).1)
        ⊎ ((taken ≡ made) × (get_next_message c s ≡ (none, s)))
  unfolding get_next_message
  get_next_message-Window acked taken made s v =
      let next : SeqNum.add_int s.last_sent (pos 1) ≡ number taken =
        rw v.sent (next_number taken) in
      let test : SeqNum.lt s.last_sent s.last_unacked ≡ ltb taken made =
        rw (v.sent, v.last)
          (lt-before taken made v.taken_made (omega (arith, v.acked_taken, v.narrow))) in
      elim (Bool-cases (ltb taken made)) [
        | inl left ↦
            let there = v.held taken v.acked_taken (ground arith) in
            inl (
              ground arith,
              rw (test, left, next, there) refl,
              rw (test, left, next)
                  (record {
                    first = v.first;
                    sent = omega arith;
                    last = v.last;
                    acked_taken = omega (arith, v.acked_taken);
                    taken_made = ground arith;
                    narrow = v.narrow;
                    held = v.held;
                    only = v.only;
                  }),
            )
        | inr none_left ↦ inr (ground (arith, v.taken_made), rw (test, none_left) refl)
      ]

  -- A message is found by its number for retransmission exactly while it is made and not acknowledged, among numbers less than half the range away.
  pub get_message-Window :
      (acked taken made i : ℕ) (s : ReliableOutputStream c)
      → acked < i + 2 ^ 15
      → i < acked + 2 ^ 15
      → Window acked taken made s
      → get_message c (number i) s ≡ (if leb acked i && ltb i made then some (message i) else none)
  unfolding get_message
  get_message-Window acked taken made i s near far v =
      elim (Bool-cases (leb acked i && ltb i made)) [
        | inl inside ↦ rw inside (v.held i (ground arith) (ground arith))
        | inr outside ↦ elim (Option-cases (find (number i) s.messages)) [
          | inl e ↦ rw outside e
          | inr (m, e) ↦
              let (j, p, q, r) = v.only (number i) m e in absurd (ground (arith, r, v.narrow))
        ]
      ]

  nothing_found : (k : ℕ) {m : OutputMessage c} → find k [] ≡ some m → ⊥
  unfolding find
  nothing_found k e = cc

  pub init-Window : Window 0 0 0 (init c)
  init-Window = record {
    first = refl;
    sent = refl;
    last = refl;
    acked_taken = omega arith;
    taken_made = omega arith;
    narrow = omega arith;
    held = λ i p q. absurd (omega arith);
    only = λ k m e. absurd (nothing_found k e);
  }

  -- A message that could be built for the next number is stored under it, behind those that are there, as long as fewer than half the range of numbers are kept.
  pub push_next-Window :
      (build : MessageHeader → Bool × OutputMessage c) (info : SessionInfo)
      (stream_id acked taken made : ℕ) (s : ReliableOutputStream c)
      → made + 1 < acked + 2 ^ 15
      → build (next_header info stream_id (number made)) ≡ (true, message made)
      → Window acked taken made s
      → ((push_next c build info stream_id s).0 ≡ true)
        × Window acked taken (made + 1) (push_next c build info stream_id s).1
  unfolding push_next
  push_next-Window build info stream_id acked taken made s room built v =
      let next : SeqNum.add_int s.last_unacked (pos 1) ≡ number made =
        rw v.last (next_number made) in
      let fresh : find (number made) s.messages ≡ none =
        elim (Option-cases (find (number made) s.messages)) [
          | inl e ↦ e
          | inr (m, e) ↦
              let (i, p, q, r) = v.only (number made) m e in absurd (omega (arith, r, room))
        ] in
      rw (next, built)
        (
          refl,
          record {
            first = v.first;
            sent = v.sent;
            last = omega arith;
            acked_taken = v.acked_taken;
            taken_made = omega (arith, v.taken_made);
            narrow = room;
            held = λ i p q.
                find-emplace (number made) (number i) (message made) s.messages fresh
                ∙ (elim (Bool-cases (made == i)) [
                  | inl e ↦
                      let same : made ≡ i = (==_iff made i).0 e in
                      rw (← same, ==_refl (number made)) refl
                  | inr e ↦
                      let other : (number made == number i) ≡ false = ground arith in
                      rw other (v.held i p (ground arith))
                ]);
            only = λ k m e. elim (find-emplace_inv (number made) k (message made) m s.messages e) [
              | inl old ↦ let (i, p, q, r) = v.only k m old in (i, p, omega arith, r)
              | inr (same, _) ↦
                  (made, omega (arith, v.acked_taken, v.taken_made), omega arith, same)
            ];
          },
        )
