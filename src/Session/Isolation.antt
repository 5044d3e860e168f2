-- ===== src/Session/Isolation.antt =====
-- Operations on different streams of a session.
use micro_xrce_dds_agent.Common.{
  ℕ, ◌≡◌, ◌≢◌, refl, sym, ap, ◌∙◌, true, false, Option, inl, inr, ◌==◌, Bool-cases, some, none,
  arith, if◌then◌else◌,
}
use micro_xrce_dds_agent.Common.Dict.{Dict, find, find_or, assign, find-assign}
use micro_xrce_dds_agent.Cdr.{Cdr}
use micro_xrce_dds_agent.Message.Input.{InputMessage}
use micro_xrce_dds_agent.InputStream.None as NoneIn
use micro_xrce_dds_agent.InputStream.BestEffort as BestEffortIn
use micro_xrce_dds_agent.InputStream.Reliable as ReliableIn
use micro_xrce_dds_agent.InputStream.None.{NoneInputStream}
use micro_xrce_dds_agent.InputStream.BestEffort.{BestEffortInputStream}
use micro_xrce_dds_agent.InputStream.Reliable.{ReliableInputStream}
use micro_xrce_dds_agent.Session.{Session, Config, is_none_stream, is_besteffort_stream}
use micro_xrce_dds_agent.Session.Input.{push_input_message, pop_input_message}

find_or-assign {ℓ} :
    {S : Type ℓ} (i j : ℕ) (d v : S) (m : Dict S)
    → i ≢ j
    → find_or j d (assign i v m) ≡ find_or j d m
unfolding find_or
find_or-assign {S} i j d v m other =
    let e : (i == j) ≡ false = ground arith in
    ap found {y = find j m} (find-assign i j v m ∙ rw e refl)
  where
    found : Option S → S
    found o = elim o [ none ↦ d | some w ↦ w ]

module _ (c : Cdr) (config : Config) where
  -- What is popped for an id, from the streams that it can name.
  abbrev popped :
      ℕ
      → NoneInputStream (InputMessage c)
      → BestEffortInputStream (InputMessage c)
      → ReliableInputStream c
      → Option (InputMessage c)
  popped j none_stream best_effort reliable =
      if is_none_stream j
      then (NoneIn.pop_message none_stream).0
      else (if is_besteffort_stream j
          then (BestEffortIn.pop_message best_effort).0
          else (ReliableIn.pop_message c reliable).0)

  pop_input_message-popped :
      (j : ℕ) (s : Session c)
      → (pop_input_message c j s).0
        ≡ popped j s.none_istream
            (find_or j BestEffortIn.init s.best_effort_istreams)
            (find_or j (ReliableIn.init c) s.reliable_istreams)
  unfolding pop_input_message
  pop_input_message-popped j s = elim (Bool-cases (is_none_stream j)) [
    | inl a ↦ rw a refl
    | inr a ↦ elim (Bool-cases (is_besteffort_stream j)) [
      | inl b ↦ rw (a, b) refl
      | inr b ↦ rw (a, b) refl
    ]
  ]

  module _ (message : InputMessage c) (i j sequence_nr : ℕ) (s : Session c) (other : i ≢ j) where
    abbrev after : Session c
    after = (push_input_message c config message i sequence_nr s).1

    after_none :
        is_none_stream i ≡ true
        → (n : NoneInputStream (InputMessage c)) × ((push_input_message c config message i
              sequence_nr s).1
            ≡ record s { none_istream = n })
    unfolding push_input_message
    after_none a =
        ((NoneIn.push_message config.best_effort_stream_depth message s.none_istream).1, rw a refl)

    after_best_effort :
        is_none_stream i ≡ false
        → is_besteffort_stream i ≡ true
        → (b : BestEffortInputStream (InputMessage c)) × ((push_input_message c config message i
              sequence_nr s).1
            ≡ record s { best_effort_istreams = assign i b s.best_effort_istreams })
    unfolding push_input_message
    after_best_effort a e = (
      (BestEffortIn.push_message config.best_effort_stream_depth sequence_nr message
          (find_or i BestEffortIn.init s.best_effort_istreams)).1,
      rw (a, e) refl,
    )

    after_reliable :
        is_none_stream i ≡ false
        → is_besteffort_stream i ≡ false
        → (r : ReliableInputStream c) × ((push_input_message c config message i sequence_nr s).1
            ≡ record s { reliable_istreams = assign i r s.reliable_istreams })
    unfolding push_input_message
    after_reliable a e = (
      (ReliableIn.push_message c config.reliable_stream_depth sequence_nr message
          (find_or i (ReliableIn.init c) s.reliable_istreams)).1,
      rw (a, e) refl,
    )

    different : is_none_stream i ≡ true → is_none_stream j ≡ false
    unfolding is_none_stream
    different e = ground (arith, other)

    -- A message pushed into one stream does not change what is popped from another.
    pub pop_input_message-push_input_message :
        (pop_input_message c j (push_input_message c config message i sequence_nr s).1).0
        ≡ (pop_input_message c j s).0
    pop_input_message-push_input_message =
        pop_input_message-popped j after ∙ same ∙ sym (pop_input_message-popped j s)
      where
        streams : Session c → Option (InputMessage c)
        streams t =
            popped j t.none_istream (find_or j BestEffortIn.init t.best_effort_istreams)
              (find_or j (ReliableIn.init c) t.reliable_istreams)

        same : streams after ≡ streams s
        same = elim (Bool-cases (is_none_stream i)) [
          | inl a ↦ ap streams (after_none a).1 ∙ rw (different a) refl
          | inr a ↦ elim (Bool-cases (is_besteffort_stream i)) [
            | inl b ↦
                let (stream, e) = after_best_effort a b in
                ap streams e
                ∙ ap
                    (λ z.
                      popped j s.none_istream z (find_or j (ReliableIn.init c) s.reliable_istreams))
                    (find_or-assign i j BestEffortIn.init stream s.best_effort_istreams other)
            | inr b ↦
                let (stream, e) = after_reliable a b in
                ap streams e
                ∙ ap
                    (λ z.
                      popped j s.none_istream (find_or j BestEffortIn.init s.best_effort_istreams)
                        z)
                    (find_or-assign i j (ReliableIn.init c) stream s.reliable_istreams other)
          ]
        ]
