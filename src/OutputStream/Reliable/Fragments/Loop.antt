-- ===== src/OutputStream/Reliable/Fragments/Loop.antt =====
-- The loop of `push_submessage`, round by round.

use micro_xrce_dds_agent.Common.{
  ℕ, zero, suc, ◌+◌, ◌-◌, ◌%◌, ◌^◌, ◌≤◌, ◌<◌, ◌≡◌, refl, sym, subst, ◌∙◌, Bool, true, false, List,
  [], ◌∷◌, Option, some, length, take, drop, take-append-drop, length-take, length-drop, take_all,
  drop-drop, inl, inr, Bool-cases, arith, ltb, leb, if◌then◌else◌,
}
use micro_xrce_dds_agent.Common.Int.{pos}
use micro_xrce_dds_agent.SeqNum
use micro_xrce_dds_agent.Cdr.{Cdr}
use micro_xrce_dds_agent.Message.Output.{OutputMessage}
use micro_xrce_dds_agent.OutputStream.Types.{SessionInfo}
use micro_xrce_dds_agent.OutputStream.Reliable.{
  ReliableOutputStream, Fragmenter, push_next, store_fragment, fragment_round, fragment_loop,
}
use micro_xrce_dds_agent.OutputStream.Reliable.Fragments
use micro_xrce_dds_agent.OutputStream.Reliable.Fragments.{
  Fragmented, last, more, fragment_message as message_of, push_fragments as push_all,
}

module _ (c : Cdr) (info : SessionInfo) (stream_id : ℕ) (key : length info.client_key ≡ 4)
    (headers : ℕ) (buf : List ℕ) (max : ℕ) (some_room : 0 < max) (small : max < 2 ^ 16)
    (short : length buf < 2 ^ 16) (mtu : headers + max ≡ info.mtu) where
  abbrev Fits : Type 0
  Fits = Fragments.Fits c info stream_id headers

  abbrev add_message : (ℕ → OutputMessage c) → ReliableOutputStream c → ReliableOutputStream c
  add_message message s = Fragments.add_message c info stream_id message s

  abbrev fragment_message : ℕ → ℕ → ℕ → List ℕ → OutputMessage c
  fragment_message = message_of c info stream_id

  abbrev push_fragments : ℕ → List (ℕ × List ℕ) → ReliableOutputStream c → ReliableOutputStream c
  push_fragments = push_all c info stream_id

  store_lem :
      Fits
      → (f : Fragmenter c) (chunk : List ℕ) (flags : ℕ)
      → f.serialized_size + length chunk ≤ length buf
      → chunk ≡ take (length chunk) (drop f.serialized_size buf)
      → store_fragment c info stream_id buf (length buf) headers max (length chunk) flags f ≡ (
        true,
        record {
          serialized_size = f.serialized_size + length chunk;
          flags = flags;
          stream = add_message (λ seq. fragment_message headers seq flags chunk) f.stream;
        },
      )
  unfolding store_fragment push_next message_of
  store_lem fits f chunk flags inside taken = rw (← taken) (
      rw
        (Fragments.fragment_built c info stream_id key headers fits
          (SeqNum.add_int f.stream.last_unacked (pos 1)) flags chunk)
        (rw wraps_not refl))
    where
      wraps_not : (f.serialized_size + length chunk) % 2 ^ 16 ≡ f.serialized_size + length chunk
      wraps_not = omega arith

  round : Fragmenter c → Bool × Fragmenter c
  round = fragment_round c info stream_id buf (length buf) headers max

  unfoldable pub loop : ℕ → Fragmenter c → Option (Fragmenter c)
  loop = fragment_loop c info stream_id buf (length buf) headers max

  -- A round that is not the last one.
  round_more :
      Fits
      → (f : Fragmenter c) → max < length buf - f.serialized_size
      → let chunk = take max (drop f.serialized_size buf) in
        (length chunk ≡ max)
        × (round f ≡ (
          true,
          record {
            serialized_size = f.serialized_size + length chunk;
            flags = f.flags;
            stream = add_message (λ seq. fragment_message headers seq f.flags chunk) f.stream;
          },
        ))
  unfolding round fragment_round
  round_more fits f left =
      let rest = drop f.serialized_size buf in
      let size : length (take max rest) ≡ max =
        omega (arith, length-take max rest, length-drop f.serialized_size buf) in
      let open_end : leb (headers + (length buf - f.serialized_size)) info.mtu ≡ false =
        ground arith in
      let cut : max % 2 ^ 16 ≡ length (take max rest) = omega arith in
      (
        size,
        rw open_end
            (rw cut (store_lem fits f (take max rest) f.flags (omega arith) (rw size refl))),
      )

  round_last :
      Fits
      → (f : Fragmenter c) → f.serialized_size < length buf
      → length buf - f.serialized_size ≤ max
      → let chunk = drop f.serialized_size buf in
        round f ≡ (
          true,
          record {
            serialized_size = f.serialized_size + length chunk;
            flags = 3;
            stream = add_message (λ seq. fragment_message headers seq 3 chunk) f.stream;
          },
        )
  unfolding round fragment_round
  round_last fits f inside left =
      let rest = drop f.serialized_size buf in
      let closed : leb (headers + (length buf - f.serialized_size)) info.mtu ≡ true =
        ground arith in
      let cut : (length buf - f.serialized_size) % 2 ^ 16 ≡ length rest =
        omega (arith, length-drop f.serialized_size buf) in
      rw closed (
        rw cut (
          store_lem fits f rest 3 (omega (arith, length-drop f.serialized_size buf))
            (sym (take_all rest))))

  loop_step :
      (fuel : ℕ) (f f' : Fragmenter c)
      → round f ≡ (true, f')
      → loop (suc fuel) f ≡ (if ltb f'.serialized_size (length buf) then loop fuel f' else some f')
  unfolding loop round fragment_loop
  loop_step fuel f f' e = rw (e, fragment_loop) refl

  -- How the loop ends when it starts at `f`.
  pub record Ends (f : Fragmenter c) (r : Option (Fragmenter c)) (bytes : List ℕ) : Type 0 where
    pub fragments : List (ℕ × List ℕ)
    pub cut : Fragmented max bytes fragments
    pub final : Fragmenter c
    pub result : r ≡ some final
    pub complete : final.serialized_size ≡ length buf
    pub stored : final.stream ≡ push_fragments headers fragments f.stream

  abbrev after : Fragmenter c → ℕ → List ℕ → Fragmenter c
  after f flags chunk = record {
    serialized_size = f.serialized_size + length chunk;
    flags = flags;
    stream = add_message (λ seq. fragment_message headers seq flags chunk) f.stream;
  }

  loop_last :
      Fits
      → (fuel : ℕ) (f : Fragmenter c) → f.serialized_size < length buf
      → length buf - f.serialized_size ≤ max
      → Ends f (loop (suc fuel) f) (drop f.serialized_size buf)
  unfolding push_all
  loop_last fits fuel f inside left =
      let rest = drop f.serialized_size buf in
      let whole : f.serialized_size + length rest ≡ length buf =
        omega (arith, length-drop f.serialized_size buf) in
      let stop : ltb (f.serialized_size + length rest) (length buf) ≡ false = ground arith in
      record {
        fragments = (3, rest) ∷ [];
        cut = last rest (omega (arith, length-drop f.serialized_size buf));
        final = after f 3 rest;
        result = loop_step fuel f (after f 3 rest) (round_last fits f inside left) ∙ rw stop refl;
        complete = whole;
        stored = refl;
      }

  loop_more :
      (fuel : ℕ) (f : Fragmenter c)
      → f.flags ≡ 1
      → let chunk = take max (drop f.serialized_size buf) in
        f.serialized_size + length chunk < length buf
        → length chunk ≡ max
        → round f ≡ (true, after f f.flags chunk)
        → Ends
            (after f f.flags chunk)
            (loop fuel (after f f.flags chunk))
            (drop (f.serialized_size + length chunk) buf)
        → Ends f (loop (suc fuel) f) (drop f.serialized_size buf)
  unfolding push_all
  loop_more fuel f flags inside size e ends =
      let rest = drop f.serialized_size buf in
      let behind : drop (f.serialized_size + length (take max rest)) buf ≡ drop max rest =
        rw size (sym (drop-drop max f.serialized_size buf)) in
      let going : ltb (f.serialized_size + length (take max rest)) (length buf) ≡ true =
        ground arith in
      record {
        fragments = (1, take max rest) ∷ ends.fragments;
        cut =
            subst (λ b. Fragmented max b ((1, take max rest) ∷ ends.fragments))
              (take-append-drop max rest)
              (more (take max rest) size
                (subst (λ b. Fragmented max b ends.fragments) behind ends.cut));
        final = ends.final;
        result = loop_step fuel f _ e ∙ rw going ends.result;
        complete = ends.complete;
        stored = rw flags at ends.stored;
      }

  pub loop_lem :
      Fits
      → (fuel : ℕ) (f : Fragmenter c) → f.serialized_size < length buf
      → f.flags ≡ 1
      → length buf - f.serialized_size ≤ fuel
      → Ends f (loop fuel f) (drop f.serialized_size buf)
  loop_lem fits zero f inside flags enough = absurd (omega arith)
  loop_lem fits (suc fuel) f inside flags enough =
      elim (Bool-cases (leb (length buf - f.serialized_size) max)) [
        | inl fit ↦ loop_last fits fuel f inside (ground arith)
        | inr over ↦
            let chunk = take max (drop f.serialized_size buf) in
            let (size, e) = round_more fits f (ground arith) in
            let inside' : f.serialized_size + length chunk < length buf = ground arith in
            loop_more fuel f flags inside' size e
              (loop_lem fits fuel (after f f.flags chunk) inside' flags (omega arith))
      ]
