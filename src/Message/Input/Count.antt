-- ===== src/Message/Input/Count.antt =====
-- Counting the submessages of any bytes, and the constructor of InputMessage.hpp.
use micro_xrce_dds_agent.Common.{
  ℕ, suc, ◌+◌, ◌≤◌, ◌≡◌, ◌≢◌, refl, Bool, true, false, List, Option, none, some, ap, ◌&&◌,
  if◌then◌else◌, length, arith, ltb,
}
use micro_xrce_dds_agent.Cdr.{Cdr}
use micro_xrce_dds_agent.Message.Header.{
  MessageHeader, default_header, default_subheader, deserialize_header, deserialize_subheader,
}
use micro_xrce_dds_agent.Message.Input.{
  InputMessage, create, count_round, count_loop, count_submessages, check_count, message,
  align_read,
}

module _ (c : Cdr) where
  pub count_round_stops :
      (size count : ℕ) (r : c.Reader)
      → ((count_round c size count r).0 ≡ false) × ((count_round c size count r).1 ≤ count + 1)
  unfolding count_round
  count_round_stops size count r = ground arith

  -- Whether a submessage header can be read at the next place of its alignment.
  abbrev pub has_submessage : List ℕ → c.Reader → Bool
  has_submessage buf r =
      ltb (c.position (align_read c r)) (length buf)
      && (deserialize_subheader c (default_subheader, align_read c r)).0

  count_loop_lem :
      (fuel : ℕ) (buf : List ℕ) (r : c.Reader)
      → count_loop c (suc fuel) (length buf) 0 r ≡ (if has_submessage buf r then 1 else 0)
  unfolding count_loop count_round
  count_loop_lem fuel buf r = rw ((count_round_stops (length buf) 0 r).0, count_loop) (ground arith)

  -- The count of any bytes: there is none, but an exception, where the header cannot be read, and
  -- behind a header it is 1 if a submessage header can be read at the next aligned place before the
  -- end, and 0 if not, however many submessages follow.
  pub count_submessages_lem :
      (buf : List ℕ)
      → let (done, _, r) = deserialize_header c (default_header, c.reader buf) in
        count_submessages c buf
        ≡ (if done then some (if has_submessage buf r then 1 else 0) else none)
  unfolding count_submessages
  count_submessages_lem buf =
      let (done, _, r) = deserialize_header c (default_header, c.reader buf) in
      ap (λ n. if done then some n else none) (count_loop_lem (length buf) buf r)

  check_count_total :
      (buf : List ℕ) (p : Bool × MessageHeader × c.Reader) (n : Option ℕ)
      → (p.0 ≡ true → n ≢ none)
      → (m : InputMessage c) × (check_count c buf p n ≡ some m)
  check_count_total buf (false, h, r) n some_count = (message c buf h r false, refl)
  check_count_total buf (true, h, r) none some_count = absurd (some_count refl refl)
  check_count_total buf (true, h, r) (some n) some_count = (message c buf h r (ltb 0 n), refl)

  -- The constructor makes a message of any bytes: no exception leaves it.
  pub create_total : (buf : List ℕ) → (m : InputMessage c) × (create c buf ≡ some m)
  unfolding create
  create_total buf = check_count_total buf _ _ counted
    where
      counted :
          (deserialize_header c (default_header, c.reader buf)).0 ≡ true
          → count_submessages c buf ≢ none
      counted e = rw (e, count_submessages) (λ p. cc)
