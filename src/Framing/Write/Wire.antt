-- ===== src/Framing/Write/Wire.antt =====
-- The bytes of a frame on the wire.
use mathlib.Core.List.{append-nil, append_assoc}
use Prim.Native.Nat.{bit_xor}
use micro_xrce_dds_agent.Common.{
  ℕ, zero, suc, ◌+◌, ◌*◌, ◌/◌, ◌%◌, ◌^◌, ◌≤◌, ◌<◌, ◌≡◌, refl, sym, ap, ◌∙◌, Bool, true, false, List,
  [], ◌∷◌, ◌++◌, Option, some, ◌⊎◌, inl, inr, length, length-append, drop, drop-drop, min, ltb,
  ◌==◌, ==_refl, Bool-cases, if◌then◌else◌, arith,
}
use micro_xrce_dds_agent.Common.Int.{pos}
use micro_xrce_dds_agent.Framing.{
  FramingIo, Transport, framing_begin_flag, framing_esc_flag, framing_xor_flag, is_flag, octet_at,
  update_crc,
}
use micro_xrce_dds_agent.Framing.Write.{
  add_next_octet, write_rounds, transport_write, write_loop, write_crc, add_header, flush,
  write_framed_msg,
}

-- An octet on the wire: the two flags are escaped.
abbrev pub stuff_octet : ℕ → List ℕ
stuff_octet x = if is_flag x then framing_esc_flag ∷ bit_xor x framing_xor_flag ∷ [] else x ∷ []

abbrev pub stuff : List ℕ → List ℕ
stuff [] = []
stuff (x ∷ xs) = stuff_octet x ++ stuff xs

-- The CRC of the octets from a start value on.
abbrev pub crc_of : ℕ → List ℕ → ℕ
crc_of crc [] = crc
crc_of crc (x ∷ xs) = crc_of (update_crc crc x) xs

abbrev pub crc_bytes : ℕ → List ℕ
crc_bytes crc = crc % 256 ∷ (crc / 256) % 256 ∷ []

length-stuff_octet : (x : ℕ) → (0 < length (stuff_octet x)) × (length (stuff_octet x) ≤ 2)
length-stuff_octet x = ground arith

abbrev with_octet : ℕ → FramingIo → FramingIo
with_octet x f = record f { write_buffer = f.write_buffer ++ stuff_octet x }

-- With room for two bytes an octet is always added.
add_early :
    (x : ℕ) (f : FramingIo)
    → length f.write_buffer < 41
    → add_next_octet x f ≡ (true, with_octet x f)
unfolding add_next_octet
add_early x f room =
    let a : ltb ((length f.write_buffer + 1) % 2 ^ 8) 42 ≡ true = ground arith in
    let b : ltb (length f.write_buffer) 42 ≡ true = ground arith in
    elim (Bool-cases (is_flag x)) [ inl e ↦ rw (e, a) | inr e ↦ rw (e, b) ]

-- Otherwise it is added within the buffer, or the buffer is not empty.
add-cases :
    (x : ℕ) (f : FramingIo)
    → length f.write_buffer ≤ 42
    → (add_next_octet x f ≡ (true, with_octet x f))
        × (length (f.write_buffer ++ stuff_octet x) ≤ 42)
      ⊎ ((add_next_octet x f).0 ≡ false) × (0 < length f.write_buffer)
unfolding add_next_octet
add-cases x f room = elim (Bool-cases (is_flag x)) [
  | inl e ↦ elim (Bool-cases (ltb ((length f.write_buffer + 1) % 2 ^ 8) 42)) [
    | inl fits ↦ inl (
      rw (e, fits),
      rw e (
          ground (
            arith,
            length-append f.write_buffer (framing_esc_flag ∷ bit_xor x framing_xor_flag ∷ []),
          )),
    )
    | inr full ↦ inr (rw (e, full) refl, ground arith)
  ]
  | inr e ↦ elim (Bool-cases (ltb (length f.write_buffer) 42)) [
    | inl fits ↦ inl (rw (e, fits), rw e (ground (arith, length-append f.write_buffer (x ∷ []))))
    | inr full ↦ inr (rw (e, full) refl, ground arith)
  ]
]

abbrev add_all : List ℕ → FramingIo → FramingIo
add_all [] f = f
add_all (x ∷ xs) f = add_all xs (add_next_octet x f).1

length-stuff : (xs : List ℕ) → length (stuff xs) ≤ 2 * length xs
length-stuff [] = omega arith
length-stuff (x ∷ xs) =
    omega
      (arith, length-append (stuff_octet x) (stuff xs), length-stuff xs, (length-stuff_octet x).1)

add_all_lem :
    (xs : List ℕ) (f : FramingIo)
    → length f.write_buffer + 2 * length xs ≤ 42
    → add_all xs f ≡ record f { write_buffer = f.write_buffer ++ stuff xs }
add_all_lem [] f room = ap (λ b. record f { write_buffer = b }) (sym (append-nil f.write_buffer))
add_all_lem (x ∷ xs) f room =
    ap (λ p. add_all xs p.1) (add_early x f (omega arith))
    ∙ add_all_lem xs (with_octet x f)
        (omega (arith, length-append f.write_buffer (stuff_octet x), (length-stuff_octet x).1))
    ∙ ap (λ b. record f { write_buffer = b })
        (append_assoc f.write_buffer (stuff_octet x) (stuff xs))

abbrev pub header_octets : ℕ → ℕ → ℕ → List ℕ
header_octets len local_addr remote_addr =
    local_addr ∷ remote_addr ∷ len % 256 ∷ (len / 256) % 256 ∷ []

add_header_lem :
    (len remote_addr : ℕ) (f : FramingIo)
    → add_header len remote_addr f ≡ record f {
      write_buffer = framing_begin_flag ∷ stuff (header_octets len f.local_addr remote_addr);
    }
unfolding add_header
add_header_lem len remote_addr f =
    add_all_lem (header_octets len f.local_addr remote_addr)
      (record f { write_buffer = framing_begin_flag ∷ [] }) (omega arith)

module _ (t : Transport) (sent : t.World → List ℕ)
    (writes_all : (bytes : List ℕ) (w : t.World)
      → ((t.write bytes w).0 ≡ pos (length bytes))
        × (sent (t.write bytes w).1 ≡ sent w ++ bytes)) where
  transport_write_lem :
      (f : FramingIo) (w : t.World)
      → transport_write t f w ≡ (true, record f { write_buffer = [] }, (t.write f.write_buffer w).1)
  unfolding transport_write write_rounds
  transport_write_lem f w =
      let same : (length f.write_buffer == length f.write_buffer) ≡ true = ==_refl _ in
      let done : ltb (length f.write_buffer) (length f.write_buffer) ≡ false = ground arith in
      let plus : 0 + length f.write_buffer ≡ length f.write_buffer = omega arith in
      rw ((writes_all f.write_buffer w).0, plus, done, same)

  -- What a loop from `f` and `w` on leaves behind when it has written the octets.
  record Wrote (f : FramingIo) (w : t.World) (crc : ℕ) (octets : List ℕ)
      (result : Option (Bool × ℕ × FramingIo × t.World)) : Type 0 where
    io : FramingIo
    world : t.World
    done : result ≡ some (true, crc_of crc octets, io, world)
    bytes : sent world ++ io.write_buffer ≡ sent w ++ (f.write_buffer ++ stuff octets)
    small : length io.write_buffer ≤ 42

  octet_at-drop :
      (i : ℕ) (buf : List ℕ) {x : ℕ} {xs : List ℕ} → drop i buf ≡ x ∷ xs → octet_at i buf ≡ x
  octet_at-drop i buf e = rw (e, octet_at) refl

  write_loop_lem :
      (fuel : ℕ) (buf : List ℕ) (written crc : ℕ) (f : FramingIo) (w : t.World) (octets : List ℕ)
      → drop written buf ≡ octets
      → written + length octets ≡ length buf
      → length buf < 2 ^ 16
      → length f.write_buffer ≤ 42
      → 2 * length octets + min 1 (length f.write_buffer) < fuel
      → Wrote f w crc octets (write_loop t fuel buf written crc true f w)
  unfolding write_loop
  write_loop_lem zero buf written crc f w octets e size short room enough = absurd (omega arith)
  write_loop_lem (suc fuel) buf written crc f w [] e size short room enough =
      let over : ltb written (length buf) ≡ false = ground (arith, size) in
      record {
        io = f;
        world = w;
        done = rw over;
        bytes = ap (λ xs. sent w ++ xs) (sym (append-nil f.write_buffer));
        small = room;
      }
  write_loop_lem (suc fuel) buf written crc f w (x ∷ xs) e size short room enough =
      let inside : ltb written (length buf) ≡ true = ground (arith, size) in
      let here : octet_at written buf ≡ x = octet_at-drop written buf e in
      elim (add-cases x f room) [
        | inl (added, fits) ↦
            let wrap : (written + 1) % 2 ^ 16 ≡ written + 1 = omega (arith, size) in
            let tail : drop (written + 1) buf ≡ xs =
              sym (drop-drop 1 written buf) ∙ ap (drop 1) e in
            let r =
              write_loop_lem fuel buf (written + 1) (update_crc crc x) (with_octet x f) w xs tail
                (omega (arith, size)) short fits (omega arith) in
            record {
              io = r.io;
              world = r.world;
              done =
                  rw (inside, here, added)
                    (ap (λ m. write_loop t fuel buf m (update_crc crc x) true (with_octet x f) w)
                        wrap
                      ∙ r.done);
              bytes =
                  r.bytes
                  ∙ ap (λ ys. sent w ++ ys)
                      (append_assoc f.write_buffer (stuff_octet x) (stuff xs));
              small = r.small;
            }
        | inr (full, filled) ↦
            let w' = (t.write f.write_buffer w).1 in
            let r =
              write_loop_lem fuel buf written crc (record f { write_buffer = [] }) w' (x ∷ xs) e
                size short (omega arith) (omega arith) in
            record {
              io = r.io;
              world = r.world;
              done = rw (inside, here, full, transport_write_lem f w) r.done;
              bytes =
                  r.bytes
                  ∙ ap (λ ys. ys ++ stuff (x ∷ xs)) (writes_all f.write_buffer w).1
                  ∙ append_assoc (sent w) f.write_buffer (stuff (x ∷ xs));
              small = r.small;
            }
      ]

  stuff-append : (xs ys : List ℕ) → stuff (xs ++ ys) ≡ stuff xs ++ stuff ys
  stuff-append [] ys = refl
  stuff-append (x ∷ xs) ys =
      ap (λ zs. stuff_octet x ++ zs) (stuff-append xs ys)
      ∙ sym (append_assoc (stuff_octet x) (stuff xs) (stuff ys))

  nothing : (xs : List ℕ) → ltb 0 (length xs) ≡ false → xs ≡ []
  nothing [] e = refl
  nothing (x ∷ xs) e = absurd (ground arith)

  flush_lem :
      (len crc : ℕ) (f : FramingIo) (w : t.World)
      → (f' : FramingIo) × (w' : t.World) × (flush t len (some (true, crc, f, w))
          ≡ some (len, f', w'))
        × (f'.write_buffer ≡ [])
        × (sent w' ≡ sent w ++ f.write_buffer)
  flush_lem len crc f w = elim (Bool-cases (ltb 0 (length f.write_buffer))) [
    | inl e ↦ (
      record f { write_buffer = [] },
      (t.write f.write_buffer w).1,
      rw (e, transport_write_lem f w) refl,
      refl,
      (writes_all f.write_buffer w).1,
    )
    | inr e ↦ (
      f,
      w,
      rw e refl,
      nothing f.write_buffer e,
      sym (append-nil (sent w)) ∙ ap (λ b. sent w ++ b) (sym (nothing f.write_buffer e)),
    )
  ]

  -- Through a stream that takes all it is given, a message shorter than 2^16 is written whole, in no more rounds than twice its length and a few, as the begin flag followed by the stuffed sender's address, receiver's address, length, payload and CRC of the payload, the last two numbers with the low octet first; the write buffer is left empty.
  pub write_framed_msg_lem :
      (fuel : ℕ) (buf : List ℕ) (remote_addr : ℕ) (f : FramingIo) (w : t.World)
      → length buf < 2 ^ 16
      → 2 * length buf + 5 < fuel
      → (f' : FramingIo) × (w' : t.World) × (write_framed_msg t fuel buf remote_addr f w
          ≡ some (length buf, f', w'))
        × (f'.write_buffer ≡ [])
        × (sent w'
            ≡ sent w
              ++ (framing_begin_flag
                  ∷ stuff (
                      header_octets (length buf) f.local_addr remote_addr
                      ++ (buf ++ crc_bytes (crc_of 0 buf)))))
  unfolding write_framed_msg
  write_framed_msg_lem fuel buf remote_addr f w short enough =
      let header = header_octets (length buf) f.local_addr remote_addr in
      let f1 : FramingIo = record f { write_buffer = framing_begin_flag ∷ stuff header } in
      let p =
        write_loop_lem fuel buf 0 0 f1 w buf refl (omega arith) short
          (omega (arith, length-stuff header)) (omega arith) in
      let crc = crc_bytes (crc_of 0 buf) in
      let q =
        write_loop_lem fuel crc 0 (crc_of 0 buf) p.io p.world crc refl refl (omega arith) p.small
          (omega arith) in
      let (f', w', done, clean, bytes) =
        flush_lem (length buf) (crc_of (crc_of 0 buf) crc) q.io q.world in
      (
        f',
        w',
        ap (λ f. flush t (length buf) (write_crc t fuel (write_loop t fuel buf 0 0 true f w)))
              (add_header_lem (length buf) remote_addr f)
            ∙ ap (λ r. flush t (length buf) (write_crc t fuel r)) p.done
            ∙ ap (flush t (length buf)) q.done
            ∙ done,
        clean,
        bytes
            ∙ q.bytes
            ∙ sym (append_assoc (sent p.world) p.io.write_buffer (stuff crc))
            ∙ ap (λ xs. xs ++ stuff crc) p.bytes
            ∙ append_assoc (sent w) (f1.write_buffer ++ stuff buf) (stuff crc)
            ∙ ap (λ xs. sent w ++ xs)
                (append_assoc f1.write_buffer (stuff buf) (stuff crc)
                  ∙ ap (λ xs. framing_begin_flag ∷ xs)
                      (sym (
                        stuff-append header (buf ++ crc)
                        ∙ ap (λ xs. stuff header ++ xs) (stuff-append buf crc)))),
      )
