-- ===== src/Framing/Write.antt =====
-- The writer of StreamFramingProtocol.cpp.
pub mod Wire
use Prim.Native.Nat.{bit_xor}
use micro_xrce_dds_agent.Common.{
  ℕ, zero, suc, ◌+◌, ◌/◌, ◌%◌, ◌^◌, Bool, true, false, ◌&&◌, List, [], ◌∷◌, ◌++◌, Option, none,
  some, length, ltb, ◌==◌, if◌then◌else◌,
}
use micro_xrce_dds_agent.Common.Int.{ℤ, pos, negsuc}
use micro_xrce_dds_agent.Framing.{
  FramingIo, Transport, framing_begin_flag, framing_esc_flag, framing_xor_flag, buffer_size,
  is_flag, octet_at, update_crc,
}

unfoldable pub add_next_octet : ℕ → FramingIo → Bool × FramingIo
add_next_octet octet f =
    let pos = length f.write_buffer in
    if is_flag octet
    then (if ltb ((pos + 1) % 2 ^ 8) buffer_size
        then (
          true,
          record f {
            write_buffer =
                f.write_buffer ++ (framing_esc_flag ∷ bit_xor octet framing_xor_flag ∷ []);
          },
        )
        else (false, f))
    else (if ltb pos buffer_size
        then (true, record f { write_buffer = f.write_buffer ++ (octet ∷ []) })
        else (false, f))

abbrev pub positive : ℤ → ℕ
positive (pos n) = n
positive (negsuc n) = 0

-- The begin flag and the header in the write buffer.
unfoldable pub add_header : ℕ → ℕ → FramingIo → FramingIo
unfolding add_next_octet
add_header len remote_addr f =
    let f0 : FramingIo = record f { write_buffer = framing_begin_flag ∷ [] } in
    let f1 = (add_next_octet f0.local_addr f0).1 in
    let f2 = (add_next_octet remote_addr f1).1 in
    let f3 = (add_next_octet (len % 256) f2).1 in (add_next_octet ((len / 256) % 256) f3).1

module _ (t : Transport) where
  -- The loop of `transport_write`: the bytes written. Each round but the last writes a byte, so
  -- one round more than there are bytes is enough.
  unfoldable pub write_rounds : ℕ → List ℕ → ℕ → t.World → ℕ × t.World
  write_rounds zero bytes written w = (written, w)
  write_rounds (suc fuel) bytes written w =
      let (result, w') = t.write bytes w in
      let last_written = positive result in
      let written' = written + last_written in
      let again = write_rounds fuel bytes written' w' in
      if ltb written' (length bytes) && ltb 0 last_written then again else (written', w')

  unfoldable pub transport_write : FramingIo → t.World → Bool × FramingIo × t.World
  unfolding write_rounds
  transport_write f w =
      let (written, w') = write_rounds (suc (length f.write_buffer)) f.write_buffer 0 w in
      if length f.write_buffer == written
      then (true, record f { write_buffer = [] }, w')
      else (false, f, w')

  -- `while (written_len < len && cond)`; `none` when the fuel has run out. `written_len` is a
  -- `uint16_t`, and `len` the length of `buf`.
  unfoldable pub write_loop :
      ℕ → List ℕ → ℕ → ℕ → Bool → FramingIo → t.World → Option (Bool × ℕ × FramingIo × t.World)
  write_loop zero buf written crc cond f w = none
  write_loop (suc fuel) buf written crc cond f w =
      let octet = octet_at written buf in
      let (added, f') = add_next_octet octet f in
      let (flushed, f'', w') = transport_write f w in
      let next = write_loop fuel buf ((written + 1) % 2 ^ 16) (update_crc crc octet) cond f' w in
      let retry = write_loop fuel buf written crc flushed f'' w' in
      if ltb written (length buf) && cond
      then (if added then next else retry)
      else some (cond, crc, f, w)

  -- The final flush, and the result.
  abbrev pub flush : ℕ → Option (Bool × ℕ × FramingIo × t.World) → Option (ℕ × FramingIo × t.World)
  flush len none = none
  flush len (some (cond, crc, f, w)) =
      let (flushed, f', w') = transport_write f w in
      if cond && ltb 0 (length f.write_buffer)
      then some (if flushed then len else 0, f', w')
      else some (if cond then len else 0, f, w)

  -- The two bytes of the CRC.
  abbrev pub write_crc :
      ℕ → Option (Bool × ℕ × FramingIo × t.World) → Option (Bool × ℕ × FramingIo × t.World)
  write_crc fuel none = none
  write_crc fuel (some (cond, crc, f, w)) =
      write_loop fuel (crc % 256 ∷ (crc / 256) % 256 ∷ []) 0 crc cond f w

  -- At most `fuel` rounds of each of the two loops.
  unfoldable pub write_framed_msg :
      ℕ → List ℕ → ℕ → FramingIo → t.World → Option (ℕ × FramingIo × t.World)
  unfolding write_loop add_header
  write_framed_msg fuel buf remote_addr f w =
      flush (length buf)
        (write_crc fuel (write_loop fuel buf 0 0 true (add_header (length buf) remote_addr f) w))
