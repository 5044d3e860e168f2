-- ===== src/Framing/Read.antt =====
-- The reader of StreamFramingProtocol.cpp: a ring buffer and a state machine.
use Prim.Native.Nat.{bit_xor}
use micro_xrce_dds_agent.Common.{
  ℕ, zero, suc, ◌+◌, ◌-◌, ◌*◌, ◌%◌, ◌^◌, Bool, true, false, not, ◌&&◌, List, [], ◌∷◌, ◌++◌, Option,
  none, some, length, take, drop, ltb, ◌==◌, if◌then◌else◌,
}
use micro_xrce_dds_agent.Common.Int.{ℤ, pos, negsuc, ◌-ℤ◌}
use micro_xrce_dds_agent.Framing.{
  FramingIo, Transport, InputState, uninitialized, reading_src_addr, reading_dst_addr,
  reading_len_lsb, reading_len_msb, reading_payload, reading_crc_lsb, reading_crc_msb,
  framing_begin_flag, framing_esc_flag, framing_xor_flag, buffer_size, octet_at, update_crc,
}

-- `buf[at..]` replaced by the bytes.
abbrev pub overwrite : ℕ → List ℕ → List ℕ → List ℕ
overwrite at bytes buf = take at buf ++ (bytes ++ drop (at + length bytes) buf)

abbrev pub is_drained : FramingIo → Bool
is_drained f = f.read_buffer_head == f.read_buffer_tail

-- Whether there is an octet, the octet, and the reader behind it.
unfoldable pub get_next_octet : FramingIo → Bool × ℕ × FramingIo
get_next_octet f =
    let octet = octet_at f.read_buffer_tail f.read_buffer in
    let next_tail = (f.read_buffer_tail + 1) % buffer_size in
    let escaped = octet_at next_tail f.read_buffer in
    let f2 = record f { read_buffer_tail = (f.read_buffer_tail + 2) % buffer_size } in
    if is_drained f
    then (false, 0, f)
    else (if not (octet == framing_esc_flag)
        then (not (octet == framing_begin_flag), octet, record f { read_buffer_tail = next_tail })
        else (if next_tail == f.read_buffer_head
            then (false, 0, f)
            else (if escaped == framing_begin_flag
                then (false, escaped, f2)
                else (true, bit_xor escaped framing_xor_flag, f2))))

-- `available_length`, for the head and the tail.
unfoldable pub available_length : ℕ → ℕ → ℕ × ℕ
available_length head tail =
    if head == tail
    then (buffer_size - 1, 0)
    else (if ltb tail head
        then (if ltb 0 tail then (buffer_size - head, tail - 1) else (buffer_size - head - 1, 0))
        else (tail - head - 1, 0))

-- The reading size, limited.
unfoldable pub limit_length : ℕ → ℕ × ℕ → ℕ × ℕ
limit_length max_size (first, second) =
    if ltb max_size first
    then (max_size % 2 ^ 8, 0)
    else (if ltb max_size (first + second)
        then (first, (max_size - first) % 2 ^ 8)
        else (first, second))

-- The bytes read are put at the head, which moves on.
unfoldable pub accept : List ℕ → FramingIo → FramingIo
accept bytes f = record f {
  read_buffer = overwrite f.read_buffer_head bytes f.read_buffer;
  read_buffer_head = (f.read_buffer_head + length bytes) % buffer_size;
}

-- `timeout -= (time_elapsed == 0) ? 1 : time_elapsed`.
abbrev pub after_elapsed : ℤ → ℤ → ℤ
after_elapsed timeout (pos zero) = timeout -ℤ pos 1
after_elapsed timeout (pos (suc n)) = timeout -ℤ pos (suc n)
after_elapsed timeout (negsuc n) = timeout -ℤ negsuc n

module _ (t : Transport) where
  -- The two reads: the number of bytes, the reader and the world.
  unfoldable pub read_parts : ℕ × ℕ → ℤ → FramingIo → t.World → ℕ × FramingIo × t.World
  unfolding accept
  read_parts (first, second) timeout f w =
      let (bytes, w') = t.read first timeout w in
      let f' = accept bytes f in
      let (more_bytes, w'') = t.read second (pos 0) w' in
      if ltb 0 first
      then (if ltb 0 (length bytes) && ((length bytes == first) && ltb 0 second)
          then (length bytes + length more_bytes, accept more_bytes f', w'')
          else (length bytes, f', w'))
      else (0, f, w)

  -- An empty buffer starts at its beginning again.
  unfoldable pub transport_read : ℕ → ℤ → FramingIo → t.World → ℕ × ℤ × FramingIo × t.World
  unfolding available_length limit_length read_parts
  transport_read max_size timeout f w =
      let f' =
        if is_drained f then record f { read_buffer_head = 0; read_buffer_tail = 0 } else f in
      let available =
        limit_length max_size (available_length f.read_buffer_head f.read_buffer_tail) in
      let (bytes_read, f'', w') = read_parts available timeout f' w in
      (bytes_read, after_elapsed timeout (t.elapsed w w'), f'', w')

  -- What `read_framed_msg` changes: the reader, the caller's buffer, remote address and timeout,
  -- the world, the result and `exit_cond`.
  pub record Call : Type 0 where
    pub io : FramingIo
    pub buf : List ℕ
    pub remote_addr : ℕ
    pub timeout : ℤ
    pub world : t.World
    pub rv : ℕ
    pub exit_cond : Bool

  -- Where a state got no octet: more is read, else a begin flag starts a frame, else the call ends.
  unfoldable pub refill : ℕ → ℕ → Call → Call
  unfolding transport_read
  refill max_size octet k =
      let (bytes_read, timeout, f, w) = transport_read max_size k.timeout k.io k.world in
      let k' = record k { io = f; timeout = timeout; world = w } in
      if ltb 0 bytes_read
      then k'
      else (if framing_begin_flag == octet
          then record k' { io = record f { state = reading_src_addr } }
          else record k' { exit_cond = true })

  -- The octets up to a begin flag; the tail comes to the head in less rounds than `buffer_size`.
  unfoldable pub skip_to_flag : ℕ → ℕ → FramingIo → ℕ × FramingIo
  skip_to_flag zero octet f = (octet, f)
  skip_to_flag (suc fuel) octet f =
      let rest =
        skip_to_flag fuel (octet_at f.read_buffer_tail f.read_buffer)
          (record f { read_buffer_tail = (f.read_buffer_tail + 1) % buffer_size }) in
      if not (framing_begin_flag == octet) && not (is_drained f) then rest else (octet, f)

  -- The loop of the payload: the octet tried last, the reader and the caller's buffer. Every
  -- octet takes a byte of the read buffer, so `buffer_size` rounds are enough.
  unfoldable pub read_payload : ℕ → ℕ → FramingIo → List ℕ → ℕ × FramingIo × List ℕ
  unfolding get_next_octet
  read_payload zero octet f buf = (octet, f, buf)
  read_payload (suc fuel) octet f buf =
      let (got, octet', f') = get_next_octet f in
      let rest =
        read_payload fuel octet'
          (record f' {
            msg_pos = (f'.msg_pos + 1) % 2 ^ 16;
            cmp_crc = update_crc f'.cmp_crc octet';
          })
          (overwrite f'.msg_pos (octet' ∷ []) buf) in
      if ltb f.msg_pos f.msg_len then (if got then rest else (octet', f', buf)) else (octet, f, buf)

  abbrev to_state : InputState → FramingIo → Call → Call
  to_state next f k = record k { io = record f { state = next } }

  unfoldable pub step_uninitialized : Call → Call
  unfolding skip_to_flag
  step_uninitialized k =
      let (octet, f) = skip_to_flag buffer_size 0 k.io in
      if framing_begin_flag == octet
      then to_state reading_src_addr f k
      else record k { io = f; exit_cond = true }

  unfoldable pub step_src_addr : Call → Call
  unfolding get_next_octet refill
  step_src_addr k =
      let (got, octet, f) = get_next_octet k.io in
      let f' = record f { remote_addr = octet } in
      if got then to_state reading_dst_addr f' k else refill 4 octet (record k { io = f' })

  unfoldable pub step_dst_addr : Call → Call
  unfolding get_next_octet refill
  step_dst_addr k =
      let (got, octet, f) = get_next_octet k.io in
      if got
      then (if octet == f.local_addr
          then to_state reading_len_lsb f k
          else to_state uninitialized f k)
      else refill 3 octet (record k { io = f })

  unfoldable pub step_len_lsb : Call → Call
  unfolding get_next_octet refill
  step_len_lsb k =
      let (got, octet, f) = get_next_octet k.io in
      if got
      then to_state reading_len_msb (record f { msg_len = octet }) k
      else refill 2 octet (record k { io = f })

  -- A message longer than the caller's buffer ends the call.
  unfoldable pub step_len_msb : Call → Call
  unfolding get_next_octet refill
  step_len_msb k =
      let (got, octet, f) = get_next_octet k.io in
      let f' = record f {
        msg_len = (f.msg_len + octet * 2 ^ 8) % 2 ^ 16;
        msg_pos = 0;
        cmp_crc = 0;
      } in
      if got
      then (if ltb (length k.buf) f'.msg_len
          then record k { io = record f' { state = uninitialized }; exit_cond = true }
          else to_state reading_payload f' k)
      else refill 1 octet (record k { io = f })

  unfoldable pub step_payload : Call → Call
  unfolding read_payload transport_read
  step_payload k =
      let (octet, f, buf) = read_payload (buffer_size + 1) 0 k.io k.buf in
      let k' = record k { buf = buf } in
      let (bytes_read, timeout, f', w) =
        transport_read ((f.msg_len - f.msg_pos) + 2) k.timeout f k.world in
      let k'' = record k' { io = f'; timeout = timeout; world = w } in
      if f.msg_pos == f.msg_len
      then to_state reading_crc_lsb f k'
      else (if framing_begin_flag == octet
          then to_state reading_src_addr f k'
          else (if ltb 0 bytes_read then k'' else record k'' { exit_cond = true }))

  unfoldable pub step_crc_lsb : Call → Call
  unfolding get_next_octet refill
  step_crc_lsb k =
      let (got, octet, f) = get_next_octet k.io in
      if got
      then to_state reading_crc_msb (record f { msg_crc = octet }) k
      else refill 2 octet (record k { io = f })

  unfoldable pub step_crc_msb : Call → Call
  unfolding get_next_octet refill
  step_crc_msb k =
      let (got, octet, f) = get_next_octet k.io in
      let f' = record f { msg_crc = (f.msg_crc + octet * 2 ^ 8) % 2 ^ 16; state = uninitialized } in
      if got
      then (if f'.cmp_crc == f'.msg_crc
          then record k { io = f'; remote_addr = f'.remote_addr; rv = f'.msg_len; exit_cond = true }
          else record k { io = f'; exit_cond = true })
      else refill 1 octet (record k { io = f })

  -- The `switch`.
  unfoldable pub step : Call → Call
  unfolding step_uninitialized step_src_addr step_dst_addr step_len_lsb step_len_msb step_payload
      step_crc_lsb step_crc_msb
  step k = elim k.io.state [
    | uninitialized ↦ step_uninitialized k
    | reading_src_addr ↦ step_src_addr k
    | reading_dst_addr ↦ step_dst_addr k
    | reading_len_lsb ↦ step_len_lsb k
    | reading_len_msb ↦ step_len_msb k
    | reading_payload ↦ step_payload k
    | reading_crc_lsb ↦ step_crc_lsb k
    | reading_crc_msb ↦ step_crc_msb k
  ]

  -- `while (!exit_cond)`; `none` when the fuel has run out.
  unfoldable pub run : ℕ → Call → Option Call
  unfolding step
  run zero k = none
  run (suc fuel) k = let rest = run fuel (step k) in if k.exit_cond then some k else rest

  unfoldable pub read_framed_msg : ℕ → List ℕ → ℕ → ℤ → FramingIo → t.World → Option Call
  unfolding transport_read run
  read_framed_msg fuel buf remote_addr timeout f w =
      let (_, timeout', f', w') = transport_read 5 timeout f w in
      let k : Call = record {
        io = f;
        buf = buf;
        remote_addr = remote_addr;
        timeout = timeout;
        world = w;
        rv = 0;
        exit_cond = false;
      } in
      let k' = if is_drained f then record k { io = f'; timeout = timeout'; world = w' } else k in
      if is_drained k'.io then some k' else run fuel k'
