-- ===== src/Framing/Tests.antt =====
-- A stream that takes all it is given, at which the theorem on frames applies.
use micro_xrce_dds_agent.Common.{ℕ, ◌≡◌, refl, length, List, [], ◌∷◌, ◌++◌, some, arith}
use micro_xrce_dds_agent.Common.Int.{pos}
use micro_xrce_dds_agent.Framing.{FramingIo, Transport, create, framing_begin_flag}
use micro_xrce_dds_agent.Framing.Write.{write_framed_msg}
use micro_xrce_dds_agent.Framing.Write.Wire.{
  stuff, header_octets, crc_bytes, crc_of, write_framed_msg_lem,
}

-- The world is what has been sent.
abbrev line : Transport
line = record {
  World = List ℕ;
  write = λ bytes w. (pos (length bytes), w ++ bytes);
  read = λ n timeout w. ([], w);
  elapsed = λ before after. pos 0;
}

abbrev payload : List ℕ
payload = 1 ∷ 0x7E ∷ 2 ∷ 0x7D ∷ []

write_framed_msg_example :
    (f' : FramingIo) × (w' : List ℕ) × (write_framed_msg line 20 payload 5 (create 0) []
      ≡ some (4, f', w'))
    × (f'.write_buffer ≡ [])
    × (w'
        ≡ []
          ++ (framing_begin_flag
              ∷ stuff (header_octets 4 0 5 ++ (payload ++ crc_bytes (crc_of 0 payload)))))
unfolding create
write_framed_msg_example =
    write_framed_msg_lem line (λ w. w) (λ bytes w. (refl, refl)) 20 payload 5 (create 0) []
      (omega arith) (omega arith)
