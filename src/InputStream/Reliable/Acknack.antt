-- ===== src/InputStream/Reliable/Acknack.antt =====
-- The bitmap of an ACKNACK.
use micro_xrce_dds_agent.Common.{ℕ, Bool, true, false, not, ltb, is_some, Option, none, some, ◌&&◌}
use micro_xrce_dds_agent.Common.Dict.{find}
use micro_xrce_dds_agent.InputStream.Reliable.Window.{number}
use micro_xrce_dds_agent.SeqNum
use micro_xrce_dds_agent.Cdr.{Cdr}
use micro_xrce_dds_agent.InputStream.Reliable.{ReliableInputStream}

abbrev is_absent : {A : Type 0} → Option A → Bool
is_absent none = true
is_absent (some a) = false

module _ (c : Cdr) (s : ReliableInputStream c) where
  -- Message number `i` of the sender is among the first `announced` and is not stored.
  abbrev pub awaits : ℕ → ℕ → Bool
  awaits announced i = ltb i announced && not (is_some (find (number i) s.messages))
