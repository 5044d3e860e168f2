-- ===== src/Session.antt =====
-- include/uxr/agent/client/session/Session.hpp: the streams of a session by their ids. Each
-- operation holds the mutex of the map it uses, and `map[id]` makes a stream that is not there.
pub mod Input
pub mod Output
pub mod Isolation
pub mod Tests
use micro_xrce_dds_agent.Common.{
  ℕ, ◌^◌, Bool, true, false, not, ◌&&◌, List, [], ◌∷◌, ◌++◌, Option, none, some, map, length,
  replicate, ltb, leb, ◌==◌, if◌then◌else◌,
}
use micro_xrce_dds_agent.Common.Dict.{Dict, find_or, assign}
use micro_xrce_dds_agent.Cdr.{Cdr}
use micro_xrce_dds_agent.Message.Input.{InputMessage}
use micro_xrce_dds_agent.Message.Output.{OutputMessage, Submessage}
use micro_xrce_dds_agent.InputStream.None as NoneIn
use micro_xrce_dds_agent.InputStream.BestEffort as BestEffortIn
use micro_xrce_dds_agent.InputStream.Reliable as ReliableIn
use micro_xrce_dds_agent.InputStream.None.{NoneInputStream}
use micro_xrce_dds_agent.InputStream.BestEffort.{BestEffortInputStream}
use micro_xrce_dds_agent.InputStream.Reliable.{ReliableInputStream, AcknackPayload}
use micro_xrce_dds_agent.OutputStream.Types.{SessionInfo, streamid_none}
use micro_xrce_dds_agent.OutputStream.None as NoneOut
use micro_xrce_dds_agent.OutputStream.BestEffort as BestEffortOut
use micro_xrce_dds_agent.OutputStream.Reliable as ReliableOut
use micro_xrce_dds_agent.OutputStream.None.{NoneOutputStream}
use micro_xrce_dds_agent.OutputStream.BestEffort.{BestEffortOutputStream}
use micro_xrce_dds_agent.OutputStream.Reliable.{ReliableOutputStream, HeartbeatPayload}

-- RELIABLE_STREAM_DEPTH and BEST_EFFORT_STREAM_DEPTH, which the build sets.
pub record Config : Type 0 where
  pub reliable_stream_depth : ℕ
  pub best_effort_stream_depth : ℕ

abbrev pub streamid_builtin_reliable : ℕ
streamid_builtin_reliable = 0x80

unfoldable pub is_none_stream : ℕ → Bool
is_none_stream id = id == streamid_none

unfoldable pub is_besteffort_stream : ℕ → Bool
is_besteffort_stream id = ltb id streamid_builtin_reliable && not (id == streamid_none)

unfoldable pub is_reliable_stream : ℕ → Bool
is_reliable_stream id = leb streamid_builtin_reliable id

-- `map[id]` and an operation on the stream found or made there.
abbrev pub on_stream {ℓ κ} : {S : Type ℓ} {R : Type κ} → ℕ → S → (S → R × S) → Dict S → R × Dict S
on_stream id fresh operation m = let (r, s) = operation (find_or id fresh m) in (r, assign id s m)

abbrev pub on_each {ℓ} : {S : Type ℓ} → (S → S) → Dict S → Dict S
on_each operation [] = []
on_each operation ((id, s) ∷ m) = (id, operation s) ∷ on_each operation m

module _ (c : Cdr) where
  pub record Session : Type 0 where
    pub session_info : SessionInfo
    pub none_istream : NoneInputStream (InputMessage c)
    pub best_effort_istreams : Dict (BestEffortInputStream (InputMessage c))
    pub reliable_istreams : Dict (ReliableInputStream c)
    pub none_ostream : NoneOutputStream c
    pub best_effort_ostreams : Dict (BestEffortOutputStream c)
    pub reliable_ostreams : Dict (ReliableOutputStream c)

  -- The constructor.
  unfoldable pub create : SessionInfo → Session
  create info = record {
    session_info = info;
    none_istream = record { messages = [] };
    best_effort_istreams = [];
    reliable_istreams = [];
    none_ostream = record { messages = [] };
    best_effort_ostreams = [];
    reliable_ostreams = [];
  }

  unfoldable pub reset : Session → Session
  reset s = record s {
    best_effort_istreams = on_each BestEffortIn.reset s.best_effort_istreams;
    reliable_istreams = on_each (ReliableIn.reset c) s.reliable_istreams;
    none_ostream = NoneOut.reset c s.none_ostream;
    best_effort_ostreams = on_each (BestEffortOut.reset c) s.best_effort_ostreams;
    reliable_ostreams = on_each (ReliableOut.reset c) s.reliable_ostreams;
  }
