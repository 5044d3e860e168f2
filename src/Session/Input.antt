-- ===== src/Session/Input.antt =====
-- The input stream methods of Session.hpp.
use micro_xrce_dds_agent.Common.{ℕ, Bool, Option, if◌then◌else◌}
use micro_xrce_dds_agent.Common.Dict.{find_or, assign}
use micro_xrce_dds_agent.Cdr.{Cdr}
use micro_xrce_dds_agent.Message.Input.{InputMessage}
use micro_xrce_dds_agent.InputStream.None as NoneIn
use micro_xrce_dds_agent.InputStream.BestEffort as BestEffortIn
use micro_xrce_dds_agent.InputStream.Reliable as ReliableIn
use micro_xrce_dds_agent.InputStream.Reliable.{ReliableInputStream, AcknackPayload}
use micro_xrce_dds_agent.Session.{
  Session, Config, is_none_stream, is_besteffort_stream, is_reliable_stream, on_stream,
}

module _ (c : Cdr) where
  unfoldable pub push_input_message : Config → InputMessage c → ℕ → ℕ → Session c → Bool × Session c
  push_input_message config message stream_id sequence_nr s =
      let (none_rv, none_stream) =
        NoneIn.push_message config.best_effort_stream_depth message s.none_istream in
      let (best_effort_rv, best_effort) =
        on_stream stream_id BestEffortIn.init
          (BestEffortIn.push_message config.best_effort_stream_depth sequence_nr message)
          s.best_effort_istreams in
      let (reliable_rv, reliable) =
        on_stream stream_id (ReliableIn.init c)
          (ReliableIn.push_message c config.reliable_stream_depth sequence_nr message)
          s.reliable_istreams in
      if is_none_stream stream_id
      then (none_rv, record s { none_istream = none_stream })
      else (if is_besteffort_stream stream_id
          then (best_effort_rv, record s { best_effort_istreams = best_effort })
          else (reliable_rv, record s { reliable_istreams = reliable }))

  unfoldable pub pop_input_message : ℕ → Session c → Option (InputMessage c) × Session c
  pop_input_message stream_id s =
      let (none_message, none_stream) = NoneIn.pop_message s.none_istream in
      let (best_effort_message, best_effort) =
        on_stream stream_id BestEffortIn.init BestEffortIn.pop_message s.best_effort_istreams in
      let (reliable_message, reliable) =
        on_stream stream_id (ReliableIn.init c) (ReliableIn.pop_message c) s.reliable_istreams in
      if is_none_stream stream_id
      then (none_message, record s { none_istream = none_stream })
      else (if is_besteffort_stream stream_id
          then (best_effort_message, record s { best_effort_istreams = best_effort })
          else (reliable_message, record s { reliable_istreams = reliable }))

  abbrev reliable_stream : ℕ → Session c → ReliableInputStream c
  reliable_stream stream_id s = find_or stream_id (ReliableIn.init c) s.reliable_istreams

  abbrev put_reliable : ℕ → ReliableInputStream c → Session c → Session c
  put_reliable stream_id stream s = record s {
    reliable_istreams = assign stream_id stream s.reliable_istreams;
  }

  unfoldable pub update_from_heartbeat : ℕ → ℕ → ℕ → Session c → Session c
  update_from_heartbeat stream_id first_unacked last_unacked s =
      if is_reliable_stream stream_id
      then put_reliable stream_id
          (ReliableIn.update_from_heartbeat c first_unacked last_unacked
            (reliable_stream stream_id s))
          s
      else s

  -- The payload is the caller's where the stream is not reliable.
  unfoldable pub fill_acknack : ℕ → AcknackPayload → Session c → AcknackPayload × Session c
  fill_acknack stream_id acknack s =
      if is_reliable_stream stream_id
      then (
        ReliableIn.fill_acknack c acknack (reliable_stream stream_id s),
        put_reliable stream_id (reliable_stream stream_id s) s,
      )
      else (acknack, s)

  unfoldable pub push_input_fragment : ℕ → InputMessage c → Session c → InputMessage c × Session c
  push_input_fragment stream_id message s =
      let (message', stream) = ReliableIn.push_fragment c message (reliable_stream stream_id s) in
      if is_reliable_stream stream_id
      then (message', put_reliable stream_id stream s)
      else (message, s)

  -- There is no test of the stream id here.
  unfoldable pub pop_input_fragment_message :
      ℕ → Session c → Option (Option (InputMessage c)) × Session c
  pop_input_fragment_message stream_id s =
      let (message, stream) = ReliableIn.pop_fragment_message c (reliable_stream stream_id s) in
      (message, put_reliable stream_id stream s)
