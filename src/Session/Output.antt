-- ===== src/Session/Output.antt =====
-- The output stream methods of Session.hpp.
use micro_xrce_dds_agent.Common.{
  ℕ, Bool, false, List, ◌++◌, Option, none, some, map, length, replicate, if◌then◌else◌,
}
use micro_xrce_dds_agent.Common.Dict.{find, assign}
use micro_xrce_dds_agent.Cdr.{Cdr}
use micro_xrce_dds_agent.Message.Output.{OutputMessage, Submessage}
use micro_xrce_dds_agent.OutputStream.None as NoneOut
use micro_xrce_dds_agent.OutputStream.BestEffort as BestEffortOut
use micro_xrce_dds_agent.OutputStream.Reliable as ReliableOut
use micro_xrce_dds_agent.OutputStream.Reliable.{ReliableOutputStream, HeartbeatPayload}
use micro_xrce_dds_agent.Session.{
  Session, Config, is_none_stream, is_besteffort_stream, is_reliable_stream, on_stream,
}

module _ (c : Cdr) where
  -- A vector of as many zeros as there are streams, behind which the ids are pushed.
  unfoldable pub get_output_streams : Session c → List ℕ
  get_output_streams s =
      replicate (length s.reliable_ostreams) 0 ++ map (λ entry. entry.0) s.reliable_ostreams

  -- `get_reliable_output_stream`: the stream of the id, made if it is not there.
  unfoldable pub get_reliable_output_stream : ℕ → Session c → ReliableOutputStream c × Session c
  get_reliable_output_stream stream_id s = elim (find stream_id s.reliable_ostreams) [
    | some stream ↦ (stream, s)
    | none ↦ (
      ReliableOut.init c,
      record s { reliable_ostreams = assign stream_id (ReliableOut.init c) s.reliable_ostreams },
    )
  ]

  abbrev put_reliable : ℕ → ReliableOutputStream c → Session c → Session c
  put_reliable stream_id stream s = record s {
    reliable_ostreams = assign stream_id stream s.reliable_ostreams;
  }

  -- `none` is what it is for the reliable stream.
  unfoldable pub push_output_submessage :
      ℕ → Config → ℕ → ℕ → Submessage → Session c → Option (Bool × Session c)
  unfolding get_reliable_output_stream
  push_output_submessage fuel config stream_id id submessage s =
      let (none_rv, none_stream) =
        NoneOut.push_submessage c config.best_effort_stream_depth s.session_info id submessage
          s.none_ostream in
      let (best_effort_rv, best_effort) =
        on_stream stream_id (BestEffortOut.init c)
          (BestEffortOut.push_submessage c config.best_effort_stream_depth s.session_info stream_id
            id submessage)
          s.best_effort_ostreams in
      let (stream, s') = get_reliable_output_stream stream_id s in
      let reliable =
        ReliableOut.push_submessage c fuel config.reliable_stream_depth s.session_info stream_id id
          submessage stream in
      if is_none_stream stream_id
      then some (none_rv, record s { none_ostream = none_stream })
      else (if is_besteffort_stream stream_id
          then some (best_effort_rv, record s { best_effort_ostreams = best_effort })
          else (elim reliable [
            | none ↦ none
            | some (rv, stream') ↦ some (rv, put_reliable stream_id stream' s')
          ]))

  abbrev as_found : Option (OutputMessage c) → Option (Option (OutputMessage c))
  as_found none = none
  as_found (some m) = some (some m)

  unfoldable pub get_next_output_message :
      ℕ → Session c → Option (Option (OutputMessage c)) × Session c
  unfolding get_reliable_output_stream
  get_next_output_message stream_id s =
      let (none_message, none_stream) = NoneOut.pop_message c s.none_ostream in
      let (best_effort_message, best_effort) =
        on_stream stream_id (BestEffortOut.init c) (BestEffortOut.pop_message c)
          s.best_effort_ostreams in
      let (stream, s') = get_reliable_output_stream stream_id s in
      let (message, stream') = ReliableOut.get_next_message c stream in
      if is_none_stream stream_id
      then (as_found none_message, record s { none_ostream = none_stream })
      else (if is_besteffort_stream stream_id
          then (as_found best_effort_message, record s { best_effort_ostreams = best_effort })
          else (message, put_reliable stream_id stream' s'))

  unfoldable pub get_output_message : ℕ → ℕ → Session c → Option (OutputMessage c) × Session c
  unfolding get_reliable_output_stream
  get_output_message stream_id seq_num s =
      let (stream, s') = get_reliable_output_stream stream_id s in
      if is_reliable_stream stream_id
      then (ReliableOut.get_message c seq_num stream, s')
      else (none, s)

  unfoldable pub update_from_acknack : ℕ → ℕ → Session c → Session c
  unfolding get_reliable_output_stream
  update_from_acknack stream_id first_unacked s =
      let (stream, s') = get_reliable_output_stream stream_id s in
      if is_reliable_stream stream_id
      then put_reliable stream_id (ReliableOut.update_from_acknack c first_unacked stream) s'
      else s

  -- The heartbeat is the caller's where the stream is not reliable.
  unfoldable pub fill_heartbeat :
      ℕ → HeartbeatPayload → Session c → Bool × HeartbeatPayload × Session c
  unfolding get_reliable_output_stream
  fill_heartbeat stream_id heartbeat s =
      let (stream, s') = get_reliable_output_stream stream_id s in
      let (rv, filled) = ReliableOut.fill_heartbeat c heartbeat stream in
      if is_reliable_stream stream_id
      then (rv, record filled { stream_id = stream_id }, s')
      else (false, heartbeat, s)
