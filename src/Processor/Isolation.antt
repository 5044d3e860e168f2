-- ===== src/Processor/Isolation.antt =====
-- The submessages of a session and the other clients of the agent (`process_submessage` in
-- src/cpp/processor/Processor.cpp).
use micro_xrce_dds_agent.Processor.Acknack.{process_acknack_submessage}
use micro_xrce_dds_agent.Common.{
  if◌then◌else◌, ℕ, ◌≡◌, refl, Bool, true, false, List, Option, none, some, Option-cases, inl, inr,
  if_each, ◌==◌,
}
use micro_xrce_dds_agent.Common.Map as Map
use micro_xrce_dds_agent.Cdr.{Cdr}
use micro_xrce_dds_agent.OutputStream.Types.{streamid_none}
use micro_xrce_dds_agent.Session.Output.{push_output_submessage, get_next_output_message}
use micro_xrce_dds_agent.Client.Types.{
  StatusValue, status_err_unknown_reference, status_err_resources,
}
use micro_xrce_dds_agent.Processor.Clients.{is_no_session, process_create_client_submessage}
use micro_xrce_dds_agent.Processor.Data.{process_write_data_submessage}
use micro_xrce_dds_agent.Processor.Requests.{Handling, acknack_id}
use micro_xrce_dds_agent.Processor.Heartbeats.{get_info}
use micro_xrce_dds_agent.Processor.Reading.{
  Started, ReadDataPayload, refuse, reader_object, start, process_read_data_submessage,
}
use micro_xrce_dds_agent.Processor.Info.{
  process_get_info_submessage, process_timestamp_submessage, timestamp_reply_id,
}
use micro_xrce_dds_agent.Processor.Dispatch.{
  Setting, Turn, process_fragment_submessage, on_create_client, on_write_data, on_acknack,
  kept_readers, process_submessage, create_client_id, create_id, delete_id, write_data_id,
  read_data_id, heartbeat_id, reset_id, fragment_id, timestamp_id,
}
use micro_xrce_dds_agent.Processor.Untouched.{
  OnSome, OnSome-elim, taken-OnSome, Spares, left_alone, OnSome-trans, answer_on-Spares, Returned,
  process_create_submessage-Spares, process_delete_submessage-Spares,
  process_heartbeat_submessage-Spares, process_reset_submessage-Spares,
}

-- Either branch, the first where the test holds.
if_when :
    {A : Type 0} (P : A → Type 0) (b : Bool) (x y : A)
    → (b ≡ true → P x)
    → P y
    → P (if b then x else y)
if_when P true x y holds otherwise = holds refl
if_when P false x y holds otherwise = otherwise

module _ (c : Cdr) {World EndPoint : Type 0} where
  -- What a handler returns that may start a reader.
  abbrev pub TurnReturned :
      Handling c World EndPoint → Option (Bool × Turn c World EndPoint) → Type 0
  TurnReturned h o = OnSome (λ (r : Bool × Turn c World EndPoint). Spares c h r.1.0) o

module _ (c : Cdr) {World EndPoint : Type 0} ⦃q : Map.Eq EndPoint⦄ (fuel : ℕ)
    (x : Setting c World) where
  kept_readers-Spares :
      (h : Handling c World EndPoint) (started : List Started)
      (o : Option (Bool × Handling c World EndPoint))
      → Returned c h o
      → TurnReturned c h (kept_readers started o)
  kept_readers-Spares h started none holds = tt
  kept_readers-Spares h started (some (rv, left)) holds = holds

  on_create_client-Spares :
      (h : Handling c World EndPoint)
      → is_no_session h.packet.message.header.session_id ≡ false
      → Returned c h (on_create_client c fuel x h)
  unfolding on_create_client process_create_client_submessage
  on_create_client-Spares h in_session =
      rw (in_session, on_create_client, process_create_client_submessage)
        (left_alone c h _ refl refl refl)

  on_write_data-Spares : (h : Handling c World EndPoint) → Returned c h (on_write_data c fuel x h)
  unfolding on_write_data
  on_write_data-Spares h =
      OnSome-elim _
        (process_write_data_submessage x.writing c x.data_codec x.tweak h.packet.message
          h.client.store)
        _ (λ r. left_alone c h _ refl refl refl)

  on_acknack-Spares : (h : Handling c World EndPoint) → Returned c h (on_acknack c fuel x h)
  unfolding on_acknack process_acknack_submessage
  on_acknack-Spares h =
      left_alone c h _ refl refl (elim (Option-cases (x.codec.get_acknack h.packet.message).0) [
        | inl unread ↦ rw (unread, process_acknack_submessage) refl
        | inr (p, there) ↦ rw (there, process_acknack_submessage) refl
      ])

  get_info-Spares :
      (h : Handling c World EndPoint)
      → Returned c h (some (process_get_info_submessage c x.info_codec h))
  unfolding process_get_info_submessage
  get_info-Spares h = left_alone c h _ refl refl refl

  timestamp-Spares :
      (h : Handling c World EndPoint)
      → Returned c h
          (process_timestamp_submessage c x.info_codec fuel x.config x.received x.sending h)
  unfolding process_timestamp_submessage
  timestamp-Spares h = elim (Option-cases (x.info_codec.get_timestamp h.packet.message).0) [
    | inl unread ↦ rw (unread, process_timestamp_submessage) (left_alone c h _ refl refl refl)
    | inr (p, there) ↦
        rw (there, process_timestamp_submessage)
          (OnSome-elim _
            (push_output_submessage c fuel x.config streamid_none timestamp_reply_id _ _) _
            (λ r.
              taken-OnSome _ (get_next_output_message c streamid_none r.1).0 _ _
                (left_alone c h _ refl refl refl) (λ message. left_alone c h _ refl refl refl)))
  ]

  refused-Spares :
      (h : Handling c World EndPoint) (started : List Started)
      (o : Option (Handling c World EndPoint))
      → OnSome (Spares c h) o
      → TurnReturned c h (elim o as (λ o. Option (Bool × Turn c World EndPoint)) [
        | none ↦ none
        | some left ↦ some (true, (left, started))
      ])
  refused-Spares h started none holds = tt
  refused-Spares h started (some left) holds = holds

  read_data-Spares :
      (h : Handling c World EndPoint) (started : List Started)
      → TurnReturned c h (
          process_read_data_submessage c x.middleware x.read_codec x.codec fuel x.config x.joinable
            (h, started))
  unfolding process_read_data_submessage
  read_data-Spares h started = elim (Option-cases (x.read_codec.get_read_data h.packet.message).0) [
    | inl unread ↦ rw (unread, process_read_data_submessage) (left_alone c h _ refl refl refl)
    | inr (p, there) ↦
        rw (there, process_read_data_submessage)
          (elim (Option-cases (reader_object p.object_id h.client.store.objects)) [
            | inl unknown ↦
                rw (unknown, process_read_data_submessage) (refused p status_err_unknown_reference)
            | inr (o, known) ↦
                rw (known, process_read_data_submessage)
                  (elim (Option-cases (start x.joinable o p h.client.representation.client_key)) [
                    | inl busy ↦
                        rw (busy, process_read_data_submessage) (refused p status_err_resources)
                    | inr (reader, begun) ↦
                        rw (begun, process_read_data_submessage) (left_alone c h _ refl refl refl)
                  ])
          ])
  ]
    where
      refused :
          (p : ReadDataPayload) (value : StatusValue)
          → TurnReturned c h (
              refuse c x.middleware x.read_codec x.codec fuel x.config x.joinable p value started
                (record h {
                  packet = record h.packet {
                    message = (x.read_codec.get_read_data h.packet.message).1;
                  };
                }))
      refused p value = refused-Spares h started _ (
          OnSome-trans c x.middleware x.codec fuel x.config h _ _ (left_alone c h _ refl refl refl)
            (answer_on-Spares c x.middleware x.codec fuel x.config _ _ _ _))

  -- What holds of the results of CREATE_CLIENT and FRAGMENT and follows from what the other handlers
  -- spare holds of the result of a submessage.
  pub process_submessage_each :
      (P : Option (Bool × Turn c World EndPoint) → Type 0)
      (input_message : Turn c World EndPoint → Option (Turn c World EndPoint))
      (h : Handling c World EndPoint) (started : List Started)
      → P (kept_readers started (on_create_client c fuel x h))
      → ((h.packet.message.subheader.submessage_id == fragment_id) ≡ true
          → P (process_fragment_submessage c fuel x input_message (h, started)))
      → ((o : Option (Bool × Turn c World EndPoint)) → TurnReturned c h o → P o)
      → P (process_submessage c fuel x input_message (h, started))
  unfolding process_submessage
  process_submessage_each P input_message h started create_client fragment other =
      let id = h.packet.message.subheader.submessage_id in
      if_each P (id == create_client_id) _ _ create_client (
        if_each P (id == create_id) _ _
          (kept _ (process_create_submessage-Spares c x.middleware x.codec fuel x.config h))
          (if_each P (id == get_info) _ _
            (kept (some (process_get_info_submessage c x.info_codec h)) (get_info-Spares h))
            (if_each P (id == delete_id) _ _
              (kept _ (process_delete_submessage-Spares c x.middleware x.codec fuel x.config h))
              (if_each P (id == write_data_id) _ _ (kept _ (on_write_data-Spares h)) (
                if_each P (id == read_data_id) _ _ (other _ (read_data-Spares h started)) (
                  if_each P (id == acknack_id) _ _ (kept _ (on_acknack-Spares h)) (
                    if_each P (id == heartbeat_id) _ _
                      (kept _ (
                        process_heartbeat_submessage-Spares c x.middleware x.codec fuel x.config h))
                      (if_each P (id == reset_id) _ _
                        (kept _
                          (process_reset_submessage-Spares c x.middleware x.codec fuel x.config h))
                        (if_when P (id == fragment_id) _ _ fragment (
                          if_each P (id == timestamp_id) _ _ (kept _ (timestamp-Spares h))
                            (other _ (left_alone c h _ refl refl refl))))))))))))
    where
      kept :
          (o : Option (Bool × Handling c World EndPoint))
          → Returned c h o
          → P (kept_readers started o)
      kept o holds = other _ (kept_readers-Spares h started o holds)

  -- A submessage of a session, if it is not a FRAGMENT and its handler returns, leaves every other
  -- client of the agent what it was, deletes none of them and adds none; and the proxy stays that of
  -- the same client, and the packet from where it was.
  pub process_submessage-Spares :
      (input_message : Turn c World EndPoint → Option (Turn c World EndPoint))
      (h : Handling c World EndPoint) (started : List Started)
      → is_no_session h.packet.message.header.session_id ≡ false
      → (h.packet.message.subheader.submessage_id == fragment_id) ≡ false
      → TurnReturned c h (process_submessage c fuel x input_message (h, started))
  process_submessage-Spares input_message h started in_session whole =
      process_submessage_each (TurnReturned c h) input_message h started
        (kept_readers-Spares h started _ (on_create_client-Spares h in_session))
        (λ fragment. absurd (cc (whole, fragment))) (λ o holds. holds)
