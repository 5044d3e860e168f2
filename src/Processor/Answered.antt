-- ===== src/Processor/Answered.antt =====
-- The ACKNACK for a packet of a reliable stream (`process_input_packet` in
-- src/cpp/processor/Processor.cpp): it goes to where the packet came from, whatever its submessages
-- were.
use micro_xrce_dds_agent.Common.{
  ℕ, zero, suc, ◌+◌, ◌≡◌, refl, ◌∙◌, Bool, true, false, List, [], ◌∷◌, ◌++◌, Option, none, some,
  inl, inr, Bool-cases,
}
use micro_xrce_dds_agent.Common.Map as Map
use micro_xrce_dds_agent.Cdr.{Cdr}
use micro_xrce_dds_agent.Message.Header.{MessageHeader, header_size, subheader_size}
use micro_xrce_dds_agent.Message.Input.{prepare_next_submessage}
use micro_xrce_dds_agent.InputStream.Reliable.{AcknackPayload}
use micro_xrce_dds_agent.OutputStream.Types.{streamid_none}
use micro_xrce_dds_agent.Session.{is_reliable_stream}
use micro_xrce_dds_agent.Session.Input.{
  push_input_fragment, pop_input_fragment_message, pop_input_message,
}
use micro_xrce_dds_agent.Client.Proxy.{ProxyClient}
use micro_xrce_dds_agent.Root.{ClientKey, get_client}
use micro_xrce_dds_agent.Processor.Types.{InputPacket, OutputPacket}
use micro_xrce_dds_agent.Processor.Clients.{Agent, is_no_session, process_create_client_submessage}
use micro_xrce_dds_agent.Processor.Heartbeats.{message_of}
use micro_xrce_dds_agent.Processor.Requests.{Handling, acknack_id}
use micro_xrce_dds_agent.Processor.Reading.{Started}
use micro_xrce_dds_agent.Processor.Dispatch.{
  Setting, Turn, with_message, kept_readers, on_create_client, process_fragment_submessage,
  process_submessage, process_input_message,
}
use micro_xrce_dds_agent.Processor.Packets.{
  key_of, process_messages, acknowledge, of_client, process_input_packet,
}
use micro_xrce_dds_agent.Processor.Untouched.{OnSome, OnSome-elim, OnSome-bind, OnSome-unless}
use micro_xrce_dds_agent.Processor.Isolation.{TurnReturned, process_submessage_each}

module _ {c : Cdr} {World EndPoint : Type 0} where
  -- The packet is from where it was.
  abbrev Stays : Turn c World EndPoint → Turn c World EndPoint → Type 0
  Stays t t' = t'.0.packet.source ≡ t.0.packet.source

  onwards :
      (t t' : Turn c World EndPoint) (o : Option (Turn c World EndPoint))
      → Stays t t'
      → OnSome (Stays t') o
      → OnSome (Stays t) o
  onwards t t' none before after = tt
  onwards t t' (some left) before after = after ∙ before

  next :
      (again : Turn c World EndPoint → Option (Turn c World EndPoint)) (rv : Bool)
      (t t' : Turn c World EndPoint)
      → Stays t t'
      → OnSome (Stays t') (again t')
      → OnSome
          (Stays t)
          (elim rv as (λ b. Option (Turn c World EndPoint)) [ true ↦ again t' | false ↦ some t' ])
  next again true t t' before after = onwards t t' (again t') before after
  next again false t t' before after = before

  -- The same of what a handler returns.
  abbrev Remains : Turn c World EndPoint → Option (Bool × Turn c World EndPoint) → Type 0
  Remains t o = OnSome (λ (r : Bool × Turn c World EndPoint). Stays t r.1) o

  spared :
      (h : Handling c World EndPoint) (started : List Started)
      (o : Option (Bool × Turn c World EndPoint))
      → TurnReturned c h o
      → Remains (h, started) o
  spared h started none holds = tt
  spared h started (some r) holds = holds.source

  kept_readers-Remains :
      (h : Handling c World EndPoint) (started : List Started)
      (o : Option (Bool × Handling c World EndPoint))
      → OnSome (λ (r : Bool × Handling c World EndPoint). r.1.packet.source ≡ h.packet.source) o
      → Remains (h, started) (kept_readers started o)
  kept_readers-Remains h started none holds = tt
  kept_readers-Remains h started (some r) holds = holds

module _ (c : Cdr) {World EndPoint : Type 0} ⦃q : Map.Eq EndPoint⦄ (fuel : ℕ)
    (x : Setting c World) where
  on_create_client-source :
      (h : Handling c World EndPoint)
      → OnSome
          (λ (r : Bool × Handling c World EndPoint). r.1.packet.source ≡ h.packet.source)
          (on_create_client c fuel x h)
  unfolding on_create_client
  on_create_client-source h =
      OnSome-elim _
        (process_create_client_submessage c x.client_codec x.environment x.uninitialized x.now
          h.packet h.agent)
        _ (λ r. refl)

  process_fragment_submessage-Remains :
      (input_message : Turn c World EndPoint → Option (Turn c World EndPoint))
      (t : Turn c World EndPoint)
      → ((t' : Turn c World EndPoint) → OnSome (Stays t') (input_message t'))
      → Remains t (process_fragment_submessage c fuel x input_message t)
  unfolding process_fragment_submessage
  process_fragment_submessage-Remains input_message (h, started) inner =
      let id = h.packet.message.header.stream_id in
      let pushed = push_input_fragment c id h.packet.message h.client.session in
      OnSome-unless _ (pop_input_fragment_message c id pushed.1).0 _ _ refl (λ made.
        OnSome-elim _ made _ (λ whole.
          OnSome-bind (λ t'. t'.0.packet.source ≡ h.packet.source) _ (input_message _) _ (inner _)
            (λ t' stays. stays)))

  process_submessage-Remains :
      (input_message : Turn c World EndPoint → Option (Turn c World EndPoint))
      (t : Turn c World EndPoint)
      → ((t' : Turn c World EndPoint) → OnSome (Stays t') (input_message t'))
      → Remains t (process_submessage c fuel x input_message t)
  process_submessage-Remains input_message (h, started) inner =
      process_submessage_each c fuel x (Remains (h, started)) input_message h started
        (kept_readers-Remains h started _ (on_create_client-source h))
        (λ fragment. process_fragment_submessage-Remains input_message (h, started) inner)
        (spared h started)

  process_input_message-Stays :
      (rounds : ℕ) (t : Turn c World EndPoint)
      → OnSome (Stays t) (process_input_message c fuel x rounds t)
  unfolding process_input_message
  process_input_message-Stays zero t = tt
  process_input_message-Stays (suc rounds) (h, started) =
      let message = (prepare_next_submessage c h.packet.message).1 in
      let again = process_input_message c fuel x rounds in
      elim (Bool-cases (prepare_next_submessage c h.packet.message).0) [
        | inl some_left ↦
            rw (some_left, process_input_message)
              (OnSome-bind (λ r. Stays (h, started) r.1) (Stays (h, started))
                (process_submessage c fuel x again (with_message message h, started)) _
                (process_submessage-Remains again (with_message message h, started)
                  (process_input_message-Stays rounds))
                (λ r stays.
                  next again r.0 (h, started) r.1 stays (process_input_message-Stays rounds r.1)))
        | inr done ↦ rw (done, process_input_message) refl
      ]

  process_messages-Stays :
      (rounds id : ℕ) (t : Turn c World EndPoint)
      → OnSome (Stays t) (process_messages c fuel x rounds id t)
  unfolding process_messages
  process_messages-Stays zero id t = tt
  process_messages-Stays (suc rounds) id (h, started) =
      OnSome-unless (Stays (h, started)) (pop_input_message c id h.client.session).0 _ _ refl
        (λ message.
          OnSome-bind (Stays (h, started)) (Stays (h, started))
            (process_input_message c fuel x fuel _) _ (process_input_message-Stays fuel _)
            (λ t' stays. onwards (h, started) t' _ stays (process_messages-Stays rounds id t')))

  -- The last packet that was sent is an ACKNACK for the packet's stream, with the session and the
  -- key of the packet's header, outside of the streams, and goes to where the packet came from.
  pub record IsAcknowledged (packet : InputPacket c EndPoint) (a : Agent c World EndPoint)
      : Type 0 where
    pub before : List (OutputPacket c EndPoint)
    pub answer : OutputPacket c EndPoint
    pub acknack : AcknackPayload
    pub sent : a.sent ≡ before ++ (answer ∷ [])
    pub destination : answer.destination ≡ packet.source
    pub stream : acknack.stream_id ≡ packet.message.header.stream_id
    pub message :
        (let header : MessageHeader = record packet.message.header {
          stream_id = streamid_none;
          sequence_nr = 0;
        } in
          let payload = x.codec.acknack acknack in
          answer.message
          ≡ message_of c header
              (header_size c header 0 + subheader_size c 0 + payload.serialized_size)
              acknack_id
              payload)

  of_client-IsAcknowledged :
      (key : ClientKey) (client : ProxyClient c World) (packet : InputPacket c EndPoint)
      (a : Agent c World EndPoint) (started : List Started)
      → is_reliable_stream packet.message.header.stream_id ≡ true
      → OnSome
          (λ (r : Agent c World EndPoint × List Started). IsAcknowledged packet r.0)
          (of_client c fuel x key client packet (a, started))
  unfolding of_client acknowledge
  of_client-IsAcknowledged key client packet a started reliable =
      OnSome-bind (λ (t : Turn c World EndPoint). t.0.packet.source ≡ packet.source) _
        (process_messages c fuel x fuel packet.message.header.stream_id _) _
        (process_messages-Stays fuel _ _)
        (λ t same. rw reliable (record {
          before = t.0.agent.sent;
          answer = _;
          acknack = _;
          sent = refl;
          destination = same;
          stream = refl;
          message = refl;
        }))

  -- A packet of a reliable stream of a client that the agent has is acknowledged, whatever its
  -- messages are and whatever their handlers do, unless the code throws or the fuel runs out: the
  -- last packet sent is an ACKNACK for its stream to where it came from.
  pub process_input_packet-IsAcknowledged :
      (client : ProxyClient c World) (packet : InputPacket c EndPoint) (a : Agent c World EndPoint)
      (started : List Started)
      → is_no_session packet.message.header.session_id ≡ false
      → get_client c (key_of c fuel x packet a) a.root ≡ some client
      → is_reliable_stream packet.message.header.stream_id ≡ true
      → OnSome
          (λ (r : Agent c World EndPoint × List Started). IsAcknowledged packet r.0)
          (process_input_packet c fuel x packet (a, started))
  unfolding process_input_packet
  process_input_packet-IsAcknowledged client packet a started in_session known reliable =
      rw (in_session, known, process_input_packet)
        (of_client-IsAcknowledged (key_of c fuel x packet a) client packet a started reliable)
