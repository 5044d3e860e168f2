-- ===== src/Processor/Strangers.antt =====
-- The packets of sessions that the agent does not have (`process_input_packet` in
-- src/cpp/processor/Processor.cpp).
use Prim.Native.Nat.{bit_and}
use micro_xrce_dds_agent.Common.{
  ℕ, ◌≡◌, refl, false, List, [], ◌∷◌, ◌++◌, none, some, ◌⊎◌, inl, inr, Option-cases, if_each, ◌==◌,
}
use micro_xrce_dds_agent.Common.Map as Map
use micro_xrce_dds_agent.Cdr.{Cdr}
use micro_xrce_dds_agent.Message.Input.{prepare_next_submessage}
use micro_xrce_dds_agent.Root.{get_client}
use micro_xrce_dds_agent.Processor.Types.{InputPacket, OutputPacket}
use micro_xrce_dds_agent.Processor.Clients.{Agent, is_no_session}
use micro_xrce_dds_agent.Processor.Heartbeats.{get_info}
use micro_xrce_dds_agent.Processor.Info.{process_get_info_packet}
use micro_xrce_dds_agent.Processor.Requests.{objk_client}
use micro_xrce_dds_agent.Processor.Reading.{Started}
use micro_xrce_dds_agent.Processor.Dispatch.{Setting, delete_id}
use micro_xrce_dds_agent.Processor.Packets.{key_of, of_unknown_client, process_input_packet}

module _ (c : Cdr) {World EndPoint : Type 0} where
  -- The clients and the sessions are what they were, and at most one packet was sent, to where the
  -- packet came from.
  pub record IsTurnedAway (packet : InputPacket c EndPoint) (a a' : Agent c World EndPoint)
      : Type 0 where
    pub root : a'.root ≡ a.root
    pub sessions : a'.sessions ≡ a.sessions
    pub answer :
        (a'.sent ≡ a.sent)
        ⊎ ((p : OutputPacket c EndPoint) × (a'.sent ≡ a.sent ++ (p ∷ []))
            × (p.destination ≡ packet.source))

module _ (c : Cdr) {World EndPoint : Type 0} ⦃q : Map.Eq EndPoint⦄ (fuel : ℕ)
    (x : Setting c World) where
  of_unknown_client-IsTurnedAway :
      (packet : InputPacket c EndPoint) (a : Agent c World EndPoint)
      → IsTurnedAway c packet a (of_unknown_client c fuel x packet a)
  unfolding of_unknown_client process_get_info_packet
  of_unknown_client-IsTurnedAway packet a =
      let (more, message) = prepare_next_submessage c packet.message in
      let id = message.subheader.submessage_id in
      if_each (IsTurnedAway c packet a) more _ _
        (if_each (IsTurnedAway c packet a) (id == delete_id) _ _
          (elim (Option-cases (x.codec.get_delete message).0) [
            | inl unread ↦ rw (unread, of_unknown_client) silent
            | inr (p, there) ↦
                rw (there, of_unknown_client)
                  (if_each (IsTurnedAway c packet a) (bit_and p.object_id.1 15 == objk_client) _ _
                    (answered _ refl) silent)
          ])
          (if_each (IsTurnedAway c packet a) (id == get_info) _ _ (answered _ refl) silent))
        silent
    where
      silent : IsTurnedAway c packet a a
      silent = record { root = refl; sessions = refl; answer = inl refl }

      answered :
          (p : OutputPacket c EndPoint)
          → p.destination ≡ packet.source
          → IsTurnedAway c packet a (record a { sent = a.sent ++ (p ∷ []) })
      answered p there = record { root = refl; sessions = refl; answer = inr (p, refl, there) }

  -- A packet of a session whose client the agent does not have changes no client and no session,
  -- starts no reader, and is answered with one packet at most, which goes to where it came from.
  pub process_input_packet-IsTurnedAway :
      (packet : InputPacket c EndPoint) (a : Agent c World EndPoint) (started : List Started)
      → is_no_session packet.message.header.session_id ≡ false
      → get_client c (key_of c fuel x packet a) a.root ≡ none
      → (a' : Agent c World EndPoint) × (process_input_packet c fuel x packet (a, started)
          ≡ some (a', started))
        × IsTurnedAway c packet a a'
  unfolding process_input_packet
  process_input_packet-IsTurnedAway packet a started in_session unknown = (
    of_unknown_client c fuel x packet a,
    rw (in_session, unknown, process_input_packet) refl,
    of_unknown_client-IsTurnedAway packet a,
  )
