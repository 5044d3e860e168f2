-- ===== src/Ced/Store.antt =====
-- The participants and the topics of a client (`CedParticipant` and `CedTopic` in
-- src/cpp/middleware/ced/CedEntities.cpp and `create_topic` in
-- src/cpp/middleware/ced/CedMiddleware.cpp). Objects that are shared stand under numbers; `topics`
-- has those that have owners, so that a `weak_ptr` to another number has expired. A participant
-- that has no owner any more is out of reach and does nothing when it goes, and is kept.
use micro_xrce_dds_agent.Common.{ℕ, suc, Bool, true, false, [], ◌∷◌, Option, none, some}
use micro_xrce_dds_agent.Common.Int.{ℤ}
use micro_xrce_dds_agent.Common.Map.{nat_eq, octets_eq, Map, find, erase, emplace, assign}
use micro_xrce_dds_agent.Ced.GlobalTopic.{TopicSource}
use micro_xrce_dds_agent.Ced.Manager.{Name, CedTopicManager, release}
use micro_xrce_dds_agent.Ced.Manager

pub record CedParticipant : Type 0 where
  pub domain_id : ℤ
  pub topic_register : Map Name ℕ

-- The numbers of the participant and of the topic that all clients share.
pub record CedTopic : Type 0 where
  pub participant : ℕ
  pub global_topic : ℕ

-- `faulted` says that a pointer to nothing was followed.
pub record Store : Type 0 where
  pub manager : CedTopicManager
  pub participants : Map ℕ CedParticipant
  pub topics : Map ℕ CedTopic
  pub next : ℕ
  pub faulted : Bool

unfoldable pub make_participant : ℤ → Store → ℕ × Store
make_participant domain_id s = (
  s.next,
  record s {
    participants = (s.next, record { domain_id = domain_id; topic_register = [] }) ∷ s.participants;
    next = suc s.next;
  },
)

-- `CedTopic::get_name`.
unfoldable pub get_name : ℕ → Store → Option Name
get_name topic s = elim (find topic s.topics) [
  | none ↦ none
  | some t ↦ (elim (find t.global_topic s.manager.heap) [
    | none ↦ none
    | some (owners, global) ↦ some global.name
  ])
]

-- `CedParticipant::find_topic`.
unfoldable pub find_topic : ℕ → Name → Store → Option ℕ
find_topic participant topic_name s = elim (find participant s.participants) [
  | none ↦ none
  | some p ↦ (elim (find topic_name p.topic_register) [
    | none ↦ none
    | some topic ↦ (elim (find topic s.topics) [ none ↦ none | some t ↦ some topic ])
  ])
]

-- `CedParticipant::register_topic`.
unfoldable pub register_topic : ℕ → Name → ℕ → Store → Bool × Store
register_topic participant topic_name topic s = elim (find participant s.participants) [
  | none ↦ (false, record s { faulted = true })
  | some p ↦ (elim (find topic_name p.topic_register) [
    | some other ↦ (false, s)
    | none ↦ (
      true,
      record s {
        participants =
            assign participant
              (record p { topic_register = emplace topic_name topic p.topic_register })
              s.participants;
      },
    )
  ])
]

-- `CedParticipant::unregister_topic`.
unfoldable pub unregister_topic : ℕ → Name → Store → Store
unregister_topic participant topic_name s = elim (find participant s.participants) [
  | none ↦ s
  | some p ↦ record s {
    participants =
        assign participant (record p { topic_register = erase topic_name p.topic_register })
          s.participants;
  }
]

-- `~CedTopic`, and the end of what it owns.
unfoldable pub destroy_topic : ℕ → Store → Store
destroy_topic topic s = elim (find topic s.topics) [
  | none ↦ s
  | some t ↦ (elim (get_name topic s) [
    | none ↦ record s { topics = erase topic s.topics; faulted = true }
    | some topic_name ↦
        (let s' = unregister_topic t.participant topic_name s in
          record s' { topics = erase topic s'.topics; manager = release t.global_topic s'.manager })
  ])
]

module _ (uninitialised : ℕ → TopicSource) where
  -- The static `create_topic`, with a `shared_ptr` that is empty as `none`. The name of a topic
  -- is that of the shared one, which an expired `weak_ptr` does not give.
  unfoldable pub create_topic : ℕ → Name → Store → Option ℕ × Store
  create_topic participant topic_name s = elim (find_topic participant topic_name s) [
    | some topic ↦ (some topic, s)
    | none ↦ (elim (find participant s.participants) [
      | none ↦ (none, record s { faulted = true })
      | some p ↦
          (let (global, manager') =
              Manager.register_topic uninitialised topic_name p.domain_id s.manager in
            elim global [
              | none ↦ (none, record s { manager = manager'; faulted = true })
              | some g ↦
                  (let made = record s {
                    manager = manager';
                    topics =
                        (s.next, record { participant = participant; global_topic = g }) ∷ s.topics;
                    next = suc s.next;
                  } in
                    let (registered, s') = register_topic participant topic_name s.next made in
                    elim registered [
                      | true ↦ (some s.next, s')
                      | false ↦ (none, destroy_topic s.next s')
                    ])
            ])
    ])
  ]
