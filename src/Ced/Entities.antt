-- ===== src/Ced/Entities.antt =====
-- The entities of a client, how they are made and how they go
-- (src/cpp/middleware/ced/CedMiddleware.cpp). What is said of requesters and repliers is in
-- include/uxr/agent/middleware/ced/CedMiddleware.hpp.
use micro_xrce_dds_agent.Common.{
  ℕ, ◌/◌, ◌^◌, Bool, true, false, ◌||◌, [], ◌∷◌, none, some, ◌==◌, is_some, if◌then◌else◌,
}
use micro_xrce_dds_agent.Common.Int.{ℤ}
use micro_xrce_dds_agent.Common.Map.{nat_eq, octets_eq, Map, find, erase, emplace}
use micro_xrce_dds_agent.Object.{
  Entity, participant, topic, publisher, subscriber, datawriter, datareader, requester, replier,
}
use micro_xrce_dds_agent.Ced.GlobalTopic.{
  TopicSource, internal, external, Access, no_access, internal_access, external_access,
  complete_access,
}
use micro_xrce_dds_agent.Ced.Names.{
  remove_suffix_form_datawriter_ref, remove_suffix_form_datareader_ref,
}
use micro_xrce_dds_agent.Ced.Manager.{Name}
use micro_xrce_dds_agent.Ced.Store.{Store, make_participant, find_topic, destroy_topic}

pub record CedDataWriter : Type 0 where
  pub publisher : ℕ
  pub topic : ℕ
  pub write_access : Access
  pub topic_src : TopicSource

pub record CedDataReader : Type 0 where
  pub subscriber : ℕ
  pub topic : ℕ
  pub last_read : ℕ
  pub read_access : Access

-- The maps of CedMiddleware from ids to participants, topics and so on. A publisher is the
-- participant that it shares. A subscriber has a reference to the pointer in `participants` that
-- it was made with, which is told by the participant it points to.
pub record Tables : Type 0 where
  pub participants : Map ℕ ℕ
  pub topics : Map ℕ ℕ
  pub publishers : Map ℕ ℕ
  pub subscribers : Map ℕ ℕ
  pub datawriters : Map ℕ CedDataWriter
  pub datareaders : Map ℕ CedDataReader

pub record Ced : Type 0 where
  pub tables : Tables
  pub store : Store
  pub topics_src : TopicSource
  pub write_access : Access
  pub read_access : Access

abbrev internal_client_key : ℕ
internal_client_key = 0xEAEAEAEA

abbrev external_client_key_prefix : ℕ
external_client_key_prefix = 0xEA

abbrev pub no_entities : Tables
no_entities = record {
  participants = [];
  topics = [];
  publishers = [];
  subscribers = [];
  datawriters = [];
  datareaders = [];
}

-- The constructor.
unfoldable pub ced_middleware : ℕ → Store → Ced
ced_middleware client_key s =
    if client_key == internal_client_key
    then record {
      tables = no_entities;
      store = s;
      topics_src = external;
      write_access = external_access;
      read_access = no_access;
    }
    else if client_key / 2 ^ 24 == external_client_key_prefix
    then record {
      tables = no_entities;
      store = s;
      topics_src = external;
      write_access = no_access;
      read_access = internal_access;
    }
    else record {
      tables = no_entities;
      store = s;
      topics_src = internal;
      write_access = complete_access;
      read_access = complete_access;
    }

-- Whether a topic has an owner.
unfoldable pub has_value : ℕ → Map ℕ ℕ → Bool
has_value v [] = false
has_value v ((k, w) ∷ m) = (w == v) || has_value v m

unfoldable pub has_writer : ℕ → Map ℕ CedDataWriter → Bool
has_writer v [] = false
has_writer v ((k, w) ∷ m) = (w.topic == v) || has_writer v m

unfoldable pub has_reader : ℕ → Map ℕ CedDataReader → Bool
has_reader v [] = false
has_reader v ((k, r) ∷ m) = (r.topic == v) || has_reader v m

abbrev is_owned : ℕ → Tables → Bool
is_owned v t = has_value v t.topics || (has_writer v t.datawriters || has_reader v t.datareaders)

-- What becomes of a topic when an owner has gone.
unfoldable pub release_topic : ℕ → Tables → Store → Store
release_topic v t s = if is_owned v t then s else destroy_topic v s

unfoldable pub create_participant_by_ref : ℕ → ℤ → Ced → Bool × Ced
create_participant_by_ref id domain_id w = elim (find id w.tables.participants) [
  | some p ↦ (false, w)
  | none ↦
      (let (made, s) = make_participant domain_id w.store in
        (
          true,
          record w {
            tables = record w.tables { participants = emplace id made w.tables.participants };
            store = s;
          },
        ))
]

unfoldable pub create_publisher_by_xml : ℕ → ℕ → Ced → Bool × Ced
create_publisher_by_xml id participant_id w = elim (find participant_id w.tables.participants) [
  | none ↦ (false, w)
  | some p ↦ (elim (find id w.tables.publishers) [
    | some other ↦ (false, w)
    | none ↦ (
      true,
      record w { tables = record w.tables { publishers = emplace id p w.tables.publishers } },
    )
  ])
]

unfoldable pub create_subscriber_by_xml : ℕ → ℕ → Ced → Bool × Ced
create_subscriber_by_xml id participant_id w = elim (find participant_id w.tables.participants) [
  | none ↦ (false, w)
  | some p ↦ (elim (find id w.tables.subscribers) [
    | some other ↦ (false, w)
    | none ↦ (
      true,
      record w { tables = record w.tables { subscribers = emplace id p w.tables.subscribers } },
    )
  ])
]

-- `it_publisher->second->get_participant()->find_topic(…)` and what is made of the topic.
unfoldable pub create_datawriter_by_ref : ℕ → ℕ → Name → Ced → Bool × Ced
create_datawriter_by_ref id publisher_id reference w =
    elim (find publisher_id w.tables.publishers) [
      | none ↦ (false, w)
      | some p ↦ (elim (find id w.tables.datawriters) [
        | some other ↦ (false, w)
        | none ↦ (elim (find_topic p (remove_suffix_form_datawriter_ref reference) w.store) [
          | none ↦ (false, w)
          | some t ↦
              (let made : CedDataWriter = record {
                publisher = p;
                topic = t;
                write_access = w.write_access;
                topic_src = w.topics_src;
              } in
                (
                  true,
                  record w {
                    tables = record w.tables { datawriters = emplace id made w.tables.datawriters };
                  },
                ))
        ])
      ])
    ]

-- The subscriber's participant is read through the reference, whose pointer is gone when the
-- participant was deleted.
unfoldable pub create_datareader_by_ref : ℕ → ℕ → Name → Ced → Bool × Ced
create_datareader_by_ref id subscriber_id reference w =
    elim (find subscriber_id w.tables.subscribers) [
      | none ↦ (false, w)
      | some p ↦ (elim (find id w.tables.datareaders) [
        | some other ↦ (false, w)
        | none ↦ (elim (has_value p w.tables.participants) [
          | false ↦ (false, record w { store = record w.store { faulted = true } })
          | true ↦ (elim (find_topic p (remove_suffix_form_datareader_ref reference) w.store) [
            | none ↦ (false, w)
            | some t ↦
                (let made : CedDataReader = record {
                  subscriber = p;
                  topic = t;
                  last_read = 65535;
                  read_access = w.read_access;
                } in
                  (
                    true,
                    record w {
                      tables = record w.tables {
                        datareaders = emplace id made w.tables.datareaders;
                      };
                    },
                  ))
          ])
        ])
      ])
    ]

-- The maps' `erase`, and what ends with the entity. A participant, a publisher or a subscriber
-- ends nothing that can be seen.
unfoldable pub delete_entity : Entity → ℕ → Ced → Bool × Ced
delete_entity participant id w = (
  is_some (find id w.tables.participants),
  record w { tables = record w.tables { participants = erase id w.tables.participants } },
)
delete_entity topic id w = elim (find id w.tables.topics) [
  | none ↦ (false, w)
  | some t ↦
      (let left = record w.tables { topics = erase id w.tables.topics } in
        (true, record w { tables = left; store = release_topic t left w.store }))
]
delete_entity publisher id w = (
  is_some (find id w.tables.publishers),
  record w { tables = record w.tables { publishers = erase id w.tables.publishers } },
)
delete_entity subscriber id w = (
  is_some (find id w.tables.subscribers),
  record w { tables = record w.tables { subscribers = erase id w.tables.subscribers } },
)
delete_entity datawriter id w = elim (find id w.tables.datawriters) [
  | none ↦ (false, w)
  | some d ↦
      (let left = record w.tables { datawriters = erase id w.tables.datawriters } in
        (true, record w { tables = left; store = release_topic d.topic left w.store }))
]
delete_entity datareader id w = elim (find id w.tables.datareaders) [
  | none ↦ (false, w)
  | some d ↦
      (let left = record w.tables { datareaders = erase id w.tables.datareaders } in
        (true, record w { tables = left; store = release_topic d.topic left w.store }))
]
delete_entity requester id w = (false, w)
delete_entity replier id w = (false, w)
