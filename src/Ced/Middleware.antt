-- ===== src/Ced/Middleware.antt =====
-- The functions of src/cpp/middleware/ced/CedMiddleware.cpp, with those that do nothing in
-- include/uxr/agent/middleware/ced/CedMiddleware.hpp, as the middleware that a client's objects
-- use. The binary forms of the representations are read by generated code.
use micro_xrce_dds_agent.Common.{ℕ, Bool, true, false, List, Option, none, some}
use micro_xrce_dds_agent.Common.Int.{ℤ}
use micro_xrce_dds_agent.Common.Map.{nat_eq, octets_eq, octets_beq, find, emplace, assign}
use micro_xrce_dds_agent.Object.{
  Entity, participant, topic, publisher, subscriber, datawriter, datareader, requester, replier,
  Form, ref, xml, bin, Middleware,
}
use micro_xrce_dds_agent.Object.Id.{ObjectId, objectid_to_raw}
use micro_xrce_dds_agent.Processor.Data.{Writing}
use micro_xrce_dds_agent.Ced.GlobalTopic.{GlobalTopic, TopicSource, Sample, write, read}
use micro_xrce_dds_agent.Ced.Names.{
  remove_suffix_form_topic_ref, remove_suffix_form_datawriter_ref,
  remove_suffix_form_datareader_ref,
}
use micro_xrce_dds_agent.Ced.Manager.{Name, int_beq}
use micro_xrce_dds_agent.Ced.Store.{get_name, create_topic}
use micro_xrce_dds_agent.Ced.Entities.{
  Ced, create_participant_by_ref, create_publisher_by_xml, create_subscriber_by_xml,
  create_datawriter_by_ref, create_datareader_by_ref, delete_entity,
}

-- What the binary forms say: a participant's domain, where one is set before it is read, a
-- topic's name, and the id of the topic of a data writer or a data reader.
pub record Binary : Type 0 where
  pub participant_domain : ℤ → Bool → List ℕ → ℤ
  pub topic_name : Bool → List ℕ → Name
  pub datawriter_topic : Bool → List ℕ → ObjectId
  pub datareader_topic : Bool → List ℕ → ObjectId

-- The domain, as `create_participant_by_xml` and `create_participant_by_bin` pass it on.
abbrev domain_of : Binary → ℤ → Form → ℤ
domain_of b domain (ref reference) = domain
domain_of b domain (xml text) = domain
domain_of b domain (bin endianness octets) = b.participant_domain domain endianness octets

-- The reference to a topic that its forms are passed on as.
abbrev topic_reference : Binary → Form → Name
topic_reference b (ref reference) = reference
topic_reference b (xml text) = text
topic_reference b (bin endianness octets) = b.topic_name endianness octets

-- The name of the topic under an id, `none` if there is no such topic.
abbrev topic_at : ObjectId → Ced → Option Name
topic_at id w = elim (find (objectid_to_raw id) w.tables.topics) [
  | none ↦ none
  | some t ↦ get_name t w.store
]

-- The reference to a data writer or a data reader, `none` where a binary form names no topic.
abbrev datawriter_reference : Binary → Form → Ced → Option Name
datawriter_reference b (ref reference) w = some reference
datawriter_reference b (xml text) w = some text
datawriter_reference b (bin endianness octets) w = topic_at (b.datawriter_topic endianness octets) w

abbrev datareader_reference : Binary → Form → Ced → Option Name
datareader_reference b (ref reference) w = some reference
datareader_reference b (xml text) w = some text
datareader_reference b (bin endianness octets) w = topic_at (b.datareader_topic endianness octets) w

abbrev pub with_reference : Option Name → (Name → Bool × Ced) → Ced → Bool × Ced
with_reference none create w = (false, w)
with_reference (some reference) create w = create reference

unfoldable pub create_topic_by_ref : (ℕ → TopicSource) → ℕ → ℕ → Name → Ced → Bool × Ced
create_topic_by_ref uninitialised id participant_id reference w =
    elim (find participant_id w.tables.participants) [
      | none ↦ (false, w)
      | some p ↦ (elim (find id w.tables.topics) [
        | some other ↦ (false, w)
        | none ↦
            (let (made, s) =
                create_topic uninitialised p (remove_suffix_form_topic_ref reference) w.store in
              elim made [
                | none ↦ (false, record w { store = s })
                | some t ↦ (
                  true,
                  record w {
                    tables = record w.tables { topics = emplace id t w.tables.topics };
                    store = s;
                  },
                )
              ])
      ])
    ]

module _ (uninitialised : ℕ → TopicSource) (b : Binary) where
  -- The functions `create_…_by_…`.
  unfoldable pub create_entity : Entity → ℕ → ℕ → Form → Ced → Bool × Ced
  create_entity topic id parent form w =
      create_topic_by_ref uninitialised id parent (topic_reference b form) w
  create_entity publisher id parent form w = create_publisher_by_xml id parent w
  create_entity subscriber id parent form w = create_subscriber_by_xml id parent w
  create_entity datawriter id parent form w =
      with_reference (datawriter_reference b form w)
        (λ reference. create_datawriter_by_ref id parent reference w) w
  create_entity datareader id parent form w =
      with_reference (datareader_reference b form w)
        (λ reference. create_datareader_by_ref id parent reference w) w
  create_entity participant id parent form w = (false, w)
  create_entity requester id parent form w = (false, w)
  create_entity replier id parent form w = (false, w)

-- `matched_participant_from_…`; the one from a binary form takes the domain that it is given.
unfoldable pub matched_participant : ℕ → ℤ → Form → Ced → Bool
matched_participant id domain form w = elim (find id w.tables.participants) [
  | none ↦ false
  | some p ↦ (elim (find p w.store.participants) [
    | none ↦ false
    | some q ↦ int_beq domain q.domain_id
  ])
]

-- Whether the text is the name of the topic.
abbrev names_topic : Name → ℕ → Ced → Bool
names_topic text t w = elim (get_name t w.store) [ none ↦ false | some name ↦ octets_beq text name ]

abbrev matched_with : Option Name → (Name → Bool) → Bool
matched_with none matched = false
matched_with (some reference) matched = matched reference

module _ (b : Binary) where
  -- The functions `matched_topic_from_…`, `matched_datawriter_from_…` and so on.
  unfoldable pub matched_entity : Entity → ℕ → Form → Ced → Bool
  matched_entity topic id form w = elim (find id w.tables.topics) [
    | none ↦ false
    | some t ↦ names_topic (remove_suffix_form_topic_ref (topic_reference b form)) t w
  ]
  matched_entity datawriter id form w = matched_with (datawriter_reference b form w) λ reference.
      elim (find id w.tables.datawriters) [
        | none ↦ false
        | some d ↦ names_topic (remove_suffix_form_datawriter_ref reference) d.topic w
      ]
  matched_entity datareader id form w = matched_with (datareader_reference b form w) λ reference.
      elim (find id w.tables.datareaders) [
        | none ↦ false
        | some d ↦ names_topic (remove_suffix_form_datareader_ref reference) d.topic w
      ]
  matched_entity e id form w = false

-- The shared topic of a topic, if the pointers lead there, and the client with another one.
abbrev pub global_of : ℕ → Ced → Option (ℕ × (ℕ × GlobalTopic))
global_of t w = elim (find t w.store.topics) [
  | none ↦ none
  | some c ↦ (elim (find c.global_topic w.store.manager.heap) [
    | none ↦ none
    | some cell ↦ some (c.global_topic, cell)
  ])
]

abbrev with_global : ℕ → ℕ × GlobalTopic → Ced → Ced
with_global g cell w = record w {
  store = record w.store {
    manager = record w.store.manager { heap = assign g cell w.store.manager.heap };
  };
}

abbrev fault : Ced → Ced
fault w = record w { store = record w.store { faulted = true } }

unfoldable pub write_data : ℕ → List ℕ → Ced → Bool × Ced
write_data id octets w = elim (find id w.tables.datawriters) [
  | none ↦ (false, w)
  | some d ↦ (elim (global_of d.topic w) [
    | none ↦ (false, fault w)
    | some (g, (owners, t)) ↦
        (let (rv, t') = write octets d.write_access d.topic_src t in
          (rv, with_global g (owners, t') w))
  ])
]

-- `CedDataReader::read` and `CedMiddleware::read_data`, with what others write while it waits.
unfoldable pub read_data : ℕ → List (List Sample) → Ced → Option (List ℕ) × Ced
read_data id rounds w = elim (find id w.tables.datareaders) [
  | none ↦ (none, w)
  | some d ↦ (elim (global_of d.topic w) [
    | none ↦ (none, fault w)
    | some (g, (owners, t)) ↦
        (let (got, t') = read d.read_access rounds t d.last_read in
          let w' = with_global g (owners, t') w in
          (
            got.0,
            record w' {
              tables = record w'.tables {
                datareaders = assign id (record d { last_read = got.1 }) w'.tables.datareaders;
              };
            },
          ))
  ])
]

module _ (uninitialised : ℕ → TopicSource) (b : Binary) where
  abbrev pub ced : Middleware Ced
  ced = record {
    create_participant =
        λ id domain form w. create_participant_by_ref id (domain_of b domain form) w;
    create = create_entity uninitialised b;
    delete = λ e id w. (delete_entity e id w).1;
    matched_participant = matched_participant;
    matched = matched_entity b;
  }

abbrev pub ced_writing : Writing Ced
ced_writing = record {
  write_data = write_data;
  write_request = λ id number octets w. (false, w);
  write_reply = λ id octets w. (false, w);
}
