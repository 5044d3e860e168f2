-- ===== src/Ced/Live.antt =====
-- The middleware of src/cpp/middleware/ced/CedMiddleware.cpp has the entities that it should, as
-- the clients' objects need it.
use micro_xrce_dds_agent.Common.{
  ℕ, ◌≡◌, refl, Bool, true, false, ◌&&◌, ◌==◌, Option, none, some, is_some, if◌then◌else◌,
  Option-cases, Bool-cases, inl, inr, arith,
}
use micro_xrce_dds_agent.Common.Int.{ℤ}
use micro_xrce_dds_agent.Common.Map.{Map, nat_eq, find, erase, emplace, find-erase, find-emplace}
use micro_xrce_dds_agent.Object.{
  Entity, participant, topic, publisher, subscriber, datawriter, datareader, requester, replier,
  Form,
}
use micro_xrce_dds_agent.Client.Prefix.{same}
use micro_xrce_dds_agent.Ced.GlobalTopic.{TopicSource}
use micro_xrce_dds_agent.Ced.Manager.{Name}
use micro_xrce_dds_agent.Ced.Names.{
  remove_suffix_form_topic_ref, remove_suffix_form_datawriter_ref,
  remove_suffix_form_datareader_ref,
}
use micro_xrce_dds_agent.Ced.Store.{create_topic, find_topic}
use micro_xrce_dds_agent.Ced.Entities.{
  CedDataWriter, CedDataReader, Tables, Ced, create_participant_by_ref, create_publisher_by_xml,
  create_subscriber_by_xml, create_datawriter_by_ref, create_datareader_by_ref, has_value,
}
use micro_xrce_dds_agent.Ced.Middleware.{Binary, create_topic_by_ref, create_entity, with_reference}

-- Whether a client has an entity of a kind under an id.
unfoldable pub live : Tables → Entity → ℕ → Bool
live t participant r = is_some (find r t.participants)
live t topic r = is_some (find r t.topics)
live t publisher r = is_some (find r t.publishers)
live t subscriber r = is_some (find r t.subscribers)
live t datawriter r = is_some (find r t.datawriters)
live t datareader r = is_some (find r t.datareaders)
live t requester r = false
live t replier r = false

-- A creation that succeeds adds the entity, and one that fails adds none.
abbrev pub Adds : Entity → ℕ → Tables → Bool × Ced → Type 0
Adds e raw t x =
    (f : Entity) (r : ℕ)
    → live x.1.tables f r ≡ (if x.0 && same e raw f r then true else live t f r)

found-emplace :
    {V : Type 0} (id r : ℕ) (v : V) (m : Map ℕ V)
    → find id m ≡ none
    → is_some (find r (emplace id v m)) ≡ (if id == r then true else is_some (find r m))
found-emplace id r v m absent = rw (find-emplace id r v m absent) (ground arith)

pub found-erase :
    {V : Type 0} (id r : ℕ) (m : Map ℕ V)
    → is_some (find r (erase id m)) ≡ (if id == r then false else is_some (find r m))
found-erase id r m = rw (find-erase id r m) (ground arith)

live-emplace_participant :
    (id : ℕ) (v : ℕ) (t : Tables)
    → find id t.participants ≡ none
    → (f : Entity) (r : ℕ)
    → live (record t { participants = emplace id v t.participants }) f r
      ≡ (if same participant id f r then true else live t f r)
unfolding live
live-emplace_participant id v t absent participant r = found-emplace id r v t.participants absent
live-emplace_participant id v t absent _ r = refl

live-emplace_topic :
    (id : ℕ) (v : ℕ) (t : Tables)
    → find id t.topics ≡ none
    → (f : Entity) (r : ℕ)
    → live (record t { topics = emplace id v t.topics }) f r
      ≡ (if same topic id f r then true else live t f r)
unfolding live
live-emplace_topic id v t absent topic r = found-emplace id r v t.topics absent
live-emplace_topic id v t absent _ r = refl

live-emplace_publisher :
    (id : ℕ) (v : ℕ) (t : Tables)
    → find id t.publishers ≡ none
    → (f : Entity) (r : ℕ)
    → live (record t { publishers = emplace id v t.publishers }) f r
      ≡ (if same publisher id f r then true else live t f r)
unfolding live
live-emplace_publisher id v t absent publisher r = found-emplace id r v t.publishers absent
live-emplace_publisher id v t absent _ r = refl

live-emplace_subscriber :
    (id : ℕ) (v : ℕ) (t : Tables)
    → find id t.subscribers ≡ none
    → (f : Entity) (r : ℕ)
    → live (record t { subscribers = emplace id v t.subscribers }) f r
      ≡ (if same subscriber id f r then true else live t f r)
unfolding live
live-emplace_subscriber id v t absent subscriber r = found-emplace id r v t.subscribers absent
live-emplace_subscriber id v t absent _ r = refl

live-emplace_datawriter :
    (id : ℕ) (v : CedDataWriter) (t : Tables)
    → find id t.datawriters ≡ none
    → (f : Entity) (r : ℕ)
    → live (record t { datawriters = emplace id v t.datawriters }) f r
      ≡ (if same datawriter id f r then true else live t f r)
unfolding live
live-emplace_datawriter id v t absent datawriter r = found-emplace id r v t.datawriters absent
live-emplace_datawriter id v t absent _ r = refl

live-emplace_datareader :
    (id : ℕ) (v : CedDataReader) (t : Tables)
    → find id t.datareaders ≡ none
    → (f : Entity) (r : ℕ)
    → live (record t { datareaders = emplace id v t.datareaders }) f r
      ≡ (if same datareader id f r then true else live t f r)
unfolding live
live-emplace_datareader id v t absent datareader r = found-emplace id r v t.datareaders absent
live-emplace_datareader id v t absent _ r = refl

pub create_participant-Adds :
    (id : ℕ) (domain : ℤ) (w : Ced)
    → Adds participant id w.tables (create_participant_by_ref id domain w)
unfolding create_participant_by_ref
create_participant-Adds id domain w f r = elim (Option-cases (find id w.tables.participants)) [
  | inl absent ↦
      rw (absent, create_participant_by_ref) (live-emplace_participant id _ w.tables absent f r)
  | inr (p, there) ↦ rw (there, create_participant_by_ref) refl
]

create_publisher-Adds :
    (id parent : ℕ) (w : Ced) → Adds publisher id w.tables (create_publisher_by_xml id parent w)
unfolding create_publisher_by_xml
create_publisher-Adds id parent w f r = elim (Option-cases (find parent w.tables.participants)) [
  | inl missing ↦ rw (missing, create_publisher_by_xml) refl
  | inr (p, found) ↦ elim (Option-cases (find id w.tables.publishers)) [
    | inl absent ↦
        rw (found, absent, create_publisher_by_xml)
          (live-emplace_publisher id p w.tables absent f r)
    | inr (q, there) ↦ rw (found, there, create_publisher_by_xml) refl
  ]
]

create_subscriber-Adds :
    (id parent : ℕ) (w : Ced) → Adds subscriber id w.tables (create_subscriber_by_xml id parent w)
unfolding create_subscriber_by_xml
create_subscriber-Adds id parent w f r = elim (Option-cases (find parent w.tables.participants)) [
  | inl missing ↦ rw (missing, create_subscriber_by_xml) refl
  | inr (p, found) ↦ elim (Option-cases (find id w.tables.subscribers)) [
    | inl absent ↦
        rw (found, absent, create_subscriber_by_xml)
          (live-emplace_subscriber id p w.tables absent f r)
    | inr (q, there) ↦ rw (found, there, create_subscriber_by_xml) refl
  ]
]

create_topic-Adds :
    (uninitialised : ℕ → TopicSource) (id parent : ℕ) (reference : Name) (w : Ced)
    → Adds topic id w.tables (create_topic_by_ref uninitialised id parent reference w)
unfolding create_topic_by_ref
create_topic-Adds uninitialised id parent reference w f r =
    elim (Option-cases (find parent w.tables.participants)) [
      | inl missing ↦ rw (missing, create_topic_by_ref) refl
      | inr (p, found) ↦ elim (Option-cases (find id w.tables.topics)) [
        | inl absent ↦
            elim (Option-cases
              (create_topic uninitialised p (remove_suffix_form_topic_ref reference) w.store).0) [
                | inl failed ↦ rw (found, absent, failed, create_topic_by_ref) refl
                | inr (t, made) ↦
                    rw (found, absent, made, create_topic_by_ref)
                      (live-emplace_topic id t w.tables absent f r)
              ]
        | inr (q, there) ↦ rw (found, there, create_topic_by_ref) refl
      ]
    ]

create_datawriter-Adds :
    (id parent : ℕ) (reference : Name) (w : Ced)
    → Adds datawriter id w.tables (create_datawriter_by_ref id parent reference w)
unfolding create_datawriter_by_ref
create_datawriter-Adds id parent reference w f r =
    elim (Option-cases (find parent w.tables.publishers)) [
      | inl missing ↦ rw (missing, create_datawriter_by_ref) refl
      | inr (p, found) ↦ elim (Option-cases (find id w.tables.datawriters)) [
        | inl absent ↦
            elim (Option-cases
              (find_topic p (remove_suffix_form_datawriter_ref reference) w.store)) [
                | inl failed ↦ rw (found, absent, failed, create_datawriter_by_ref) refl
                | inr (t, made) ↦
                    rw (found, absent, made, create_datawriter_by_ref)
                      (live-emplace_datawriter id _ w.tables absent f r)
              ]
        | inr (q, there) ↦ rw (found, there, create_datawriter_by_ref) refl
      ]
    ]

create_datareader-Adds :
    (id parent : ℕ) (reference : Name) (w : Ced)
    → Adds datareader id w.tables (create_datareader_by_ref id parent reference w)
unfolding create_datareader_by_ref
create_datareader-Adds id parent reference w f r =
    elim (Option-cases (find parent w.tables.subscribers)) [
      | inl missing ↦ rw (missing, create_datareader_by_ref) refl
      | inr (p, found) ↦ elim (Option-cases (find id w.tables.datareaders)) [
        | inl absent ↦ elim (Bool-cases (has_value p w.tables.participants)) [
          | inl valid ↦
              elim (Option-cases
                (find_topic p (remove_suffix_form_datareader_ref reference) w.store)) [
                  | inl failed ↦ rw (found, absent, valid, failed, create_datareader_by_ref) refl
                  | inr (t, made) ↦
                      rw (found, absent, valid, made, create_datareader_by_ref)
                        (live-emplace_datareader id _ w.tables absent f r)
                ]
          | inr gone ↦ rw (found, absent, gone, create_datareader_by_ref) refl
        ]
        | inr (q, there) ↦ rw (found, there, create_datareader_by_ref) refl
      ]
    ]

with_reference-Adds :
    (e : Entity) (id : ℕ) (reference : Option Name) (create : Name → Bool × Ced) (w : Ced)
    → ((name : Name) → Adds e id w.tables (create name))
    → Adds e id w.tables (with_reference reference create w)
with_reference-Adds e id none create w each f r = refl
with_reference-Adds e id (some name) create w each f r = each name f r

pub create_entity-Adds :
    (uninitialised : ℕ → TopicSource) (b : Binary) (e : Entity) (id parent : ℕ) (form : Form)
    (w : Ced)
    → Adds e id w.tables (create_entity uninitialised b e id parent form w)
unfolding create_entity
create_entity-Adds u b topic id parent form w = create_topic-Adds u id parent _ w
create_entity-Adds u b publisher id parent form w = create_publisher-Adds id parent w
create_entity-Adds u b subscriber id parent form w = create_subscriber-Adds id parent w
create_entity-Adds u b datawriter id parent form w =
    with_reference-Adds datawriter id _ _ w (λ name. create_datawriter-Adds id parent name w)
create_entity-Adds u b datareader id parent form w =
    with_reference-Adds datareader id _ _ w (λ name. create_datareader-Adds id parent name w)
create_entity-Adds u b participant id parent form w = λ f r. refl
create_entity-Adds u b requester id parent form w = λ f r. refl
create_entity-Adds u b replier id parent form w = λ f r. refl
