-- ===== src/Ced/Refinement.antt =====
-- What src/cpp/middleware/ced/CedMiddleware.cpp promises the clients' objects, filled in, and
-- what follows for the two together (src/cpp/client/ProxyClient.cpp).
use micro_xrce_dds_agent.Common.{
  ℕ, ◌≡◌, refl, ap, ◌∙◌, Bool, true, false, ◌==◌, none, is_some, if◌then◌else◌, Option-cases, inl,
  inr, arith,
}
use micro_xrce_dds_agent.Common.Map.{Map, nat_eq, find, erase, find_of_absent}
use micro_xrce_dds_agent.Object.{
  Entity, participant, topic, publisher, subscriber, datawriter, datareader, requester, replier,
}
use micro_xrce_dds_agent.Client.Prefix.{same}
use micro_xrce_dds_agent.Client.Ownership.{Tracked}
use micro_xrce_dds_agent.Ced.GlobalTopic.{TopicSource}
use micro_xrce_dds_agent.Ced.Entities.{Tables, Ced, delete_entity}
use micro_xrce_dds_agent.Ced.Middleware.{Binary, ced}
use micro_xrce_dds_agent.Ced.Live.{live, found-erase, create_participant-Adds, create_entity-Adds}

-- A deletion takes the entity away, if there is one, and no other.
abbrev pub Removes : Entity → ℕ → Tables → Tables → Type 0
Removes e id t t' =
    (f : Entity) (r : ℕ) → live t' f r ≡ (if same e id f r then false else live t f r)

found_absent :
    {V : Type 0} (id r : ℕ) (m : Map ℕ V)
    → find id m ≡ none
    → is_some (find r m) ≡ (if id == r then false else is_some (find r m))
found_absent id r m absent = ap is_some (find_of_absent id r m absent) ∙ ground arith

if_same : (b : Bool) → false ≡ (if b then false else false)
if_same true = refl
if_same false = refl

delete_topic-Removes :
    (id : ℕ) (w : Ced) → Removes topic id w.tables (delete_entity topic id w).1.tables
unfolding live delete_entity
delete_topic-Removes id w f r = elim (Option-cases (find id w.tables.topics)) [
  | inl absent ↦ rw (absent, delete_entity) (kept absent f)
  | inr (t, there) ↦ rw (there, delete_entity) (gone f)
]
  where
    kept :
        find id w.tables.topics ≡ none
        → (f : Entity)
        → live w.tables f r ≡ (if same topic id f r then false else live w.tables f r)
    kept absent topic = found_absent id r w.tables.topics absent
    kept absent _ = refl

    gone :
        (f : Entity)
        → live (record w.tables { topics = erase id w.tables.topics }) f r
          ≡ (if same topic id f r then false else live w.tables f r)
    gone topic = found-erase id r w.tables.topics
    gone _ = refl

delete_datawriter-Removes :
    (id : ℕ) (w : Ced) → Removes datawriter id w.tables (delete_entity datawriter id w).1.tables
unfolding live delete_entity
delete_datawriter-Removes id w f r = elim (Option-cases (find id w.tables.datawriters)) [
  | inl absent ↦ rw (absent, delete_entity) (kept absent f)
  | inr (t, there) ↦ rw (there, delete_entity) (gone f)
]
  where
    kept :
        find id w.tables.datawriters ≡ none
        → (f : Entity)
        → live w.tables f r ≡ (if same datawriter id f r then false else live w.tables f r)
    kept absent datawriter = found_absent id r w.tables.datawriters absent
    kept absent _ = refl

    gone :
        (f : Entity)
        → live (record w.tables { datawriters = erase id w.tables.datawriters }) f r
          ≡ (if same datawriter id f r then false else live w.tables f r)
    gone datawriter = found-erase id r w.tables.datawriters
    gone _ = refl

delete_datareader-Removes :
    (id : ℕ) (w : Ced) → Removes datareader id w.tables (delete_entity datareader id w).1.tables
unfolding live delete_entity
delete_datareader-Removes id w f r = elim (Option-cases (find id w.tables.datareaders)) [
  | inl absent ↦ rw (absent, delete_entity) (kept absent f)
  | inr (t, there) ↦ rw (there, delete_entity) (gone f)
]
  where
    kept :
        find id w.tables.datareaders ≡ none
        → (f : Entity)
        → live w.tables f r ≡ (if same datareader id f r then false else live w.tables f r)
    kept absent datareader = found_absent id r w.tables.datareaders absent
    kept absent _ = refl

    gone :
        (f : Entity)
        → live (record w.tables { datareaders = erase id w.tables.datareaders }) f r
          ≡ (if same datareader id f r then false else live w.tables f r)
    gone datareader = found-erase id r w.tables.datareaders
    gone _ = refl

-- What has no owners goes with its entry only.
pub delete_entity-Removes :
    (e : Entity) (id : ℕ) (w : Ced) → Removes e id w.tables (delete_entity e id w).1.tables
unfolding live delete_entity
delete_entity-Removes topic id w f r = delete_topic-Removes id w f r
delete_entity-Removes datawriter id w f r = delete_datawriter-Removes id w f r
delete_entity-Removes datareader id w f r = delete_datareader-Removes id w f r
delete_entity-Removes participant id w participant r = found-erase id r w.tables.participants
delete_entity-Removes participant id w _ r = refl
delete_entity-Removes publisher id w publisher r = found-erase id r w.tables.publishers
delete_entity-Removes publisher id w _ r = refl
delete_entity-Removes subscriber id w subscriber r = found-erase id r w.tables.subscribers
delete_entity-Removes subscriber id w _ r = refl
delete_entity-Removes requester id w requester r = if_same _
delete_entity-Removes requester id w _ r = refl
delete_entity-Removes replier id w replier r = if_same _
delete_entity-Removes replier id w _ r = refl

-- The middleware without DDS keeps the promises that the clients' objects rely on: a creation that
-- succeeds adds just its entity, one that fails adds none, and a deletion takes just its entity
-- away.
abbrev pub ced_tracked :
    (uninitialised : ℕ → TopicSource) (b : Binary) → Tracked (ced uninitialised b)
ced_tracked u b = record {
  live = λ w e r. live w.tables e r;
  created_participant = λ id domain form w f r. create_participant-Adds id _ w f r;
  created = λ e id parent form w f r. create_entity-Adds u b e id parent form w f r;
  deleted = λ e id w f r. delete_entity-Removes e id w f r;
}
