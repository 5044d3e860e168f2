-- ===== src/Ced/Client.antt =====
-- A client on the middleware without DDS: src/cpp/client/ProxyClient.cpp on top of
-- src/cpp/middleware/ced/CedMiddleware.cpp.
use micro_xrce_dds_agent.Common.{
  ℕ, ◌<◌, ◌≡◌, refl, ap, sym, ◌∙◌, false, List, [], ◌==◌, some, is_some, Option-cases, Bool-cases,
  inl, inr, arith,
}
use micro_xrce_dds_agent.Common.Map.{Map, nat_eq, pair_eq, find, assign, find-assign}
use micro_xrce_dds_agent.Object.{Entity, participant, datareader, ObjectVariant}
use micro_xrce_dds_agent.Object.Id.{ObjectId, objectid_to_raw}
use micro_xrce_dds_agent.Client.Types.{CreationMode, ObjectStore}
use micro_xrce_dds_agent.Client.Objects.{create_object, delete_object}
use micro_xrce_dds_agent.Client.Kept.{AreKept, create_object-AreKept, delete_object-AreKept}
use micro_xrce_dds_agent.Client.Prefix.{IsOctets, has}
use micro_xrce_dds_agent.Client.Ownership.{create_object-AreOwned, delete_object-AreOwned}
use micro_xrce_dds_agent.Ced.GlobalTopic.{TopicSource, Sample}
use micro_xrce_dds_agent.Ced.Store.{Store}
use micro_xrce_dds_agent.Ced.Entities.{Ced, CedDataReader, ced_middleware, no_entities}
use micro_xrce_dds_agent.Ced.Middleware.{Binary, ced, write_data, read_data, global_of}
use micro_xrce_dds_agent.Ced.Live.{live}
use micro_xrce_dds_agent.Ced.Refinement.{ced_tracked}

write_data_tables :
    (id : ℕ) (octets : List ℕ) (w : Ced) → (write_data id octets w).1.tables ≡ w.tables
unfolding write_data
write_data_tables id octets w = elim (Option-cases (find id w.tables.datawriters)) [
  | inl absent ↦ rw (absent, write_data) refl
  | inr (d, there) ↦ elim (Option-cases (global_of d.topic w)) [
    | inl lost ↦ rw (there, lost, write_data) refl
    | inr (cell, found) ↦ rw (there, found, write_data) refl
  ]
]

assigned_there :
    {V : Type 0} (id r : ℕ) (v w : V) (m : Map ℕ V)
    → find id m ≡ some v
    → is_some (find r (assign id w m)) ≡ is_some (find r m)
assigned_there id r v w m there = ap is_some (find-assign id r w m) ∙ elim (Bool-cases (id == r)) [
  | inl same ↦
      let e : id ≡ r = ground arith in
      rw same (sym (ap is_some (ap (λ i. find i m) (sym e) ∙ there)))
  | inr other ↦ rw other refl
]

live-assign :
    (id : ℕ) (d d' : CedDataReader) (w : Ced)
    → find id w.tables.datareaders ≡ some d
    → (e : Entity) (r : ℕ)
    → live (record w.tables { datareaders = assign id d' w.tables.datareaders }) e r
      ≡ live w.tables e r
unfolding live
live-assign id d d' w there datareader r = assigned_there id r d d' w.tables.datareaders there
live-assign id d d' w there _ r = refl

read_data_live :
    (id : ℕ) (rounds : List (List Sample)) (w : Ced) (e : Entity) (r : ℕ)
    → live (read_data id rounds w).1.tables e r ≡ live w.tables e r
unfolding read_data
read_data_live id rounds w e r = elim (Option-cases (find id w.tables.datareaders)) [
  | inl absent ↦ rw (absent, read_data) refl
  | inr (d, there) ↦ elim (Option-cases (global_of d.topic w)) [
    | inl lost ↦ rw (there, lost, read_data) refl
    | inr (cell, found) ↦ rw (there, found, read_data) (live-assign id d _ w there e r)
  ]
]

ced_middleware_tables : (key : ℕ) (store : Store) → (ced_middleware key store).tables ≡ no_entities
unfolding ced_middleware
ced_middleware_tables key store = ground arith

nothing_live : (e : Entity) (r : ℕ) → live no_entities e r ≡ false
unfolding live find
nothing_live participant r = refl
nothing_live e r = refl

nothing_there : (e : Entity) (i : ObjectId) → has [] e i ≡ false
unfolding find
nothing_there e i = refl

module _ (uninitialised : ℕ → TopicSource) (b : Binary) where
  -- A client that is new, and what its requests make of it: creations, deletions, writes, and
  -- reads with what others write meanwhile.
  pub data Reached (key : ℕ) (store : Store) : ObjectStore Ced → Type 0 where
    new : Reached key store (record { objects = []; world = ced_middleware key store })
    created :
        {s : ObjectStore Ced} (mode : CreationMode) (prefix : ObjectId) (v : ObjectVariant)
        → Reached key store s
        → IsOctets prefix
        → v.d < 16
        → Reached key store (create_object (ced uninitialised b) mode prefix v s).1
    deleted :
        {s : ObjectStore Ced} (i : ObjectId)
        → Reached key store s
        → IsOctets i
        → Reached key store (delete_object (ced uninitialised b) i s).1
    written :
        {s : ObjectStore Ced} (id : ℕ) (octets : List ℕ)
        → Reached key store s
        → Reached key store (record s { world = (write_data id octets s.world).1 })
    has_read :
        {s : ObjectStore Ced} (id : ℕ) (rounds : List (List Sample))
        → Reached key store s
        → Reached key store (record s { world = (read_data id rounds s.world).1 })

  Reached-AreKept :
      (key : ℕ) (store : Store) {s : ObjectStore Ced} → Reached key store s → AreKept s.objects
  unfolding find
  Reached-AreKept key store new = λ i o e. cc
  Reached-AreKept key store (created mode prefix v before octets small) =
      create_object-AreKept (ced uninitialised b) mode prefix v _ octets.1 small
        (Reached-AreKept key store before)
  Reached-AreKept key store (deleted i before octets) =
      delete_object-AreKept (ced uninitialised b) i _ (Reached-AreKept key store before)
  Reached-AreKept key store (written id octets before) = Reached-AreKept key store before
  Reached-AreKept key store (has_read id rounds before) = Reached-AreKept key store before

  -- Whatever a client asks for, the middleware without DDS has an entity of a kind under an id
  -- exactly if the client has an object of the kind and the id.
  pub Reached-AreOwned :
      (key : ℕ) (store : Store) {s : ObjectStore Ced}
      → Reached key store s
      → (e : Entity) (i : ObjectId) → IsOctets i
      → live s.world.tables e (objectid_to_raw i) ≡ has s.objects e i
  Reached-AreOwned key store new = λ e i octets.
      ap (λ t. live t e (objectid_to_raw i)) (ced_middleware_tables key store)
      ∙ nothing_live e (objectid_to_raw i)
      ∙ sym (nothing_there e i)
  Reached-AreOwned key store (created mode prefix v before octets small) =
      create_object-AreOwned (ced uninitialised b) (ced_tracked uninitialised b) mode prefix v _
        octets small (Reached-AreKept key store before) (Reached-AreOwned key store before)
  Reached-AreOwned key store (deleted i before octets) =
      delete_object-AreOwned (ced uninitialised b) (ced_tracked uninitialised b) i _ octets
        (Reached-AreKept key store before) (Reached-AreOwned key store before)
  Reached-AreOwned key store (written id sample before) = λ e i octets.
      ap (λ t. live t e (objectid_to_raw i)) (write_data_tables id sample _)
      ∙ Reached-AreOwned key store before e i octets
  Reached-AreOwned key store (has_read id rounds before) = λ e i octets.
      read_data_live id rounds _ e (objectid_to_raw i)
      ∙ Reached-AreOwned key store before e i octets
