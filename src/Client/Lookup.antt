-- ===== src/Client/Lookup.antt =====
-- What a client finds after creating or deleting an object (src/cpp/client/ProxyClient.cpp).
use micro_xrce_dds_agent.Common.{
  ◌≡◌, refl, ◌∙◌, inl, inr, Bool, true, false, ◌&&◌, Option, none, some, if◌then◌else◌,
  Option-cases, if_each,
}
use micro_xrce_dds_agent.Common.Map.{
  pair_eq, pair_beq, beq_refl, find, find-erase, find-erase_self, find_of_absent, find-emplace,
}
use micro_xrce_dds_agent.Object.{Entity, ObjectVariant, Middleware, XrceObject, matched}
use micro_xrce_dds_agent.Object.Id.{ObjectId, with_kind}
use micro_xrce_dds_agent.Client.Types.{
  StatusValue, status_ok, status_err_dds_error, status_err_unknown_reference, CreationMode,
  ObjectStore,
}
use micro_xrce_dds_agent.Client.Objects.{
  Outcome, entity_of, create_object, delete_object, delete_object_unlock, get_object, ignoring_rv,
}
use micro_xrce_dds_agent.Client.Creation.{
  creation, call, has_parent, settled, specified, create_object-specified,
}

-- What is under the id after a creation, by its status: the new object, nothing, or what was
-- there before.
abbrev pub left_behind : StatusValue → XrceObject → Option XrceObject → Option XrceObject
left_behind status_ok new before = some new
left_behind status_err_dds_error new before = none
left_behind status_err_unknown_reference new before = none
left_behind st new before = before

module _ {World : Type 0} (m : Middleware World) where
  abbrev pub Leaves :
      ObjectId → XrceObject → Option XrceObject → StatusValue × ObjectStore World → Type 0
  Leaves i new before (st, s) = get_object m i s ≡ left_behind st new before

  settled-Leaves :
      (e : Entity) (i : ObjectId) (s : ObjectStore World) (x : Bool × World)
      (before : Option XrceObject)
      → find i s.objects ≡ none
      → Leaves i (record { class = e; id = i }) before (ignoring_rv m (settled m e i status_ok s x))
  unfolding get_object
  settled-Leaves e i s (true, w) before absent =
      find-emplace i i _ s.objects absent ∙ rw (beq_refl i) refl
  settled-Leaves e i s (false, w) before absent = absent

  creation-Leaves :
      (e : Entity) (i : ObjectId) (v : ObjectVariant) (s : ObjectStore World)
      (before : Option XrceObject)
      → find i s.objects ≡ none
      → Leaves i
          (record { class = e; id = i })
          before
          (ignoring_rv m (creation m e i v status_ok s))
  unfolding get_object
  creation-Leaves e i v s before absent =
      if_each
        (λ (r : Outcome World). Leaves i (record { class = e; id = i }) before (ignoring_rv m r))
        (has_parent m e v s) _ _ (settled-Leaves e i s (call m e i v s.world) before absent) absent

  specified-Leaves :
      (e : Entity) (mode : CreationMode) (i : ObjectId) (v : ObjectVariant) (s : ObjectStore World)
      → Leaves i (record { class = e; id = i }) (get_object m i s) (specified m e mode i v s)
  unfolding get_object
  specified-Leaves e mode i v s = elim (Option-cases (find i s.objects)) [
    | inl absent ↦ rw (absent, specified) (creation-Leaves e i v s none absent)
    | inr (o, there) ↦
        rw (there, specified)
          (let P : StatusValue × ObjectStore World → Type 0 =
              Leaves i (record { class = e; id = i }) (some o) in
            if_each P (mode.reuse && matched m o v s.world) _ _ there (
              if_each P mode.replace _ _
                (creation-Leaves e i v _ (some o) (find-erase_self i s.objects))
                (if_each P mode.reuse _ _ there there)))
  ]

  -- After `create_object` of one of the eight classes, the client finds the new object if the
  -- status is STATUS_OK, what was there before if it says that the object there was reused, did
  -- not match or exists, and no object, not even one that was there before, if it is
  -- STATUS_ERR_DDS_ERROR or STATUS_ERR_UNKNOWN_REFERENCE.
  pub get_object-create_object :
      (e : Entity) (mode : CreationMode) (prefix : ObjectId) (v : ObjectVariant)
      (s : ObjectStore World)
      → entity_of v.d ≡ some e
      → get_object m (with_kind prefix v.d) (create_object m mode prefix v s).1
        ≡ left_behind
            (create_object m mode prefix v s).0
            (record { class = e; id = with_kind prefix v.d })
            (get_object m (with_kind prefix v.d) s)
  get_object-create_object e mode prefix v s is =
      rw (create_object-specified m e mode prefix v s is)
        (specified-Leaves e mode (with_kind prefix v.d) v s)

  -- `delete_object` reports whether there was such an object; afterwards there is none under
  -- the id and the other objects are what they were.
  pub get_object-delete_object :
      (i j : ObjectId) (s : ObjectStore World)
      → (get_object m j (delete_object m i s).1 ≡ (if pair_beq i j then none else get_object m j s))
        × ((delete_object m i s).0
            ≡ elim (get_object m i s) [ some o ↦ status_ok | none ↦ status_err_unknown_reference ])
  unfolding get_object delete_object delete_object_unlock
  get_object-delete_object i j s = elim (Option-cases (find i s.objects)) [
    | inl absent ↦ rw (absent, delete_object_unlock) (find_of_absent i j s.objects absent, refl)
    | inr (o, there) ↦ rw (there, delete_object_unlock) (find-erase i j s.objects, refl)
  ]
