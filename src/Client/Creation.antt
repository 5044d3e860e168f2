-- ===== src/Client/Creation.antt =====
-- What creating an object does, case by case (src/cpp/client/ProxyClient.cpp).
use micro_xrce_dds_agent.Common.{
  ◌≡◌, refl, ap, ◌⊎◌, inl, inr, Bool, true, false, ◌&&◌, not, Option, none, some, if◌then◌else◌,
  Option-cases, Bool-cases, ℕ,
}
use micro_xrce_dds_agent.Common.Map.{pair_eq, find, erase, find-erase_self, emplace}
use micro_xrce_dds_agent.Object.{
  Entity, participant, topic, publisher, subscriber, datawriter, datareader, requester, replier,
  kind, Representation, ObjectVariant, Middleware, XrceObject, by_form, participant_create,
  topic_create, publisher_create, subscriber_create, datawriter_create, datareader_create,
  requester_create, replier_create, destroy, matched, by_xml_or_bin, Form, made,
}
use micro_xrce_dds_agent.Object.Id.{ObjectId, objectid_to_raw, with_kind}
use micro_xrce_dds_agent.Client.Types.{
  StatusValue, status_ok, CreationMode, status_ok_matched, status_err_mismatch,
  status_err_already_exists, status_err_dds_error, status_err_unknown_reference, ObjectStore,
}
use micro_xrce_dds_agent.Client.Objects.{
  Outcome, ignoring_rv, create_object, delete_object_unlock, entity_of, create_of_kind,
  create_participant, create_topic, create_publisher, create_subscriber, create_datawriter,
  create_datareader, create_requester, create_replier, register, under,
}

-- The kind of the parent that an object of a class has.
abbrev pub parent_of : Entity → Option Entity
parent_of participant = none
parent_of datawriter = some publisher
parent_of datareader = some subscriber
parent_of e = some participant

-- The cases that a class has for a representation.
abbrev pub by_form_of {ℓ} : {A : Type ℓ} → Entity → Representation → (Form → A) → A → A
by_form_of publisher = by_xml_or_bin
by_form_of subscriber = by_xml_or_bin
by_form_of e = by_form

-- The id of the parent that is asked for.
abbrev pub wanted_parent : Entity → ObjectVariant → ObjectId
wanted_parent e v = elim (parent_of e) [
  | none ↦ v.parent_id
  | some p ↦ with_kind v.parent_id (kind p)
]

-- The tests of `create_object` in the order of the specification.
reordered :
    {A : Type 0} (reuse replace matches : Bool) (exists fresh fresh' ok mismatch : A)
    → fresh ≡ fresh'
    → (if not reuse
        then if not replace then exists else fresh
        else if not replace
        then if matches then ok else mismatch
        else if matches
        then ok
        else fresh)
      ≡ (if reuse && matches
          then ok
          else if replace
          then fresh'
          else if reuse
          then mismatch
          else exists)
reordered false false matches exists fresh fresh' ok mismatch e = refl
reordered false true matches exists fresh fresh' ok mismatch e = e
reordered true false false exists fresh fresh' ok mismatch e = refl
reordered true false true exists fresh fresh' ok mismatch e = refl
reordered true true false exists fresh fresh' ok mismatch e = e
reordered true true true exists fresh fresh' ok mismatch e = refl

module _ {World : Type 0} (m : Middleware World) where
  -- The call of the middleware that creates an entity under a parent, if there is one.
  abbrev pub ask : Entity → ObjectId → ObjectVariant → World → ℕ → Bool × World
  ask e i v w parent =
      by_form_of e v.representation (λ f. m.create e (objectid_to_raw i) parent f w) (false, w)

  abbrev pub call : Entity → ObjectId → ObjectVariant → World → Bool × World
  call participant i v w =
      by_form v.representation (λ f. m.create_participant (objectid_to_raw i) v.domain_id f w)
        (false, w)
  call e i v w = ask e i v w (objectid_to_raw (wanted_parent e v))

  abbrev pub has_parent : Entity → ObjectVariant → ObjectStore World → Bool
  has_parent participant v s = true
  has_parent e v s = elim (find (wanted_parent e v) s.objects) [ none ↦ false | some parent ↦ true ]

  -- What is left when the middleware has answered.
  abbrev pub settled :
      Entity → ObjectId → StatusValue → ObjectStore World → Bool × World → Outcome World
  settled e i st s (true, w) =
      (true, st, record { objects = emplace i (record { class = e; id = i }) s.objects; world = w })
  settled e i st s (false, w) = (false, status_err_dds_error, record s { world = w })

  -- The specification of a creation under an id that is not in use.
  abbrev pub creation :
      Entity → ObjectId → ObjectVariant → StatusValue → ObjectStore World → Outcome World
  creation e i v st s =
      if has_parent e v s
      then settled e i st s (call e i v s.world)
      else (false, status_err_unknown_reference, s)

  register-made :
      (e : Entity) (i : ObjectId) (st : StatusValue) (s : ObjectStore World) (x : Bool × World)
      → find i s.objects ≡ none
      → register m i (made m e i x) st s ≡ settled e i st s x
  register-made e i st s (true, w) absent = rw (absent, register) refl
  register-made e i st s (false, w) absent = refl

  under-made :
      (e : Entity) (i : ObjectId) (st : StatusValue) (s : ObjectStore World) (p : ObjectId)
      (new : ℕ → Bool × World)
      → find i s.objects ≡ none
      → under m p s (λ parent. made m e i (new parent)) i st ≡ (
          if elim (find p s.objects) [ none ↦ false | some parent ↦ true ]
          then settled e i st s (new (objectid_to_raw p))
          else (false, status_err_unknown_reference, s))
  under-made e i st s p new absent = elim (Option-cases (find p s.objects)) [
    | inl h ↦ rw (h, under) refl
    | inr (parent, h) ↦ rw (h, under) (register-made e i st s (new (objectid_to_raw p)) absent)
  ]

  -- A creation under an id that is not in use looks for the parent, then asks the middleware;
  -- the object is there afterwards exactly if there is a parent and the middleware agrees, and
  -- the status is never STATUS_ERR_RESOURCES.
  pub create_of_kind-creation :
      (e : Entity) (i : ObjectId) (v : ObjectVariant) (st : StatusValue) (s : ObjectStore World)
      → entity_of v.d ≡ some e
      → find i s.objects ≡ none
      → create_of_kind m i v st s ≡ creation e i v st s
  unfolding create_of_kind create_participant participant_create create_topic topic_create
      create_publisher publisher_create create_subscriber subscriber_create create_datawriter
      datawriter_create create_datareader datareader_create create_requester requester_create
      create_replier replier_create
  create_of_kind-creation participant i v st s is absent =
      rw (is, create_of_kind)
        (register-made participant i st s (call participant i v s.world) absent)
  create_of_kind-creation topic i v st s is absent =
      rw (is, create_of_kind)
        (under-made topic i st s (wanted_parent topic v) (ask topic i v s.world) absent)
  create_of_kind-creation publisher i v st s is absent =
      rw (is, create_of_kind)
        (under-made publisher i st s (wanted_parent publisher v) (ask publisher i v s.world) absent)
  create_of_kind-creation subscriber i v st s is absent =
      rw (is, create_of_kind)
        (under-made subscriber i st s (wanted_parent subscriber v) (ask subscriber i v s.world)
          absent)
  create_of_kind-creation datawriter i v st s is absent =
      rw (is, create_of_kind)
        (under-made datawriter i st s (wanted_parent datawriter v) (ask datawriter i v s.world)
          absent)
  create_of_kind-creation datareader i v st s is absent =
      rw (is, create_of_kind)
        (under-made datareader i st s (wanted_parent datareader v) (ask datareader i v s.world)
          absent)
  create_of_kind-creation requester i v st s is absent =
      rw (is, create_of_kind)
        (under-made requester i st s (wanted_parent requester v) (ask requester i v s.world) absent)
  create_of_kind-creation replier i v st s is absent =
      rw (is, create_of_kind)
        (under-made replier i st s (wanted_parent replier v) (ask replier i v s.world) absent)

  -- A creation adds at most the one object.
  pub creation-objects :
      (e : Entity) (i : ObjectId) (v : ObjectVariant) (st : StatusValue) (s : ObjectStore World)
      → ((ignoring_rv m (creation e i v st s)).1.objects ≡ s.objects)
        ⊎ ((ignoring_rv m (creation e i v st s)).1.objects
            ≡ emplace i (record { class = e; id = i }) s.objects)
  creation-objects e i v st s = elim (Bool-cases (has_parent e v s)) [
    | inl h ↦ rw h (settled_objects (call e i v s.world))
    | inr h ↦ rw h (inl refl)
  ]
    where
      settled_objects :
          (x : Bool × World)
          → ((ignoring_rv m (settled e i st s x)).1.objects ≡ s.objects)
            ⊎ ((ignoring_rv m (settled e i st s x)).1.objects
                ≡ emplace i (record { class = e; id = i }) s.objects)
      settled_objects (true, w) = inr refl
      settled_objects (false, w) = inl refl

  replaced :
      (e : Entity) (i : ObjectId) (v : ObjectVariant) (s : ObjectStore World) (o : XrceObject)
      → entity_of v.d ≡ some e
      → find i s.objects ≡ some o
      → create_of_kind m i v status_ok (delete_object_unlock m i s).1
        ≡ creation e i v status_ok
            (record { objects = erase i s.objects; world = destroy m o s.world })
  unfolding delete_object_unlock
  replaced e i v s o is there =
      let t : ObjectStore World = record {
        objects = erase i s.objects;
        world = destroy m o s.world;
      } in
      rw (there, delete_object_unlock)
        (create_of_kind-creation e i v status_ok t is (find-erase_self i s.objects))

  -- The specification of `create_object`: Table 7 of the DDS-XRCE standard.
  abbrev pub specified :
      Entity
      → CreationMode
      → ObjectId
      → ObjectVariant
      → ObjectStore World
      → StatusValue × ObjectStore World
  specified e mode i v s = elim (find i s.objects) [
    | none ↦ ignoring_rv m (creation e i v status_ok s)
    | some o ↦
        if mode.reuse && matched m o v s.world
        then (status_ok_matched, s)
        else if mode.replace
        then ignoring_rv m (
            creation e i v status_ok
              (record { objects = erase i s.objects; world = destroy m o s.world }))
        else if mode.reuse
        then (status_err_mismatch, s)
        else (status_err_already_exists, s)
  ]

  -- `create_object` of one of the eight classes does what the table says: an object that is
  -- there is reused if that is asked for and it matches, else replaced if that is asked for, and
  -- else left alone with the status of a mismatch or of an object that exists.
  pub create_object-specified :
      (e : Entity) (mode : CreationMode) (prefix : ObjectId) (v : ObjectVariant)
      (s : ObjectStore World)
      → entity_of v.d ≡ some e
      → create_object m mode prefix v s ≡ specified e mode (with_kind prefix v.d) v s
  unfolding create_object delete_object_unlock
  create_object-specified e mode prefix v s is =
      let i = with_kind prefix v.d in
      elim (Option-cases (find i s.objects)) [
        | inl absent ↦
            rw (absent, create_object, specified)
              (ap (ignoring_rv m) (create_of_kind-creation e i v status_ok s is absent))
        | inr (o, there) ↦
            rw (there, create_object, specified)
              (reordered mode.reuse mode.replace (matched m o v s.world) _ _ _ _ _
                (ap (ignoring_rv m) (replaced e i v s o is there)))
      ]
