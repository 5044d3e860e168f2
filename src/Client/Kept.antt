-- ===== src/Client/Kept.antt =====
-- Under which ids the objects of a client are kept (src/cpp/client/ProxyClient.cpp).
use micro_xrce_dds_agent.Common.{
  ℕ, if_each, ◌≢◌, ◌%◌, ◌<◌, ◌≡◌, refl, ap, sym, subst, ◌∙◌, inl, inr, ◌&&◌, none, some,
  Option-cases, arith,
}
use micro_xrce_dds_agent.Common.Map.{
  pair_eq, find, erase, emplace, Map, find_of_erased, find-emplace_inv,
}
use micro_xrce_dds_agent.Object.{
  Entity, participant, kind, ObjectVariant, Middleware, XrceObject, matched,
}
use micro_xrce_dds_agent.Object.Id.{ObjectId, with_kind, with_kind_lem}
use micro_xrce_dds_agent.Client.Types.{StatusValue, status_ok, CreationMode, ObjectStore}
use micro_xrce_dds_agent.Client.Objects.{
  entity_of, create_object, delete_object, delete_object_unlock, create_of_kind, ignoring_rv,
}
use micro_xrce_dds_agent.Client.Creation.{
  creation, specified, create_object-specified, creation-objects,
}

pub entity_of_inv : (e : Entity) (d : ℕ) → entity_of d ≡ some e → d ≡ kind e
unfolding entity_of
entity_of_inv e d is = ground arith

pub entity_of-kind : (e : Entity) → entity_of (kind e) ≡ some e
unfolding entity_of
entity_of-kind participant = refl
entity_of-kind e = refl

found_nothing : {e : Entity} → some e ≢ none
found_nothing is = cc

-- Every object is kept under its own id, whose low half says the object's class.
abbrev pub AreKept : Map ObjectId XrceObject → Type 0
AreKept objects =
    (i : ObjectId) (o : XrceObject)
    → find i objects ≡ some o
    → (o.id ≡ i) × (i.1 % 16 ≡ kind o.class)

emplace-AreKept :
    (i : ObjectId) (e : Entity) (objects : Map ObjectId XrceObject)
    → i.1 % 16 ≡ kind e
    → AreKept objects
    → AreKept (emplace i (record { class = e; id = i }) objects)
emplace-AreKept i e objects low ok j o found =
    elim (find-emplace_inv i j (record { class = e; id = i }) o objects found) [
      | inl before ↦ ok j o before
      | inr (same, new) ↦ (
        sym (ap (λ x. x.id) new) ∙ same,
        sym (ap (λ x. x.1 % 16) same) ∙ (low ∙ ap (λ x. kind x.class) new),
      )
    ]

erase-AreKept :
    (i : ObjectId) (objects : Map ObjectId XrceObject) → AreKept objects → AreKept (erase i objects)
erase-AreKept i objects ok j o found = ok j o (find_of_erased i j o objects found).0

module _ {World : Type 0} (m : Middleware World) where
  creation-AreKept :
      (e : Entity) (i : ObjectId) (v : ObjectVariant) (st : StatusValue) (s : ObjectStore World)
      → i.1 % 16 ≡ kind e
      → AreKept s.objects
      → AreKept (ignoring_rv m (creation m e i v st s)).1.objects
  creation-AreKept e i v st s low ok = elim (creation-objects m e i v st s) [
    | inl same ↦ subst AreKept (sym same) ok
    | inr new ↦ subst AreKept (sym new) (emplace-AreKept i e s.objects low ok)
  ]

  specified-AreKept :
      (e : Entity) (mode : CreationMode) (i : ObjectId) (v : ObjectVariant) (s : ObjectStore World)
      → i.1 % 16 ≡ kind e
      → AreKept s.objects
      → AreKept (specified m e mode i v s).1.objects
  specified-AreKept e mode i v s low ok = elim (Option-cases (find i s.objects)) [
    | inl absent ↦ rw (absent, specified) (creation-AreKept e i v status_ok s low ok)
    | inr (o, there) ↦
        rw (there, specified)
          (let P : StatusValue × ObjectStore World → Type 0 = λ r. AreKept r.1.objects in
            if_each P (mode.reuse && matched m o v s.world) _ _ ok (
              if_each P mode.replace _ _
                (creation-AreKept e i v status_ok _ low (erase-AreKept i s.objects ok))
                (if_each P mode.reuse _ _ ok ok)))
  ]

  -- Creating an object of another kind of four bits, an application, a type or a profile among them,
  -- reports success and does nothing, for a client whose objects are kept under their own ids, with
  -- the low half saying their class. Kinds of more than four bits, which the code puts into the id
  -- as they are, are outside.
  pub create_object_unsupported :
      (mode : CreationMode) (prefix : ObjectId) (v : ObjectVariant) (s : ObjectStore World)
      → prefix.1 < 256
      → v.d < 16
      → AreKept s.objects
      → entity_of v.d ≡ none
      → create_object m mode prefix v s ≡ (status_ok, s)
  unfolding create_object create_of_kind
  create_object_unsupported mode prefix v s octet small ok other =
      let i = with_kind prefix v.d in
      elim (Option-cases (find i s.objects)) [
        | inl absent ↦ rw (absent, create_object) (rw (other, create_of_kind) refl)
        | inr (o, there) ↦ absurd (
            found_nothing (
              sym (entity_of-kind o.class)
              ∙ (ap entity_of (sym (ok i o there).1 ∙ (with_kind_lem prefix v.d octet small).0)
                  ∙ other)))
      ]

  -- `create_object` and `delete_object` keep every object under its own id, whose low half says
  -- the object's class.
  pub create_object-AreKept :
      (mode : CreationMode) (prefix : ObjectId) (v : ObjectVariant) (s : ObjectStore World)
      → prefix.1 < 256
      → v.d < 16
      → AreKept s.objects
      → AreKept (create_object m mode prefix v s).1.objects
  create_object-AreKept mode prefix v s octet small ok = elim (Option-cases (entity_of v.d)) [
    | inl other ↦
        subst (λ r. AreKept r.1.objects)
          (sym (create_object_unsupported mode prefix v s octet small ok other)) ok
    | inr (e, is) ↦ rw (create_object-specified m e mode prefix v s is) (
        specified-AreKept e mode (with_kind prefix v.d) v s
          ((with_kind_lem prefix v.d octet small).0 ∙ entity_of_inv e v.d is) ok)
  ]

  pub delete_object-AreKept :
      (i : ObjectId) (s : ObjectStore World)
      → AreKept s.objects
      → AreKept (delete_object m i s).1.objects
  unfolding delete_object delete_object_unlock
  delete_object-AreKept i s ok = elim (Option-cases (find i s.objects)) [
    | inl absent ↦ rw (absent, delete_object_unlock) ok
    | inr (o, there) ↦ rw (there, delete_object_unlock) (erase-AreKept i s.objects ok)
  ]
