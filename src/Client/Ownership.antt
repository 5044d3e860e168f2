-- ===== src/Client/Ownership.antt =====
-- The entities of the middleware and the objects that own them
-- (src/cpp/client/ProxyClient.cpp). `live w e raw` says that the middleware has an entity of the
-- kind `e` under the raw id `raw`.
use micro_xrce_dds_agent.Common.{
  ℕ, ◌<◌, ◌≡◌, refl, ap, sym, subst, ◌∙◌, inl, inr, Bool, true, false, ◌&&◌, none, if◌then◌else◌,
  Option-cases, if_each,
}
use micro_xrce_dds_agent.Common.Int.{ℤ}
use micro_xrce_dds_agent.Common.Map.{find-erase_self, pair_eq, find, erase}
use micro_xrce_dds_agent.Object.{
  Entity, participant, publisher, subscriber, Form, kind, ObjectVariant, Representation, Middleware,
  XrceObject, matched, destroy, get_raw_id, by_form, by_xml_or_bin, ref, xml, bin, by_reference,
  as_xml_string, in_binary, other_representation,
}
use micro_xrce_dds_agent.Object.Id.{ObjectId, objectid_to_raw, with_kind, with_kind_lem}
use micro_xrce_dds_agent.Client.Types.{StatusValue, status_ok, CreationMode, ObjectStore}
use micro_xrce_dds_agent.Client.Objects.{
  entity_of, create_object, delete_object, delete_object_unlock, ignoring_rv,
}
use micro_xrce_dds_agent.Client.Creation.{
  creation, call, has_parent, settled, specified, create_object-specified,
}
use micro_xrce_dds_agent.Client.Prefix.{
  same, has, IsOctets, kind_lt, kind_injective, with_kind_own, has-emplace, has-erase,
  raw-with_kind,
}
use micro_xrce_dds_agent.Client.Kept.{AreKept, entity_of_inv, create_object_unsupported}

-- What the middleware promises: a creation that succeeds adds the entity, one that fails adds
-- none, and a deletion takes the entity away; nothing else changes.
pub record Tracked {World : Type 0} (m : Middleware World) : Type 0 where
  pub live : World → Entity → ℕ → Bool
  pub created_participant :
      (raw : ℕ) (domain : ℤ) (form : Form) (w : World) (f : Entity) (r : ℕ)
      → live (m.create_participant raw domain form w).1 f r ≡ (
          if (m.create_participant raw domain form w).0 && same participant raw f r
          then true
          else live w f r)
  pub created :
      (e : Entity) (raw parent : ℕ) (form : Form) (w : World) (f : Entity) (r : ℕ)
      → live (m.create e raw parent form w).1 f r
        ≡ (if (m.create e raw parent form w).0 && same e raw f r then true else live w f r)
  pub deleted :
      (e : Entity) (raw : ℕ) (w : World) (f : Entity) (r : ℕ)
      → live (m.delete e raw w) f r ≡ (if same e raw f r then false else live w f r)

by_form_each :
    {A : Type 0} (P : A → Type 0) (r : Representation) (call : Form → A) (missing : A)
    → ((f : Form) → P (call f))
    → P missing
    → P (by_form r call missing) × P (by_xml_or_bin r call missing)
by_form_each P (by_reference x) call missing each none_called = (each (ref x), none_called)
by_form_each P (as_xml_string x) call missing each none_called = (each (xml x), each (xml x))
by_form_each P (in_binary b x) call missing each none_called = (each (bin b x), each (bin b x))
by_form_each P other_representation call missing each none_called = (none_called, none_called)

module _ {World : Type 0} (m : Middleware World) (t : Tracked m) where
  -- The entities of the middleware are those of the objects.
  abbrev pub AreOwned : ObjectStore World → Type 0
  AreOwned s =
      (e : Entity) (i : ObjectId)
      → IsOctets i
      → t.live s.world e (objectid_to_raw i) ≡ has s.objects e i

  -- How an answer of the middleware changes what is live.
  abbrev Answers : Entity → ℕ → World → Bool × World → Type 0
  Answers e raw w x =
      (f : Entity) (r : ℕ) → t.live x.1 f r ≡ (if x.0 && same e raw f r then true else t.live w f r)

  call-Answers :
      (e : Entity) (i : ObjectId) (v : ObjectVariant) (w : World)
      → Answers e (objectid_to_raw i) w (call m e i v w)
  call-Answers participant i v w =
      (by_form_each (Answers participant (objectid_to_raw i) w) v.representation _ _
        (λ form. t.created_participant _ v.domain_id form w) (λ f r. refl)).0
  call-Answers publisher i v w =
      (by_form_each (Answers publisher (objectid_to_raw i) w) v.representation _ _
        (λ form. t.created publisher _ _ form w) (λ f r. refl)).1
  call-Answers subscriber i v w =
      (by_form_each (Answers subscriber (objectid_to_raw i) w) v.representation _ _
        (λ form. t.created subscriber _ _ form w) (λ f r. refl)).1
  call-Answers e i v w =
      (by_form_each (Answers e (objectid_to_raw i) w) v.representation _ _
        (λ form. t.created e _ _ form w) (λ f r. refl)).0

  settled-AreOwned :
      (e : Entity) (p : ObjectId) (st : StatusValue) (s : ObjectStore World) (x : Bool × World)
      → IsOctets p
      → find (with_kind p (kind e)) s.objects ≡ none
      → Answers e (objectid_to_raw p) s.world x
      → AreOwned s
      → AreOwned (ignoring_rv m (settled m e (with_kind p (kind e)) st s x)).1
  settled-AreOwned e p st s (true, w) octets absent answers ok f j jo =
      answers f (objectid_to_raw j)
      ∙ (ap (λ x. if same e (objectid_to_raw p) f (objectid_to_raw j) then true else x) (ok f j jo)
          ∙ sym (has-emplace e f p j _ s.objects octets jo absent))
  settled-AreOwned e p st s (false, w) octets absent answers ok f j jo =
      answers f (objectid_to_raw j) ∙ ok f j jo

  creation-AreOwned :
      (e : Entity) (p : ObjectId) (v : ObjectVariant) (st : StatusValue) (s : ObjectStore World)
      → IsOctets p
      → find (with_kind p (kind e)) s.objects ≡ none
      → AreOwned s
      → AreOwned (ignoring_rv m (creation m e (with_kind p (kind e)) v st s)).1
  creation-AreOwned e p v st s octets absent ok =
      if_each (λ r. AreOwned (ignoring_rv m r).1) (has_parent m e v s) _ _
        (settled-AreOwned e p st s (call m e (with_kind p (kind e)) v s.world) octets absent
          (subst (λ raw. Answers e raw s.world (call m e (with_kind p (kind e)) v s.world))
            (raw-with_kind p e octets) (call-Answers e (with_kind p (kind e)) v s.world))
          ok)
        ok

  -- An object that goes is destroyed.
  removed-AreOwned :
      (p : ObjectId) (s : ObjectStore World) (o : XrceObject)
      → IsOctets p
      → o.id ≡ with_kind p (kind o.class)
      → AreOwned s
      → AreOwned (record {
        objects = erase (with_kind p (kind o.class)) s.objects;
        world = destroy m o s.world;
      })
  unfolding destroy get_raw_id
  removed-AreOwned p s o octets own ok f j jo =
      t.deleted o.class (objectid_to_raw o.id) s.world f (objectid_to_raw j)
      ∙ (ap
            (λ i.
              if same o.class (objectid_to_raw i) f (objectid_to_raw j)
              then false
              else t.live s.world f (objectid_to_raw j))
            own
          ∙ (ap
                (λ raw.
                  if same o.class raw f (objectid_to_raw j)
                  then false
                  else t.live s.world f (objectid_to_raw j))
                (raw-with_kind p o.class octets)
              ∙ (ap
                    (λ x.
                      if same o.class (objectid_to_raw p) f (objectid_to_raw j) then false else x)
                    (ok f j jo)
                  ∙ sym (has-erase o.class f p j s.objects octets jo))))

  replaced-AreOwned :
      (e : Entity) (p : ObjectId) (s : ObjectStore World) (o : XrceObject)
      → IsOctets p
      → o.id ≡ with_kind p (kind e)
      → o.class ≡ e
      → AreOwned s
      → AreOwned
          (record { objects = erase (with_kind p (kind e)) s.objects; world = destroy m o s.world })
  replaced-AreOwned e p s o octets own class ok =
      subst
        (λ c. AreOwned (record {
          objects = erase (with_kind p (kind c)) s.objects;
          world = destroy m o s.world;
        }))
        class (removed-AreOwned p s o octets (own ∙ ap (λ c. with_kind p (kind c)) (sym class)) ok)

  specified-AreOwned :
      (e : Entity) (mode : CreationMode) (p : ObjectId) (v : ObjectVariant) (s : ObjectStore World)
      → IsOctets p
      → AreKept s.objects
      → AreOwned s
      → AreOwned (specified m e mode (with_kind p (kind e)) v s).1
  specified-AreOwned e mode p v s octets kept ok =
      let i = with_kind p (kind e) in
      elim (Option-cases (find i s.objects)) [
        | inl absent ↦ rw (absent, specified) (creation-AreOwned e p v status_ok s octets absent ok)
        | inr (o, there) ↦
            rw (there, specified)
              (let P : StatusValue × ObjectStore World → Type 0 = λ r. AreOwned r.1 in
                let class : o.class ≡ e =
                  kind_injective o.class e
                    (sym (kept i o there).1 ∙ (with_kind_lem p (kind e) octets.1 (kind_lt e)).0) in
                let removed = replaced-AreOwned e p s o octets (kept i o there).0 class ok in
                if_each P (mode.reuse && matched m o v s.world) _ _ ok (
                  if_each P mode.replace _ _
                    (creation-AreOwned e p v status_ok _ octets (find-erase_self i s.objects)
                      removed)
                    (if_each P mode.reuse _ _ ok ok)))
      ]

  -- After `create_object`, an entity is alive in the middleware exactly if the client has an
  -- object of its kind and id, when that was so before.
  pub create_object-AreOwned :
      (mode : CreationMode) (prefix : ObjectId) (v : ObjectVariant) (s : ObjectStore World)
      → IsOctets prefix
      → v.d < 16
      → AreKept s.objects
      → AreOwned s
      → AreOwned (create_object m mode prefix v s).1
  create_object-AreOwned mode prefix v s octets small kept ok =
      elim (Option-cases (entity_of v.d)) [
        | inl other ↦
            subst (λ r. AreOwned r.1)
              (sym (create_object_unsupported m mode prefix v s octets.1 small kept other)) ok
        | inr (e, is) ↦
            subst (λ r. AreOwned r.1)
              (sym (
                create_object-specified m e mode prefix v s is
                ∙ ap (λ d. specified m e mode (with_kind prefix d) v s) (entity_of_inv e v.d is)))
              (specified-AreOwned e mode prefix v s octets kept ok)
      ]

  -- After `delete_object`, an entity is alive in the middleware exactly if the client has an
  -- object of its kind and id, when that was so before.
  pub delete_object-AreOwned :
      (i : ObjectId) (s : ObjectStore World)
      → IsOctets i
      → AreKept s.objects
      → AreOwned s
      → AreOwned (delete_object m i s).1
  unfolding delete_object delete_object_unlock
  delete_object-AreOwned i s octets kept ok = elim (Option-cases (find i s.objects)) [
    | inl absent ↦ rw (absent, delete_object_unlock) ok
    | inr (o, there) ↦
        let own : with_kind i (kind o.class) ≡ i =
          with_kind_own i o.class octets (kept i o there).1 in
        rw (there, delete_object_unlock)
          (subst
            (λ j. AreOwned (record { objects = erase j s.objects; world = destroy m o s.world }))
            own (removed-AreOwned i s o octets ((kept i o there).0 ∙ sym own) ok))
  ]
