-- ===== src/Root/Lookup.antt =====
-- Finding the agent's clients after one is created or deleted (src/cpp/Root.cpp).
use micro_xrce_dds_agent.Common.{
  ℕ, ◌≡◌, ◌≢◌, ◌⊎◌, refl, ap, ◌∙◌, inl, inr, Bool, true, false, not, [], Option, none, some, ◌==◌,
  if◌then◌else◌, if_each, Option-cases, is_some,
}
use micro_xrce_dds_agent.Common.Int.{pos}
use micro_xrce_dds_agent.Common.Map.{
  octets_eq, octets_beq, beq_refl, find, assign, find_of_absent, find-erase, find-assign,
}
use micro_xrce_dds_agent.Cdr.{Cdr}
use micro_xrce_dds_agent.Client.Types.{StatusValue, status_ok, status_err_unknown_reference}
use micro_xrce_dds_agent.Client.Proxy.{
  ClientRepresentation, ProxyClient, Environment, Properties, uxr_hl,
}
use micro_xrce_dds_agent.Client.Proxy as Proxy
use micro_xrce_dds_agent.Root.{
  ClientKey, Root, clientkey_invalid, xrce_cookie, xrce_version_major, given, get_client,
  delete_client, create_client,
}
use micro_xrce_dds_agent.Root.Keys.{find-insert}
use micro_xrce_dds_agent.Root.Invariant.{Afterwards, create_client_each}

module _ (c : Cdr) {World : Type 0} where
  -- The client is there and the others are what they were.
  abbrev pub Admits : ClientKey → Root c World → Root c World → Type 0
  Admits key r after =
      (is_some (get_client c key after) ≡ true)
      × ((j : ClientKey) → octets_beq key j ≡ false → get_client c j after ≡ get_client c j r)

  abbrev pub Reported : ClientKey → Root c World → StatusValue → Root c World → Type 0
  Reported key r st after = (st ≡ status_ok) × Admits key r after ⊎ (st ≢ status_ok) × (after ≡ r)

  -- `create_client`, unless the constructor of the client throws, either reports STATUS_OK, and
  -- then the client is found and the others are what they were, or it reports an error and
  -- changes nothing.
  pub get_client-create_client :
      (env : Environment World) (uninitialized now : ℕ) (representation : ClientRepresentation)
      (r : Root c World)
      → Afterwards c
          (Reported representation.client_key r)
          (create_client c env uninitialized now representation r)
  unfolding get_client
  get_client-create_client env uninitialized now representation r =
      let key = representation.client_key in
      create_client_each c env uninitialized now representation r (Afterwards c (Reported key r)) tt
        (inr (λ e. cc, refl)) (inr (λ e. cc, refl))
        (λ client absent. inl (
          refl,
          (
            ap is_some (find-insert key key client r.clients absent) ∙ rw (beq_refl key) refl,
            λ j other. find-insert key j client r.clients absent ∙ rw other refl,
          ),
        ))
        (λ client old there. inl (
          refl,
          (
            ap is_some (find-assign key key client r.clients) ∙ rw (beq_refl key) refl,
            λ j other. find-assign key j client r.clients ∙ rw other refl,
          ),
        ))

  -- The constructor does not throw without the property that it reads.
  create_plain :
      (env : Environment World) (uninitialized now : ℕ) (representation : ClientRepresentation)
      (properties : Properties)
      → find uxr_hl properties ≡ none
      → (client : ProxyClient c World) × (Proxy.create c env uninitialized representation properties
            now
          ≡ some client)
  unfolding Proxy.create
  create_plain env uninitialized now representation properties plain = (
    Proxy.proxy c env uninitialized representation properties now false (pos env.client_dead_time),
    rw (plain, Proxy.create) refl,
  )

  abbrev Admitted : ClientKey → Option (StatusValue × Root c World) → Type 0
  Admitted key o =
      (after : Root c World) × (o ≡ some (status_ok, after))
      × (is_some (get_client c key after) ≡ true)

  pass_tests :
      (Q : Option (StatusValue × Root c World) → Type 0) (invalid cookie version : Bool)
      (x y z : Option (StatusValue × Root c World))
      → invalid ≡ false
      → cookie ≡ true
      → version ≡ true
      → Q z
      → Q (if invalid then x else if not cookie then x else if not version then y else z)
  pass_tests Q invalid cookie version x y z e1 e2 e3 q = rw (e1, e2, e3) q

  admit_made :
      (Q : Option (StatusValue × Root c World) → Type 0) (made : Option (ProxyClient c World))
      (client : ProxyClient c World) (f : ProxyClient c World → StatusValue × Root c World)
      → made ≡ some client
      → Q (some (f client))
      → Q (elim made [ none ↦ none | some a ↦ some (f a) ])
  admit_made Q made client f e q = rw e q

  -- A representation with a valid key, the cookie and the version is admitted, if it does not
  -- bring the property that the constructor reads as a number.
  pub create_client-Admitted :
      (env : Environment World) (uninitialized now : ℕ) (representation : ClientRepresentation)
      (r : Root c World)
      → octets_beq representation.client_key clientkey_invalid ≡ false
      → octets_beq representation.xrce_cookie xrce_cookie ≡ true
      → (representation.xrce_version_major == xrce_version_major) ≡ true
      → find uxr_hl (given representation) ≡ none
      → Admitted representation.client_key (create_client c env uninitialized now representation r)
  unfolding create_client get_client find
  create_client-Admitted env uninitialized now representation r valid cookie version plain =
      let key = representation.client_key in
      pass_tests (Admitted key) _ _ _ _ _ _ valid cookie version
        (elim (Option-cases (find key r.clients)) [
          | inl absent ↦
              let (client, made) =
                create_plain env uninitialized now representation (given representation) plain in
              rw absent (
                admit_made (Admitted key) _ client _ made (
                  _,
                  refl,
                  ap is_some (find-insert key key client r.clients absent) ∙ rw (beq_refl key) refl,
                ))
          | inr (old, there) ↦
              let (client, made) = create_plain env uninitialized now representation [] refl in
              rw there (
                if_each (Admitted key)
                  (not (representation.session_id == old.representation.session_id)) _ _
                  (admit_made (Admitted key) _ client _ made (_, refl, again key client r))
                  (_, refl, again key _ r))
        ])
    where
      again :
          (key : ClientKey) (client : ProxyClient c World) (r : Root c World)
          → is_some (find key (assign key client r.clients)) ≡ true
      again key client r =
          ap is_some (find-assign key key client r.clients) ∙ rw (beq_refl key) refl

  -- `delete_client` reports whether there was such a client; afterwards it is not found, and the
  -- others are what they were.
  pub get_client-delete_client :
      (key j : ClientKey) (r : Root c World)
      → (get_client c j (delete_client c key r).1
          ≡ (if octets_beq key j then none else get_client c j r))
        × ((delete_client c key r).0
            ≡ (if is_some (get_client c key r) then status_ok else status_err_unknown_reference))
  unfolding get_client delete_client
  get_client-delete_client key j r = elim (Option-cases (find key r.clients)) [
    | inl absent ↦
        rw (absent, delete_client, get_client) (find_of_absent key j r.clients absent, refl)
    | inr (client, there) ↦ rw (there, delete_client, get_client) (find-erase key j r.clients, refl)
  ]
