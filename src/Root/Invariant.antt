-- ===== src/Root/Invariant.antt =====
-- The agent's clients and the iterator over them stay well formed (src/cpp/Root.cpp).
use micro_xrce_dds_agent.Common.{
  ℕ, ◌≡◌, refl, sym, ap, subst, [], if_each, ◌∙◌, inl, inr, true, false, not, ◌==◌, Option, none,
  some, if◌then◌else◌, Bool-cases, Option-cases, is_some,
}
use micro_xrce_dds_agent.Common.Map.{
  Map, octets_eq, octets_beq, octets_beq_iff, find, erase, assign, find-erase, find-assign,
}
use micro_xrce_dds_agent.Cdr.{Cdr}
use micro_xrce_dds_agent.Client.Types.{
  StatusValue, status_ok, status_err_invalid_data, status_err_incompatible,
}
use micro_xrce_dds_agent.Client.Proxy.{ClientRepresentation, ProxyClient, Environment}
use micro_xrce_dds_agent.Root.{
  ClientKey, Root, insert, next, get_client, delete_client, clientkey_invalid, xrce_cookie,
  xrce_version_major, create_client, get_next_client,
}
use micro_xrce_dds_agent.Root.Ascending.{
  IsAscending, insert-IsAscending, erase-IsAscending, assign-IsAscending,
}
use micro_xrce_dds_agent.Root.Keys.{
  HasUniqueKeys, has, find-insert, insert-HasUniqueKeys, erase-HasUniqueKeys, assign-HasUniqueKeys,
  has-next, has-first, next_other,
}

made_each :
    {A B : Type 0} (Q : Option B → Type 0) (made : Option A) (f : A → B)
    → Q none
    → ((a : A) → Q (some (f a)))
    → Q (elim made [ none ↦ none | some a ↦ some (f a) ])
made_each Q none f q qs = q
made_each Q (some a) f q qs = qs a

module _ (c : Cdr) {World : Type 0} where
  abbrev IsAt : Map ClientKey (ProxyClient c World) → Option ClientKey → Type 0
  IsAt m at = (j : ClientKey) → at ≡ some j → has j m ≡ true

  -- Every client has one entry, the entries are in the order of the keys, and the iterator is at the
  -- end or at a client.
  abbrev pub IsSound : Root c World → Type 0
  IsSound r = HasUniqueKeys r.clients × IsAscending r.clients × IsAt r.clients r.current_client

  still_has :
      (key j : ClientKey) (m : Map ClientKey (ProxyClient c World))
      → octets_beq key j ≡ false
      → has j m ≡ true
      → has j (erase key m) ≡ true
  still_has key j m other there = ap is_some (find-erase key j m) ∙ rw other there

  -- Where the iterator is when an entry is erased.
  moved_on :
      (key : ClientKey) (m : Map ClientKey (ProxyClient c World)) (at : Option ClientKey)
      → HasUniqueKeys m
      → IsAt m at
      → IsAt
          (erase key m)
          (elim at [ none ↦ none | some i ↦ if octets_beq key i then next i m else some i ])
  moved_on key m none unique at j e = cc
  moved_on key m (some i) unique at j e = elim (Bool-cases (octets_beq key i)) [
    | inl same ↦
        let moved : next i m ≡ some j = rw same refl ∙ e in
        let here : key ≡ i = (octets_beq_iff key i).0 same in
        still_has key j m (ap (λ k. octets_beq k j) here ∙ next_other i j m unique moved)
          (has-next i j m moved)
    | inr other ↦
        let stays : some i ≡ some j = rw other refl ∙ e in
        let here : i ≡ j = cc (stays) in
        still_has key j m (ap (octets_beq key) (sym here) ∙ other) (at j stays)
  ]

  -- Deleting a client keeps every client in one entry, the entries in the order of the keys, and the
  -- iterator at the end or at a client.
  pub delete_client-IsSound :
      (key : ClientKey) (r : Root c World) → IsSound r → IsSound (delete_client c key r).1
  unfolding delete_client get_client
  delete_client-IsSound key r (unique, ascending, at) = elim (Option-cases (find key r.clients)) [
    | inl absent ↦ rw (absent, delete_client, get_client) (unique, ascending, at)
    | inr (client, there) ↦
        rw (there, delete_client, get_client)
          (
            erase-HasUniqueKeys key r.clients unique,
            erase-IsAscending key r.clients ascending,
            moved_on key r.clients r.current_client unique at,
          )
  ]

  -- Moving on keeps the same.
  pub get_next_client-IsSound : (r : Root c World) → IsSound r → IsSound (get_next_client c r).1
  unfolding get_next_client
  get_next_client-IsSound r (unique, ascending, at) = elim (Option-cases r.current_client) [
    | inl over ↦ rw (over, get_next_client) (unique, ascending, λ j e. has-first r.clients j e)
    | inr (i, here) ↦
        rw (here, get_next_client) (unique, ascending, λ j e. has-next i j r.clients e)
  ]

  -- What is proved of every way in which `create_client` can end is proved of it.
  pub create_client_each :
      (env : Environment World) (uninitialized now : ℕ) (representation : ClientRepresentation)
      (r : Root c World) (Q : Option (StatusValue × Root c World) → Type 0)
      → Q none
      → Q (some (status_err_invalid_data, r))
      → Q (some (status_err_incompatible, r))
      → ((client : ProxyClient c World)
          → find representation.client_key r.clients ≡ none
          → Q (
              some (
                status_ok,
                record r { clients = insert representation.client_key client r.clients },
              )))
      → ((client old : ProxyClient c World)
          → find representation.client_key r.clients ≡ some old
          → Q (
              some (
                status_ok,
                record r { clients = assign representation.client_key client r.clients },
              )))
      → Q (create_client c env uninitialized now representation r)
  unfolding create_client
  create_client_each env uninitialized now representation r Q throws invalid incompatible new
        again =
      if_each Q (octets_beq representation.client_key clientkey_invalid) _ _ invalid (
        if_each Q (not (octets_beq representation.xrce_cookie xrce_cookie)) _ _ invalid (
          if_each Q (not (representation.xrce_version_major == xrce_version_major)) _ _ incompatible
            (elim (Option-cases (find representation.client_key r.clients)) [
              | inl absent ↦ rw absent (made_each Q _ _ throws (λ client. new client absent))
              | inr (old, there) ↦ rw there (
                  if_each Q (not (representation.session_id == old.representation.session_id)) _ _
                    (made_each Q _ _ throws (λ client. again client old there)) (again _ old there))
            ])))

  -- What holds of the clients when `create_client` has not thrown.
  abbrev pub Afterwards :
      (StatusValue → Root c World → Type 0) → Option (StatusValue × Root c World) → Type 0
  Afterwards P none = Unit
  Afterwards P (some (st, r)) = P st r

  -- Creating a client, whatever becomes of it, keeps every client in one entry, the entries in the
  -- order of the keys, and the iterator at the end or at a client.
  pub create_client-IsSound :
      (env : Environment World) (uninitialized now : ℕ) (representation : ClientRepresentation)
      (r : Root c World)
      → IsSound r
      → Afterwards (λ st. IsSound) (create_client c env uninitialized now representation r)
  create_client-IsSound env uninitialized now representation r (unique, ascending, at) =
      let key = representation.client_key in
      create_client_each env uninitialized now representation r (Afterwards (λ st. IsSound)) tt
        (unique, ascending, at) (unique, ascending, at)
        (λ client absent. (
          insert-HasUniqueKeys key client r.clients absent unique,
          insert-IsAscending key client r.clients absent ascending,
          λ j e.
              ap is_some (find-insert key j client r.clients absent) ∙ more key j client (at j e),
        ))
        (λ client old there. (
          assign-HasUniqueKeys key client r.clients unique,
          assign-IsAscending key client r.clients (ap is_some there) ascending,
          λ j e. ap is_some (find-assign key j client r.clients) ∙ more key j client (at j e),
        ))
    where
      more :
          (key j : ClientKey) (client : ProxyClient c World)
          → has j r.clients ≡ true
          → is_some (if octets_beq key j then some client else find j r.clients) ≡ true
      more key j client there = if_each (λ o. is_some o ≡ true) (octets_beq key j) _ _ refl there

  -- The agents that come about: it starts with no clients, and clients are created, deleted, and
  -- handed out by `get_next_client`, in any order.
  pub data Reached (env : Environment World) : Root c World → Type 0 where
    start : Reached env (record { clients = []; current_client = none })
    created :
        {r r' : Root c World}
        → Reached env r
        → (uninitialized now : ℕ) (representation : ClientRepresentation) (status : StatusValue)
        → create_client c env uninitialized now representation r ≡ some (status, r')
        → Reached env r'
    deleted :
        {r : Root c World}
        → Reached env r
        → (key : ClientKey) → Reached env (delete_client c key r).1
    handed_out : {r : Root c World} → Reached env r → Reached env (get_next_client c r).1

  pub Reached-IsSound : {env : Environment World} {r : Root c World} → Reached env r → IsSound r
  Reached-IsSound start = (tt, tt, λ j e. cc)
  Reached-IsSound {env} (created {r} before uninitialized now representation st is) =
      subst (Afterwards (λ st. IsSound)) is
        (create_client-IsSound env uninitialized now representation r (Reached-IsSound before))
  Reached-IsSound (deleted {r} before key) = delete_client-IsSound key r (Reached-IsSound before)
  Reached-IsSound (handed_out {r} before) = get_next_client-IsSound r (Reached-IsSound before)
