-- ===== src/Client/Objects.antt =====
-- The objects of a client: creating, deleting and finding them (src/cpp/client/ProxyClient.cpp).
-- The lock on the objects makes each operation one step on them and on the middleware. The
-- objects are an unordered map; destroying an object takes effect where it leaves the map, since
-- the pointers that are handed out live inside one message's handler.
use micro_xrce_dds_agent.Common.{
  Bool, true, false, not, List, [], ◌∷◌, Option, none, some, if◌then◌else◌, ◌==◌, ℕ,
}
use micro_xrce_dds_agent.Common.Map.{pair_eq, find, erase, emplace}
use micro_xrce_dds_agent.Object.{
  Entity, participant, topic, publisher, subscriber, datawriter, datareader, requester, replier,
  kind, ObjectVariant, Middleware, XrceObject, participant_create, topic_create, publisher_create,
  subscriber_create, datawriter_create, datareader_create, requester_create, replier_create,
  destroy, matched,
}
use micro_xrce_dds_agent.Object.Id.{ObjectId, objectid_to_raw, with_kind}
use micro_xrce_dds_agent.Client.Types.{
  StatusValue, status_ok, status_ok_matched, status_err_dds_error, status_err_mismatch,
  status_err_already_exists, status_err_unknown_reference, status_err_resources, CreationMode,
  ObjectStore,
}

-- What a member function returns as `rv`, leaves in `result_status` and leaves of the objects.
abbrev pub Outcome : Type 0 → Type 0
Outcome World = Bool × StatusValue × ObjectStore World

-- The cases of `switch (representation._d())` that create something.
unfoldable pub entity_of : ℕ → Option Entity
entity_of d =
    if d == 1
    then some participant
    else if d == 2
    then some topic
    else if d == 3
    then some publisher
    else if d == 4
    then some subscriber
    else if d == 5
    then some datawriter
    else if d == 6
    then some datareader
    else if d == 7
    then some requester
    else if d == 8
    then some replier
    else none

module _ {World : Type 0} (m : Middleware World) where
  abbrev Store : Type 0
  Store = ObjectStore World

  -- `objects_.emplace(object_id, std::move(object)).second`: an object that does not get in is
  -- destroyed.
  abbrev pub register : ObjectId → Option XrceObject × World → StatusValue → Store → Outcome World
  register object_id (none, w) st s = (false, status_err_dds_error, record s { world = w })
  register object_id (some o, w) st s = elim (find object_id s.objects) [
    | none ↦ (true, st, record { objects = emplace object_id o s.objects; world = w })
    | some old ↦ (false, status_err_resources, record s { world = destroy m o w })
  ]

  -- `objects_.find(parent_id)` and what follows when there is such a parent.
  abbrev pub under :
      ObjectId → Store → (ℕ → Option XrceObject × World) → ObjectId → StatusValue → Outcome World
  under parent_id s new object_id st = elim (find parent_id s.objects) [
    | some parent ↦ register object_id (new (objectid_to_raw parent_id)) st s
    | none ↦ (false, status_err_unknown_reference, s)
  ]

  unfoldable pub create_participant : ObjectId → ObjectVariant → StatusValue → Store → Outcome World
  create_participant object_id v st s =
      register object_id (participant_create m object_id v s.world) st s

  unfoldable pub create_topic : ObjectId → ObjectVariant → StatusValue → Store → Outcome World
  create_topic object_id v st s =
      under (with_kind v.parent_id (kind participant)) s
        (λ parent. topic_create m object_id parent v s.world) object_id st

  unfoldable pub create_publisher : ObjectId → ObjectVariant → StatusValue → Store → Outcome World
  create_publisher object_id v st s =
      under (with_kind v.parent_id (kind participant)) s
        (λ parent. publisher_create m object_id parent v s.world) object_id st

  unfoldable pub create_subscriber : ObjectId → ObjectVariant → StatusValue → Store → Outcome World
  create_subscriber object_id v st s =
      under (with_kind v.parent_id (kind participant)) s
        (λ parent. subscriber_create m object_id parent v s.world) object_id st

  unfoldable pub create_datawriter : ObjectId → ObjectVariant → StatusValue → Store → Outcome World
  create_datawriter object_id v st s =
      under (with_kind v.parent_id (kind publisher)) s
        (λ parent. datawriter_create m object_id parent v s.world) object_id st

  unfoldable pub create_datareader : ObjectId → ObjectVariant → StatusValue → Store → Outcome World
  create_datareader object_id v st s =
      under (with_kind v.parent_id (kind subscriber)) s
        (λ parent. datareader_create m object_id parent v s.world) object_id st

  unfoldable pub create_requester : ObjectId → ObjectVariant → StatusValue → Store → Outcome World
  create_requester object_id v st s =
      under (with_kind v.parent_id (kind participant)) s
        (λ parent. requester_create m object_id parent v s.world) object_id st

  unfoldable pub create_replier : ObjectId → ObjectVariant → StatusValue → Store → Outcome World
  create_replier object_id v st s =
      under (with_kind v.parent_id (kind participant)) s
        (λ parent. replier_create m object_id parent v s.world) object_id st

  -- The private `create_object`.
  unfoldable pub create_of_kind : ObjectId → ObjectVariant → StatusValue → Store → Outcome World
  create_of_kind object_id v st s = elim (entity_of v.d) [
    | some participant ↦ create_participant object_id v st s
    | some topic ↦ create_topic object_id v st s
    | some publisher ↦ create_publisher object_id v st s
    | some subscriber ↦ create_subscriber object_id v st s
    | some datawriter ↦ create_datawriter object_id v st s
    | some datareader ↦ create_datareader object_id v st s
    | some requester ↦ create_requester object_id v st s
    | some replier ↦ create_replier object_id v st s
    | none ↦ (false, st, s)
  ]

  unfoldable pub delete_object_unlock : ObjectId → Store → Bool × Store
  delete_object_unlock object_id s = elim (find object_id s.objects) [
    | some o ↦ (true, record { objects = erase object_id s.objects; world = destroy m o s.world })
    | none ↦ (false, s)
  ]

  -- The public `create_object` ignores what the private one returns.
  abbrev pub ignoring_rv : Outcome World → StatusValue × Store
  ignoring_rv (rv, st, s) = (st, s)

  unfoldable pub create_object :
      CreationMode → ObjectId → ObjectVariant → Store → StatusValue × Store
  create_object mode prefix v s =
      let object_id = with_kind prefix v.d in
      elim (find object_id s.objects) [
        | none ↦ ignoring_rv (create_of_kind object_id v status_ok s)
        | some o ↦
            if not mode.reuse
            then if not mode.replace
              then (status_err_already_exists, s)
              else ignoring_rv
                  (create_of_kind object_id v status_ok (delete_object_unlock object_id s).1)
            else if not mode.replace
            then if matched m o v s.world then (status_ok_matched, s) else (status_err_mismatch, s)
            else if matched m o v s.world
            then (status_ok_matched, s)
            else ignoring_rv
                (create_of_kind object_id v status_ok (delete_object_unlock object_id s).1)
      ]

  unfoldable pub delete_object : ObjectId → Store → StatusValue × Store
  delete_object object_id s =
      let (deleted, t) = delete_object_unlock object_id s in
      (if deleted then status_ok else status_err_unknown_reference, t)

  unfoldable pub get_object : ObjectId → Store → Option XrceObject
  get_object object_id s = find object_id s.objects

  unfoldable pub destroy_all : List (ObjectId × XrceObject) → World → World
  destroy_all [] w = w
  destroy_all ((i, o) ∷ os) w = destroy_all os (destroy m o w)

  -- `objects_.clear()`, in the order of the list.
  unfoldable pub release : Store → Store
  release s = record { objects = []; world = destroy_all s.objects s.world }
