-- ===== src/Client/Tests.antt =====
-- A middleware that remembers which entities it has, and a client with one participant.
use micro_xrce_dds_agent.Common.{
  ℕ, ◌≡◌, refl, Bool, true, false, [], none, some, if◌then◌else◌, arith,
}
use micro_xrce_dds_agent.Common.Int.{pos}
use micro_xrce_dds_agent.Common.Map.{pair_eq, find, emplace}
use micro_xrce_dds_agent.Object.{
  Entity, participant, ObjectVariant, Middleware, by_reference, participant_create,
}
use micro_xrce_dds_agent.Object.Id.{with_kind}
use micro_xrce_dds_agent.Client.Types.{status_ok, CreationMode, ObjectStore}
use micro_xrce_dds_agent.Client.Objects.{
  entity_of, create_object, delete_object, get_object, create_of_kind, create_participant,
}
use micro_xrce_dds_agent.Client.Creation.{specified, create_object-specified}
use micro_xrce_dds_agent.Client.Kept.{AreKept, create_object_unsupported, create_object-AreKept}
use micro_xrce_dds_agent.Client.Lookup.{
  left_behind, get_object-create_object, get_object-delete_object,
}
use micro_xrce_dds_agent.Client.Prefix.{same}
use micro_xrce_dds_agent.Client.Ownership.{
  Tracked, AreOwned, create_object-AreOwned, delete_object-AreOwned,
}

abbrev Entities : Type 0
Entities = Entity → ℕ → Bool

abbrev with_entity : Bool → Entity → ℕ → Entities → Entities
with_entity there e raw w f r = if same e raw f r then there else w f r

abbrev remembering : Middleware Entities
remembering = record {
  create_participant = λ raw domain form w. (true, with_entity true participant raw w);
  create = λ e raw parent form w. (true, with_entity true e raw w);
  delete = λ e raw w. with_entity false e raw w;
  matched_participant = λ raw domain form w. false;
  matched = λ e raw form w. false;
}

abbrev tracked : Tracked remembering
tracked = record {
  live = λ w. w;
  created_participant = λ raw domain form w f r. refl;
  created = λ e raw parent form w f r. refl;
  deleted = λ e raw w f r. refl;
}

abbrev empty : ObjectStore Entities
empty = record { objects = []; world = λ f r. false }

abbrev mode : CreationMode
mode = record { reuse = false; replace = true }

-- A participant in the domain 0.
abbrev variant : ℕ → ObjectVariant
variant d = record {
  d = d;
  domain_id = pos 0;
  parent_id = (0, 0);
  representation = by_reference [];
}

-- The client once the participant with the prefix 0x01 0x20 is created.
abbrev one : ObjectStore Entities
one = (create_object remembering mode (1, 32) (variant 1) empty).1

empty-AreKept : AreKept []
unfolding find
empty-AreKept i o e = cc

empty-AreOwned : AreOwned remembering tracked empty
unfolding find
empty-AreOwned e i octets = refl

is_participant : entity_of 1 ≡ some participant
unfolding entity_of
is_participant = refl

one-AreKept : AreKept one.objects
one-AreKept =
    create_object-AreKept remembering mode (1, 32) (variant 1) empty (omega arith) (omega arith)
      empty-AreKept

create_object-AreOwned_example : AreOwned remembering tracked one
create_object-AreOwned_example =
    create_object-AreOwned remembering tracked mode (1, 32) (variant 1) empty
      (omega arith, omega arith) (omega arith) empty-AreKept empty-AreOwned

one-AreOwned : AreOwned remembering tracked one
one-AreOwned =
    create_object-AreOwned remembering tracked mode (1, 32) (variant 1) empty
      (omega arith, omega arith) (omega arith) empty-AreKept empty-AreOwned

delete_object-AreOwned_example :
    AreOwned remembering tracked (delete_object remembering (1, 33) one).1
delete_object-AreOwned_example =
    delete_object-AreOwned remembering tracked (1, 33) one (omega arith, omega arith) one-AreKept
      one-AreOwned

create_object-specified_example :
    create_object remembering mode (1, 32) (variant 1) one
    ≡ specified remembering participant mode (with_kind (1, 32) 1) (variant 1) one
create_object-specified_example =
    create_object-specified remembering participant mode (1, 32) (variant 1) one is_participant

get_object-create_object_example :
    get_object remembering (with_kind (1, 32) 1) one
    ≡ left_behind
        (create_object remembering mode (1, 32) (variant 1) empty).0
        (record { class = participant; id = with_kind (1, 32) 1 })
        (get_object remembering (with_kind (1, 32) 1) empty)
get_object-create_object_example =
    get_object-create_object remembering participant mode (1, 32) (variant 1) empty is_participant

get_object-delete_object_example :
    (get_object remembering (1, 33) (delete_object remembering (1, 33) one).1 ≡ none)
    × ((delete_object remembering (1, 33) one).0 ≡ status_ok)
unfolding get_object create_object create_of_kind entity_of create_participant find emplace
    with_kind participant_create
get_object-delete_object_example = get_object-delete_object remembering (1, 33) (1, 33) one

-- An application.
create_object_unsupported_example :
    create_object remembering mode (1, 32) (variant 12) one ≡ (status_ok, one)
unfolding entity_of
create_object_unsupported_example =
    create_object_unsupported remembering mode (1, 32) (variant 12) one (omega arith) (omega arith)
      one-AreKept refl
