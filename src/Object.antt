-- ===== src/Object.antt =====
-- The XRCE objects of a client and the calls that they make of the middleware:
-- include/uxr/agent/object/XRCEObject.hpp and, under src/cpp/, participant/Participant.cpp,
-- topic/Topic.cpp, publisher/Publisher.cpp, subscriber/Subscriber.cpp,
-- datawriter/DataWriter.cpp, datareader/DataReader.cpp, requester/Requester.cpp and
-- replier/Replier.cpp. The middleware is a parameter, the functions of
-- include/uxr/agent/middleware/Middleware.hpp on a state of its own; it is also what reads the
-- binary form of a representation, with generated code. An accessor of a union's member of
-- another kind throws, which cannot come about for an object kept under its own id
-- (Client/Kept). Left out are the frequency that a build with UAGENT_RESTRICT or UAGENT_PROTECT
-- looks up for a data writer or reader, and the thread that a reader stops when it goes.
pub mod Id
use Prim.Native.Nat.{bit_and}
use micro_xrce_dds_agent.Common.{
  ℕ, Bool, true, false, List, Option, none, some, ◌==◌, if◌then◌else◌,
}
use micro_xrce_dds_agent.Common.Int.{ℤ}
use micro_xrce_dds_agent.Object.Id.{ObjectId, objectid_to_raw}

-- The classes that have an XRCEObject.
pub data Entity : Type 0 where
  participant : Entity
  topic : Entity
  publisher : Entity
  subscriber : Entity
  datawriter : Entity
  datareader : Entity
  requester : Entity
  replier : Entity

-- OBJK_PARTICIPANT to OBJK_REPLIER.
abbrev pub kind : Entity → ℕ
kind participant = 1
kind topic = 2
kind publisher = 3
kind subscriber = 4
kind datawriter = 5
kind datareader = 6
kind requester = 7
kind replier = 8

-- The representation inside an object's representation: a union with the discriminators
-- REPRESENTATION_BY_REFERENCE, REPRESENTATION_AS_XML_STRING and REPRESENTATION_IN_BINARY, this
-- one with the endianness that the octets have.
pub data Representation : Type 0 where
  by_reference : List ℕ → Representation
  as_xml_string : List ℕ → Representation
  in_binary : Bool → List ℕ → Representation
  other_representation : Representation

-- The union with its discriminator `_d`; a participant's member has a domain, the others' the id
-- of a parent.
pub record ObjectVariant : Type 0 where
  pub d : ℕ
  pub domain_id : ℤ
  pub parent_id : ObjectId
  pub representation : Representation

-- What follows `_by_` and `_from_` in the names of the middleware's functions.
pub data Form : Type 0 where
  ref : List ℕ → Form
  xml : List ℕ → Form
  bin : Bool → List ℕ → Form

-- `create_participant_by_ref` is `create_participant` at a form `ref`, `create_topic_by_xml` is
-- `create` at `topic` and a form `xml`, and so on.
pub record Middleware (World : Type 0) : Type 0 where
  pub create_participant : ℕ → ℤ → Form → World → Bool × World
  pub create : Entity → ℕ → ℕ → Form → World → Bool × World
  pub delete : Entity → ℕ → World → World
  pub matched_participant : ℕ → ℤ → Form → World → Bool
  pub matched : Entity → ℕ → Form → World → Bool

-- An object is of a class, and has the id that its constructor gets.
pub record XrceObject : Type 0 where
  pub class : Entity
  pub id : ObjectId

unfoldable pub get_raw_id : XrceObject → ℕ
get_raw_id o = objectid_to_raw o.id

-- `switch (representation._d())`, with no call and `created_entity` false for `default`.
abbrev pub by_form {ℓ} : {A : Type ℓ} → Representation → (Form → A) → A → A
by_form (by_reference reference) call missing = call (ref reference)
by_form (as_xml_string text) call missing = call (xml text)
by_form (in_binary endianness octets) call missing = call (bin endianness octets)
by_form other_representation call missing = missing

-- The same with no case for a reference, and no default.
abbrev pub by_xml_or_bin {ℓ} : {A : Type ℓ} → Representation → (Form → A) → A → A
by_xml_or_bin (by_reference reference) call missing = missing
by_xml_or_bin r call missing = by_form r call missing

module _ {World : Type 0} (m : Middleware World) where
  -- `created_entity ? new Class(object_id, proxy_client) : nullptr`.
  abbrev pub made : Entity → ObjectId → Bool × World → Option XrceObject × World
  made e i (created_entity, w) =
      (if created_entity then some (record { class = e; id = i }) else none, w)

  unfoldable pub participant_create : ObjectId → ObjectVariant → World → Option XrceObject × World
  participant_create object_id v w = made participant object_id (
      by_form v.representation
        (λ f. m.create_participant (objectid_to_raw object_id) v.domain_id f w) (false, w))

  -- The part that Topic, DataWriter, DataReader, Requester and Replier have alike.
  abbrev child_create : Entity → ObjectId → ℕ → ObjectVariant → World → Option XrceObject × World
  child_create e object_id parent v w =
      made e object_id (
        by_form v.representation (λ f. m.create e (objectid_to_raw object_id) parent f w)
          (false, w))

  unfoldable pub topic_create : ObjectId → ℕ → ObjectVariant → World → Option XrceObject × World
  topic_create = child_create topic

  unfoldable pub publisher_create : ObjectId → ℕ → ObjectVariant → World → Option XrceObject × World
  publisher_create object_id parent v w = made publisher object_id (
      by_xml_or_bin v.representation
        (λ f. m.create publisher (objectid_to_raw object_id) parent f w) (false, w))

  unfoldable pub subscriber_create :
      ObjectId → ℕ → ObjectVariant → World → Option XrceObject × World
  subscriber_create object_id parent v w = made subscriber object_id (
      by_xml_or_bin v.representation
        (λ f. m.create subscriber (objectid_to_raw object_id) parent f w) (false, w))

  unfoldable pub datawriter_create :
      ObjectId → ℕ → ObjectVariant → World → Option XrceObject × World
  datawriter_create = child_create datawriter

  unfoldable pub datareader_create :
      ObjectId → ℕ → ObjectVariant → World → Option XrceObject × World
  datareader_create = child_create datareader

  unfoldable pub requester_create : ObjectId → ℕ → ObjectVariant → World → Option XrceObject × World
  requester_create = child_create requester

  unfoldable pub replier_create : ObjectId → ℕ → ObjectVariant → World → Option XrceObject × World
  replier_create = child_create replier

  -- The destructors.
  unfoldable pub destroy : XrceObject → World → World
  destroy o = m.delete o.class (get_raw_id o)

  -- `matched`, a virtual function: publishers and subscribers match anything, the others what
  -- the middleware matches among the representations of their kind.
  unfoldable pub matched : XrceObject → ObjectVariant → World → Bool
  matched o v w = elim o.class [
    | publisher ↦ true
    | subscriber ↦ true
    | participant ↦
        if bit_and o.id.1 15 == v.d
        then by_form v.representation (λ f. m.matched_participant (get_raw_id o) v.domain_id f w)
            false
        else false
    | e ↦
        if bit_and o.id.1 15 == v.d
        then by_form v.representation (λ f. m.matched e (get_raw_id o) f w) false
        else false
  ]
