-- ===== src/Client/Prefix.antt =====
-- Objects by their kind and by their prefix, which is how the middleware names them
-- (src/cpp/client/ProxyClient.cpp and include/uxr/agent/utils/Conversion.hpp).
use micro_xrce_dds_agent.Common.{
  ℕ, ◌%◌, ◌<◌, ◌≡◌, refl, ap, ◌∙◌, Bool, true, false, ◌&&◌, Option, none, if◌then◌else◌, arith,
  ◌==◌, is_some,
}
use micro_xrce_dds_agent.Common.Map.{
  pair_eq, Map, pair_beq, find, erase, emplace, find-erase, find-emplace,
}
use micro_xrce_dds_agent.Object.{Entity, kind, XrceObject}
use micro_xrce_dds_agent.Object.Id.{
  ObjectId, objectid_to_raw, with_kind, with_kind_lem, with_kind_octet,
}
use micro_xrce_dds_agent.Client.Kept.{entity_of-kind}

abbrev pub same : Entity → ℕ → Entity → ℕ → Bool
same e raw f r = (kind e == kind f) && (raw == r)

-- Whether there is an object of a kind under a prefix.
abbrev pub has : Map ObjectId XrceObject → Entity → ObjectId → Bool
has objects e i = is_some (find (with_kind i (kind e)) objects)

abbrev pub IsOctets : ObjectId → Type 0
IsOctets i = (i.0 < 256) × (i.1 < 256)

pub kind_lt : (e : Entity) → kind e < 16
kind_lt e = ground arith

-- Two kept ids are the same if the kinds and the raw ids are.
pub with_kind-same :
    (e f : Entity) (i j : ObjectId)
    → IsOctets i
    → IsOctets j
    → pair_beq (with_kind i (kind e)) (with_kind j (kind f))
      ≡ same e (objectid_to_raw i) f (objectid_to_raw j)
unfolding with_kind objectid_to_raw
with_kind-same e f (a, b) (x, y) (ha, hb) (hx, hy) =
    rw (with_kind_octet b (kind e) hb (kind_lt e), with_kind_octet y (kind f) hy (kind_lt f))
      (ground (arith, kind_lt e, kind_lt f))

pub kind_injective : (e f : Entity) → kind e ≡ kind f → e ≡ f
kind_injective e f same = cc (entity_of-kind e, entity_of-kind f)

pub with_kind_own :
    (i : ObjectId) (e : Entity) → IsOctets i → i.1 % 16 ≡ kind e → with_kind i (kind e) ≡ i
unfolding with_kind
with_kind_own (a, b) e octets low =
    ap (λ x. (a, x)) (with_kind_octet b (kind e) octets.1 (kind_lt e) ∙ omega (arith, low))

is_some_if :
    {A : Type 0} (b : Bool) (x y : Option A)
    → is_some (if b then x else y) ≡ (if b then is_some x else is_some y)
is_some_if true x y = refl
is_some_if false x y = refl

pub has-emplace :
    (e f : Entity) (p j : ObjectId) (o : XrceObject) (objects : Map ObjectId XrceObject)
    → IsOctets p
    → IsOctets j
    → find (with_kind p (kind e)) objects ≡ none
    → has (emplace (with_kind p (kind e)) o objects) f j
      ≡ (if same e (objectid_to_raw p) f (objectid_to_raw j) then true else has objects f j)
has-emplace e f p j o objects hp hj absent =
    ap is_some (find-emplace (with_kind p (kind e)) (with_kind j (kind f)) o objects absent)
    ∙ (is_some_if _ _ _
        ∙ ap (λ b. if b then true else has objects f j) (with_kind-same e f p j hp hj))

pub has-erase :
    (e f : Entity) (p j : ObjectId) (objects : Map ObjectId XrceObject)
    → IsOctets p
    → IsOctets j
    → has (erase (with_kind p (kind e)) objects) f j
      ≡ (if same e (objectid_to_raw p) f (objectid_to_raw j) then false else has objects f j)
has-erase e f p j objects hp hj =
    ap is_some (find-erase (with_kind p (kind e)) (with_kind j (kind f)) objects)
    ∙ (is_some_if _ _ _
        ∙ ap (λ b. if b then false else has objects f j) (with_kind-same e f p j hp hj))

pub raw-with_kind :
    (p : ObjectId) (e : Entity)
    → IsOctets p
    → objectid_to_raw (with_kind p (kind e)) ≡ objectid_to_raw p
raw-with_kind p e octets = (with_kind_lem p (kind e) octets.1 (kind_lt e)).1
