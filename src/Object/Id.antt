-- ===== src/Object/Id.antt =====
-- Object ids, object prefixes and client keys as octets and as integers
-- (include/uxr/agent/utils/Conversion.hpp). `uint8_t` is `% 256`, `uint16_t` is `% 65536` and
-- `uint32_t` is `% 2^32`.
use Prim.Native.Nat.{bit_or, bit_and}
use micro_xrce_dds_agent.Common.{
  ℕ, ◌+◌, ◌*◌, ◌/◌, ◌%◌, ◌^◌, ◌<◌, ◌≡◌, refl, ap, true, ◌==◌, ==_iff, List, [], ◌∷◌, arith,
}
use micro_xrce_dds_agent.Common.Bits.{holds_under, holds_under-at}

-- An array of two octets: the id's upper eight bits, and its lower four with the object's kind.
abbrev pub ObjectId : Type 0
ObjectId = ℕ × ℕ

unfoldable pub objectid_to_raw : ObjectId → ℕ
objectid_to_raw (high, low) = (low / 16 + high * 16) % 65536

unfoldable pub raw_to_objectid : ℕ → ℕ → ObjectId
raw_to_objectid raw kind = (raw / 16 % 256, bit_or (raw * 16) kind % 256)

unfoldable pub raw_to_objectprefix : ℕ → ObjectId
raw_to_objectprefix raw = (raw / 16 % 256, raw * 16 % 256)

unfoldable pub clientkey_to_raw : ℕ → ℕ → ℕ → ℕ → ℕ
clientkey_to_raw a b c d = (a * 2 ^ 24 + b * 2 ^ 16 + c * 2 ^ 8 + d) % 2 ^ 32

unfoldable pub raw_to_clientkey : ℕ → List ℕ
raw_to_clientkey key = key / 2 ^ 24 % 256 ∷ key / 2 ^ 16 % 256 ∷ key / 2 ^ 8 % 256 ∷ key % 256 ∷ []

-- The id of an object of a kind: `(prefix[1] & 0xF0) | kind` is its second octet.
unfoldable pub with_kind : ObjectId → ℕ → ObjectId
with_kind prefix kind = (prefix.0, bit_or (bit_and prefix.1 240) kind)

with_kind_table :
    holds_under (λ p. holds_under (λ d. bit_or (bit_and p 240) d == p / 16 * 16 + d) 16) 256 ≡ true
unfolding holds_under
with_kind_table = refl

pub with_kind_octet : (p d : ℕ) → p < 256 → d < 16 → bit_or (bit_and p 240) d ≡ p / 16 * 16 + d
with_kind_octet p d hp hd =
    (==_iff _ _).0 (holds_under-at _ 16 d hd (holds_under-at _ 256 p hp with_kind_table))

raw_table : holds_under (λ r. holds_under (λ d. bit_or (r * 16) d == r * 16 + d) 16) 4096 ≡ true
unfolding holds_under
raw_table = refl

pub raw_octet : (r d : ℕ) → r < 4096 → d < 16 → bit_or (r * 16) d ≡ r * 16 + d
raw_octet r d hr hd =
    (==_iff _ _).0 (holds_under-at _ 16 d hd (holds_under-at _ 4096 r hr raw_table))

-- An id is made again from its raw form and its kind.
pub raw_to_objectid-objectid_to_raw :
    (high low : ℕ)
    → high < 256
    → low < 256
    → raw_to_objectid (objectid_to_raw (high, low)) (low % 16) ≡ (high, low)
unfolding raw_to_objectid objectid_to_raw
raw_to_objectid-objectid_to_raw high low hh hl =
    let r = (low / 16 + high * 16) % 65536 in
    let e : bit_or (r * 16) (low % 16) ≡ r * 16 + low % 16 =
      raw_octet r (low % 16) (omega arith) (omega arith) in
    let a : r / 16 % 256 ≡ high = omega arith in
    let b : (r * 16 + low % 16) % 256 ≡ low = omega arith in rw (e, a, b) refl

-- The raw form of an id made from a raw id of 12 bits and any kind is that raw id.
pub objectid_to_raw-raw_to_objectid :
    (raw kind : ℕ) → raw < 4096 → kind < 16 → objectid_to_raw (raw_to_objectid raw kind) ≡ raw
unfolding raw_to_objectid objectid_to_raw
objectid_to_raw-raw_to_objectid raw kind hr hk = rw (raw_octet raw kind hr hk) (omega arith)

-- A client key is made again from its integer.
pub raw_to_clientkey-clientkey_to_raw :
    (a b c d : ℕ)
    → a < 256
    → b < 256
    → c < 256
    → d < 256
    → raw_to_clientkey (clientkey_to_raw a b c d) ≡ a ∷ b ∷ c ∷ d ∷ []
unfolding raw_to_clientkey clientkey_to_raw
raw_to_clientkey-clientkey_to_raw a b c d ha hb hc hd =
    let key = (a * 2 ^ 24 + b * 2 ^ 16 + c * 2 ^ 8 + d) % 2 ^ 32 in
    let e1 : key / 2 ^ 24 % 256 ≡ a = omega arith in
    let e2 : key / 2 ^ 16 % 256 ≡ b = omega arith in
    let e3 : key / 2 ^ 8 % 256 ≡ c = omega arith in
    let e4 : key % 256 ≡ d = omega arith in rw (e1, e2, e3, e4) refl

-- The id that an object of a kind gets keeps the prefix and ends in the kind.
pub with_kind_lem :
    (prefix : ObjectId) (kind : ℕ)
    → prefix.1 < 256
    → kind < 16
    → (with_kind prefix kind).1 % 16 ≡ kind
      × objectid_to_raw (with_kind prefix kind) ≡ objectid_to_raw prefix
unfolding with_kind objectid_to_raw
with_kind_lem (high, low) kind hp hk =
    rw (with_kind_octet low kind hp hk)
      (omega arith, ap (λ x. (x + high * 16) % 65536) (omega arith))
