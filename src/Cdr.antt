-- ===== src/Cdr.antt =====
-- eProsima Fast CDR, which the repository fetches and does not contain, as the code of
-- include/uxr/agent/message/ and of the generated types uses it: a `fastcdr::Cdr` over a
-- `FastBuffer`, to write (OutputMessage) or to read (InputMessage). The operations are a
-- parameter of every definition that serializes; the laws are what Fast CDR documents of them.
pub mod Sequence
pub mod ListCdr
use micro_xrce_dds_agent.Common.{
  ℕ, ◌+◌, ◌*◌, ◌/◌, ◌%◌, ◌≤◌, ◌<◌, ◌≡◌, Bool, true, false, List, [], ◌∷◌, ◌++◌, Option, none, some,
  length, replicate,
}

-- `false` and `none` stand for a NotEnoughMemoryException, which leaves the position where it was.
pub record Cdr : Type 1 where
  pub Writer : Type 0
  -- A serializer at the start of a zeroed buffer of the given length.
  pub writer : ℕ → Writer
  -- The bytes of the buffer up to `get_serialized_data_length()`.
  pub written : Writer → List ℕ
  pub capacity : Writer → ℕ
  -- Octets and arrays of octets.
  pub put : List ℕ → Writer → Bool × Writer
  -- `serialize(uint16_t, LITTLE_ENDIANNESS)`.
  pub put_u16 : ℕ → Writer → Bool × Writer
  pub jump : ℕ → Writer → Writer
  pub written-writer : (n : ℕ) → written (writer n) ≡ []
  pub capacity-writer : (n : ℕ) → capacity (writer n) ≡ n
  pub put_fits :
      (bs : List ℕ) (w : Writer)
      → length (written w) + length bs ≤ capacity w
      → ((put bs w).0 ≡ true)
        × (written (put bs w).1 ≡ written w ++ bs)
        × (capacity (put bs w).1 ≡ capacity w)
  pub put_full :
      (bs : List ℕ) (w : Writer)
      → capacity w < length (written w) + length bs
      → put bs w ≡ (false, w)
  pub put_u16_even :
      (n : ℕ) (w : Writer)
      → length (written w) % 2 ≡ 0
      → put_u16 n w ≡ put (n % 256 ∷ n / 256 ∷ []) w
  pub jump_fits :
      (n : ℕ) (w : Writer)
      → length (written w) + n ≤ capacity w
      → (written (jump n w) ≡ written w ++ replicate n 0) × (capacity (jump n w) ≡ capacity w)
  pub Reader : Type 0
  pub reader : List ℕ → Reader
  -- `get_serialized_data_length()`, which counts the bytes read, and the bytes behind it.
  pub position : Reader → ℕ
  pub rest : Reader → List ℕ
  pub get_octet : Reader → Option (ℕ × Reader)
  -- `deserialize_array` of octets.
  pub get_array : ℕ → Reader → Option (List ℕ × Reader)
  -- `deserialize(uint16_t, LITTLE_ENDIANNESS)`.
  pub get_u16 : Reader → Option (ℕ × Reader)
  pub jump_read : ℕ → Reader → Reader
  pub endianness : Reader → ℕ
  pub change_endianness : ℕ → Reader → Reader
  pub rest-reader : (bs : List ℕ) → rest (reader bs) ≡ bs
  pub position-reader : (bs : List ℕ) → position (reader bs) ≡ 0
  pub get_octet_some :
      (x : ℕ) (xs : List ℕ) (r : Reader)
      → rest r ≡ x ∷ xs
      → (r' : Reader) × (get_octet r ≡ some (x, r'))
        × (rest r' ≡ xs)
        × (position r' ≡ position r + 1)
  pub get_octet_none : (r : Reader) → rest r ≡ [] → get_octet r ≡ none
  pub get_array_some :
      (xs ys : List ℕ) (r : Reader)
      → rest r ≡ xs ++ ys
      → (r' : Reader) × (get_array (length xs) r ≡ some (xs, r'))
        × (rest r' ≡ ys)
        × (position r' ≡ position r + length xs)
  pub get_array_none : (n : ℕ) (r : Reader) → length (rest r) < n → get_array n r ≡ none
  pub get_u16_some :
      (x y : ℕ) (xs : List ℕ) (r : Reader)
      → rest r ≡ x ∷ y ∷ xs
      → position r % 2 ≡ 0
      → (r' : Reader) × (get_u16 r ≡ some (x + 256 * y, r'))
        × (rest r' ≡ xs)
        × (position r' ≡ position r + 2)
  pub get_u16_none : (r : Reader) → length (rest r) < 2 → get_u16 r ≡ none
  pub jump_read_some :
      (xs ys : List ℕ) (r : Reader)
      → rest r ≡ xs ++ ys
      → (rest (jump_read (length xs) r) ≡ ys)
        × (position (jump_read (length xs) r) ≡ position r + length xs)
  pub jump_read_none : (n : ℕ) (r : Reader) → length (rest r) < n → jump_read n r ≡ r
  pub change_endianness_lem :
      (e : ℕ) (r : Reader)
      → (rest (change_endianness e r) ≡ rest r)
        × (position (change_endianness e r) ≡ position r)
        × (endianness (change_endianness e r) ≡ e)
  -- `Cdr::alignment(current_alignment, data_size)`.
  pub alignment : ℕ → ℕ → ℕ
  pub alignment_one : (n : ℕ) → alignment n 1 ≡ 0
  pub alignment_two : (n : ℕ) → n % 2 ≡ 0 → alignment n 2 ≡ 0
