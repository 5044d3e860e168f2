-- ===== src/Cdr/ListCdr.antt =====
-- Fast CDR over plain lists of bytes: the assumptions of `Cdr` can be met.
use micro_xrce_dds_agent.Common.{
  ℕ, ◌+◌, ◌-◌, ◌*◌, ◌/◌, ◌%◌, ◌≤◌, ◌<◌, ◌≡◌, refl, ap, Bool, true, false, List, [], ◌∷◌, ◌++◌,
  Option, none, some, length, length-append, take-append, drop-append, replicate, take, drop, arith,
  leb, if◌then◌else◌,
}
use micro_xrce_dds_agent.Cdr.{Cdr}

pub record Buffer : Type 0 where
  pub bytes : List ℕ
  pub room : ℕ

pub record Input : Type 0 where
  pub at : ℕ
  pub left : List ℕ
  pub order : ℕ

abbrev pub append : List ℕ → Buffer → Bool × Buffer
append bs w =
    if leb (length w.bytes + length bs) w.room
    then (true, record w { bytes = w.bytes ++ bs })
    else (false, w)

abbrev pub forward : ℕ → Buffer → Buffer
forward n w =
    if leb (length w.bytes + n) w.room then record w { bytes = w.bytes ++ replicate n 0 } else w

abbrev pub octet : Input → Option (ℕ × Input)
octet r = elim r.left [ [] ↦ none | x ∷ xs ↦ some (x, record r { at = r.at + 1; left = xs }) ]

abbrev pub array : ℕ → Input → Option (List ℕ × Input)
array n r =
    if leb n (length r.left)
    then some (take n r.left, record r { at = r.at + n; left = drop n r.left })
    else none

abbrev pub u16 : Input → Option (ℕ × Input)
u16 r = elim r.left [
  | [] ↦ none
  | x ∷ [] ↦ none
  | x ∷ y ∷ xs ↦ some (x + 256 * y, record r { at = r.at + 2; left = xs })
]

abbrev pub skip : ℕ → Input → Input
skip n r = if leb n (length r.left) then record r { at = r.at + n; left = drop n r.left } else r

pub append_fits :
    (bs : List ℕ) (w : Buffer)
    → length w.bytes + length bs ≤ w.room
    → ((append bs w).0 ≡ true)
      × ((append bs w).1.bytes ≡ w.bytes ++ bs)
      × ((append bs w).1.room ≡ w.room)
append_fits bs w h = ground arith

pub append_full :
    (bs : List ℕ) (w : Buffer) → w.room < length w.bytes + length bs → append bs w ≡ (false, w)
append_full bs w h = ground arith

pub forward_fits :
    (n : ℕ) (w : Buffer)
    → length w.bytes + n ≤ w.room
    → ((forward n w).bytes ≡ w.bytes ++ replicate n 0) × ((forward n w).room ≡ w.room)
forward_fits n w h = ground arith

pub octet-some :
    (x : ℕ) (xs : List ℕ) (r : Input)
    → r.left ≡ x ∷ xs
    → (r' : Input) × (octet r ≡ some (x, r')) × (r'.left ≡ xs) × (r'.at ≡ r.at + 1)
octet-some x xs r e = (record r { at = r.at + 1; left = xs }, ground arith, refl, refl)

pub octet-none : (r : Input) → r.left ≡ [] → octet r ≡ none
octet-none r e = ground arith

pub array-some :
    (xs ys : List ℕ) (r : Input)
    → r.left ≡ xs ++ ys
    → (r' : Input) × (array (length xs) r ≡ some (xs, r'))
      × (r'.left ≡ ys)
      × (r'.at ≡ r.at + length xs)
array-some xs ys r e = (
  record r { at = r.at + length xs; left = ys },
  ground (arith, take-append xs ys, drop-append xs ys, length-append xs ys, ap length e),
  refl,
  refl,
)

pub array-none : (n : ℕ) (r : Input) → length r.left < n → array n r ≡ none
array-none n r h = ground arith

pub u16-some :
    (x y : ℕ) (xs : List ℕ) (r : Input)
    → r.left ≡ x ∷ y ∷ xs
    → (r' : Input) × (u16 r ≡ some (x + 256 * y, r')) × (r'.left ≡ xs) × (r'.at ≡ r.at + 2)
u16-some x y xs r e = (record r { at = r.at + 2; left = xs }, ground arith, refl, refl)

pub u16_short : (xs : List ℕ) (r : Input) → r.left ≡ xs → length xs < 2 → u16 r ≡ none
u16_short [] r e h = ground arith
u16_short (x ∷ []) r e h = ground arith
u16_short (x ∷ y ∷ xs) r e h = absurd (omega arith)

pub skip_some :
    (xs ys : List ℕ) (r : Input)
    → r.left ≡ xs ++ ys
    → ((skip (length xs) r).left ≡ ys) × ((skip (length xs) r).at ≡ r.at + length xs)
skip_some xs ys r e = ground (arith, drop-append xs ys, length-append xs ys, ap length e)

pub skip_none : (n : ℕ) (r : Input) → length r.left < n → skip n r ≡ r
skip_none n r h = ground arith

abbrev pub list_cdr : Cdr
list_cdr = record {
  Writer = Buffer;
  writer = λ n. record { bytes = []; room = n };
  written = λ w. w.bytes;
  capacity = λ w. w.room;
  put = append;
  put_u16 = λ n. append (n % 256 ∷ n / 256 ∷ []);
  jump = forward;
  written-writer = λ n. refl;
  capacity-writer = λ n. refl;
  put_fits = append_fits;
  put_full = append_full;
  put_u16_even = λ n w h. refl;
  jump_fits = forward_fits;
  Reader = Input;
  reader = λ bs. record { at = 0; left = bs; order = 1 };
  position = λ r. r.at;
  rest = λ r. r.left;
  get_octet = octet;
  get_array = array;
  get_u16 = u16;
  jump_read = skip;
  endianness = λ r. r.order;
  change_endianness = λ e r. record r { order = e };
  rest-reader = λ bs. refl;
  position-reader = λ bs. refl;
  get_octet_some = octet-some;
  get_octet_none = octet-none;
  get_array_some = array-some;
  get_array_none = array-none;
  get_u16_some = λ x y xs r e _. u16-some x y xs r e;
  get_u16_none = λ r h. u16_short r.left r refl h;
  jump_read_some = skip_some;
  jump_read_none = skip_none;
  change_endianness_lem = λ e r. (refl, refl, refl);
  alignment = λ n size. (size - n % size) % size;
  alignment_one = λ n. omega arith;
  alignment_two = λ n h. omega arith;
}
