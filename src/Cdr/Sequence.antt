-- ===== src/Cdr/Sequence.antt =====
-- Chains of writes and reads: an exception ends the chain where it stands.
use micro_xrce_dds_agent.Common.{
  ℕ, ◌+◌, ◌*◌, ◌%◌, ◌/◌, ◌≤◌, ◌≡◌, refl, Bool, true, false, List, [], ◌∷◌, ◌++◌, none, some, length,
  length-append, arith, ◌∙◌, ap,
}
use micro_xrce_dds_agent.Cdr.{Cdr}
use mathlib.Core.List.{append_assoc}
use mathlib.Core.Bool.{false≢true}

module _ (c : Cdr) where
  abbrev pub Write : Type 0
  Write = c.Writer → Bool × c.Writer

  infixl 5 ◌>>◌
  unfoldable pub ◌>>◌ : Write → Write → Write
  ◌>>◌ m k w = let (done, w') = m w in elim done [ true ↦ k w' | false ↦ (false, w') ]

  -- What a chain of writes does from `w` on: it succeeds and appends `bs`.
  pub record Puts (w : c.Writer) (r : Bool × c.Writer) (bs : List ℕ) : Type 0 where
    pub done : r.0 ≡ true
    pub bytes : c.written r.1 ≡ c.written w ++ bs
    pub room : c.capacity r.1 ≡ c.capacity w

  pub Puts-put :
      (bs : List ℕ) (w : c.Writer)
      → length (c.written w) + length bs ≤ c.capacity w
      → Puts w (c.put bs w) bs
  Puts-put bs w h = let (p, q, r) = c.put_fits bs w h in record { done = p; bytes = q; room = r }

  pub Puts-put_u16 :
      (n : ℕ) (w : c.Writer)
      → length (c.written w) % 2 ≡ 0
      → length (c.written w) + 2 ≤ c.capacity w
      → Puts w (c.put_u16 n w) (n % 256 ∷ n / 256 ∷ [])
  Puts-put_u16 n w e h = rw (c.put_u16_even n w e) (Puts-put _ w h)

  pub Puts-length :
      {w : c.Writer} {r : Bool × c.Writer} {bs : List ℕ}
      → Puts w r bs
      → length (c.written r.1) ≡ length (c.written w) + length bs
  Puts-length {w} {r} {bs} p = ap length p.bytes ∙ length-append (c.written w) bs

  pub Puts-then :
      (m k : Write) (w : c.Writer) {bs cs : List ℕ}
      → Puts w (m w) bs
      → ((w' : c.Writer)
          → length (c.written w') ≡ length (c.written w) + length bs
          → c.capacity w' ≡ c.capacity w
          → Puts w' (k w') cs)
      → Puts w ((m >> k) w) (bs ++ cs)
  unfolding ◌>>◌
  Puts-then m k w {bs} {cs} p next =
      let q = next (m w).1 (Puts-length p) p.room in
      rw (p.done, ◌>>◌)
        (record {
          done = q.done;
          bytes = q.bytes ∙ ap (λ xs. xs ++ cs) p.bytes ∙ append_assoc (c.written w) bs cs;
          room = q.room ∙ p.room;
        })

module _ (c : Cdr) (T : Type 0) where
  -- A chain of reads fills the fields of a value of type `T`.
  abbrev pub Read : Type 0
  Read = T × c.Reader → Bool × T × c.Reader

  unfoldable pub and_then : Bool × T × c.Reader → Read → Bool × T × c.Reader
  and_then (true, t, r) k = k (t, r)
  and_then (false, t, r) k = (false, t, r)

  unfoldable pub read_octet : (ℕ → T → T) → Read
  read_octet set (t, r) = elim (c.get_octet r) [
    | none ↦ (false, t, r)
    | some (x, r') ↦ (true, set x t, r')
  ]

  unfoldable pub read_u16 : (ℕ → T → T) → Read
  read_u16 set (t, r) = elim (c.get_u16 r) [
    | none ↦ (false, t, r)
    | some (x, r') ↦ (true, set x t, r')
  ]

  unfoldable pub read_array : ℕ → (List ℕ → T → T) → Read
  read_array n set (t, r) = elim (c.get_array n r) [
    | none ↦ (false, t, r)
    | some (xs, r') ↦ (true, set xs t, r')
  ]

  -- What a chain of reads does from `r` on: it succeeds with `t`, `n` bytes further on, and
  -- leaves `more` to be read.
  pub record Gets (r : c.Reader) (res : Bool × T × c.Reader) (t : T) (n : ℕ) (more : List ℕ)
      : Type 0 where
    pub done : res.0 ≡ true
    pub value : res.1 ≡ t
    pub left : c.rest res.2 ≡ more
    pub moved : c.position res.2 ≡ c.position r + n

  pub Gets-octet :
      (set : ℕ → T → T) (t : T) (r : c.Reader) {x : ℕ} {more : List ℕ}
      → c.rest r ≡ x ∷ more
      → Gets r (read_octet set (t, r)) (set x t) 1 more
  unfolding read_octet
  Gets-octet set t r {x} {more} e =
      let (r', g, l, p) = c.get_octet_some x more r e in
      rw (g, read_octet) (record { done = refl; value = refl; left = l; moved = p })

  pub Gets-u16 :
      (set : ℕ → T → T) (t : T) (r : c.Reader) {x y : ℕ} {more : List ℕ}
      → c.rest r ≡ x ∷ y ∷ more
      → c.position r % 2 ≡ 0
      → Gets r (read_u16 set (t, r)) (set (x + 256 * y) t) 2 more
  unfolding read_u16
  Gets-u16 set t r {x} {y} {more} e h =
      let (r', g, l, p) = c.get_u16_some x y more r e h in
      rw (g, read_u16) (record { done = refl; value = refl; left = l; moved = p })

  pub Gets-array :
      (n : ℕ) (set : List ℕ → T → T) (t : T) (r : c.Reader) (xs : List ℕ) {more : List ℕ}
      → c.rest r ≡ xs ++ more
      → length xs ≡ n
      → Gets r (read_array n set (t, r)) (set xs t) n more
  unfolding read_array
  Gets-array n set t r xs {more} e h = rw (← h) (
      let (r', g, l, p) = c.get_array_some xs more r e in
      rw (g, read_array) (record { done = refl; value = refl; left = l; moved = p }))

  pub Gets-then :
      (r : c.Reader) (res : Bool × T × c.Reader) (k : Read) {t u : T} {m n : ℕ} {mid more : List ℕ}
      → Gets r res t m mid
      → ((r' : c.Reader)
          → c.rest r' ≡ mid
          → c.position r' ≡ c.position r + m
          → Gets r' (k (t, r')) u n more)
      → Gets r (and_then res k) u (m + n) more
  unfolding and_then
  Gets-then r (false, t, r') k g next = absurd (false≢true g.done)
  Gets-then r (true, t, r') k {m = m} {n = n} g next =
      let h = next r' g.left g.moved in
      rw g.value (record {
        done = h.done;
        value = h.value;
        left = h.left;
        moved = omega (arith, h.moved, g.moved);
      })
