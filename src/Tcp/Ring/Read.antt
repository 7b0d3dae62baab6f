-- ===== src/Tcp/Ring/Read.antt =====
-- CircularBuffer::Read and Remove take the oldest bytes.
use cpp_sockets_library.Prelude.{
  ℕ, ◌+◌, ◌-◌, ◌*◌, ◌≡◌, ◌≤◌, ◌<◌, true, false, some, ◌++◌, [], ◌⊎◌, inl, inr, ◌≢◌, ◌∙◌, sym, ap,
  arith, Bytes, take, drop, le→ltb_false, ltb_false→le, ltb, leb, Bool-cases, ltb→lt, ◌==◌,
  if◌then◌else◌, ==→eq,
}
use cpp_sockets_library.Prelude.Mem.{
  copy_out-eq, slice, slice_ext, slice-add, take-slice, drop-slice, slice-zero,
}
use cpp_sockets_library.Tcp.Ring.{Ring, IsValid, contents, read, remove, settle}

-- A ring with the same cells whose `b` moved on by `l`, before the reset of an empty ring.
abbrev pub moved : Ring → ℕ → Ring
moved c l =
    if ltb c.max (c.b + l)
    then record c { b = l - (c.max - c.b); q = c.q - l }
    else record c { b = (if leb c.max (c.b + l) then c.b + l - c.max else c.b + l); q = c.q - l }

settle-IsValid :
    (c : Ring) → (c.q ≢ 0 → IsValid c) → (c.buf.size ≡ 2 * c.max) → 0 < c.max → IsValid (settle c)
unfolding settle
settle-IsValid c v sized pos = elim (Bool-cases (c.q == 0)) [
  | inl e ↦
      let z = ==→eq _ _ e in
      rw e (record {
        sized = sized;
        b_in = pos;
        q_in = omega arith;
        t_below = λ h. omega arith;
        t_above = λ h. omega arith;
        mirror = λ i lo hi. absurd (omega arith);
      })
  | inr e ↦ rw e (v (ground arith))
]

contents-settle : (c : Ring) → contents (settle c) ≡ contents c
unfolding settle contents
contents-settle c = ground (arith, slice-zero c.buf.cells c.b, slice-zero c.buf.cells 0)

module _ (c : Ring) (v : IsValid c) (l : ℕ) (enough : l ≤ c.q) where
  open c use {max, q, b, t}

  abbrev m : ℕ → ℕ
  m = c.buf.cells

  -- Past the border the ring continues at the start of the array.
  wrapped : (k i n : ℕ) → max + k ≡ i → i + n ≤ b + q → slice m i n ≡ slice m k n
  wrapped k i n e h = slice_ext m m i k n (λ j lt.
      let e' : i + j - max ≡ k + j = omega arith in
      v.mirror (i + j) (omega arith) (omega arith) ∙ rw e')

  abbrev at : ℕ → Ring
  at b' = record c { b = b'; q = q - l }

  moved_cases :
      ((b + l < max) × (moved c l ≡ at (b + l))) ⊎ ((max ≤ b + l) × (moved c l ≡ at (b + l - max)))
  moved_cases = elim (Bool-cases (ltb (b + l) max)) [
    | inl h ↦ inl (ltb→lt _ _ h, ground arith)
    | inr h ↦ inr (ltb_false→le _ _ h, ground (arith, v.b_in))
  ]

  low-IsValid : b + l < max → IsValid (at (b + l))
  low-IsValid h = record {
    sized = v.sized;
    b_in = h;
    q_in = omega (arith, v.q_in);
    t_below = λ k. v.t_below (omega arith) ∙ omega arith;
    t_above = λ k. v.t_above (omega arith) ∙ omega arith;
    mirror = λ i lo hi. v.mirror i lo (omega arith);
  }

  high-IsValid : max ≤ b + l → IsValid (at (b + l - max))
  high-IsValid h = record {
    sized = v.sized;
    b_in = omega (arith, v.q_in, v.b_in);
    q_in = omega (arith, v.q_in);
    t_below = λ k. v.t_above (omega arith) ∙ omega arith;
    t_above = λ k. absurd (omega (arith, v.q_in, v.b_in));
    mirror = λ i lo hi. absurd (omega (arith, v.q_in, v.b_in));
  }

  moved-IsValid : IsValid (moved c l)
  moved-IsValid = elim moved_cases [
    | inl (h, e) ↦ rw e (low-IsValid h)
    | inr (h, e) ↦ rw e (high-IsValid h)
  ]

  contents-moved : contents (moved c l) ≡ drop l (contents c)
  unfolding contents
  contents-moved = elim moved_cases [
    | inl (h, e) ↦ rw e (rw (drop-slice m b q l enough))
    | inr (h, e) ↦ rw e (
        rw (drop-slice m b q l enough)
          (sym (wrapped (b + l - max) (b + l) (q - l) (omega arith) (omega arith))))
  ]

  -- The two copies of a Read across the border are the first `l` bytes held.
  left_right : max < b + l → slice m b (max - b) ++ slice m 0 (l - (max - b)) ≡ take l (contents c)
  unfolding contents
  left_right h =
      let n = max - b in
      let e : l ≡ n + (l - n) = omega (arith, v.b_in) in
      let here : b + n ≡ max = omega (arith, v.b_in) in
      let parts : slice m b l ≡ slice m b n ++ slice m (b + n) (l - n) =
        ap (slice m b) e ∙ slice-add m b n (l - n) in
      rw (
        take-slice m b q l enough,
        parts,
        here,
        wrapped 0 max (l - n) (omega arith) (omega (arith, v.b_in)),
      )

  settled-IsValid : IsValid (settle (moved c l))
  settled-IsValid =
      let same : (moved c l).max ≡ max = ground arith in
      let same' : (moved c l).buf.size ≡ c.buf.size = ground arith in
      settle-IsValid (moved c l) (λ _. moved-IsValid) (rw (same, same') v.sized)
        (rw same (omega (arith, v.b_in)))

  whole : slice m b l ≡ take l (contents c)
  unfolding contents
  whole = sym (take-slice m b q l enough)

  read-eq : read c l ≡ some (settle (moved c l), take l (contents c), true)
  unfolding read
  read-eq = elim (Bool-cases (ltb max (b + l))) [
    | inl h ↦
        let across = ltb→lt _ _ h in
        rw (
          le→ltb_false q l enough,
          h,
          copy_out-eq c.buf b (max - b) (omega (arith, v.sized, v.b_in)),
          copy_out-eq c.buf 0 (l - (max - b)) (omega (arith, v.sized, v.q_in)),
          ← left_right across,
        )
    | inr h ↦
        let inside = ltb_false→le _ _ h in
        rw (le→ltb_false q l enough, h, copy_out-eq c.buf b l (omega (arith, v.sized)), whole)
  ]

-- From a valid ring, Read of at most the bytes held touches no cell outside the array, returns
-- the oldest `l` bytes in order, drops them, and keeps the ring valid.
pub read-take :
    (c : Ring) (l : ℕ)
    → IsValid c
    → l ≤ c.q
    → (d : Ring) × (read c l ≡ some (d, take l (contents c), true))
      × (contents d ≡ drop l (contents c))
      × IsValid d
      × (d.max ≡ c.max)
      × (d.q ≡ c.q - l)
unfolding settle
read-take c l v enough = (
  settle (moved c l),
  read-eq c v l enough,
  contents-settle (moved c l) ∙ contents-moved c v l enough,
  settled-IsValid c v l enough,
  ground arith,
  ground arith,
)

pub read_short : (c : Ring) (l : ℕ) → c.q < l → read c l ≡ some (c, [], false)
unfolding read
read_short c l h = ground arith

-- On a valid ring Remove drops what Read would copy out, and reports the same.
pub remove-read :
    (c : Ring) (l : ℕ)
    → IsValid c
    → (s : Bytes) × (read c l ≡ some ((remove c l).0, s, (remove c l).1))
remove-read c l v = elim (Bool-cases (ltb c.q l)) [
  | inl h ↦ ([], read_short c l (ltb→lt _ _ h) ∙ unfold remove in ground arith)
  | inr h ↦
      (take l (contents c), read-eq c v l (ltb_false→le _ _ h) ∙ (unfold remove in ground arith))
]
