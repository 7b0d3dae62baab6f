-- ===== src/Tcp/Ring/Write.antt =====
-- CircularBuffer::Write appends.
use cpp_sockets_library.Prelude.{
  ℕ, ◌+◌, ◌-◌, ◌%◌, ◌≡◌, refl, ◌≤◌, ◌<◌, true, false, some, ◌++◌, ◌⊎◌, inl, inr, ◌∙◌, arith, Bytes,
  length, length-drop, drop, le→ltb_false, ltb_false→le, ltb, leb, Bool-cases, ltb→lt,
  if◌then◌else◌,
}
use cpp_sockets_library.Prelude.Mem.{
  Mem, copy_in-eq, slice, blit, blit_outside, blit_inside, blit-drop, slice-blit, slice-blit_apart,
  slice-add,
}
use cpp_sockets_library.Tcp.Ring.{
  Ring, IsValid, contents, write, write_across, write_within, ulong_mod,
}

module _ (c : Ring) (v : IsValid c) (s : Bytes) (fits : c.q + length s ≤ c.max) where
  open c use {max, q, b, t}

  abbrev m : ℕ → ℕ
  m = c.buf.cells

  t_cases : ((b + q < max) × (t ≡ b + q)) ⊎ ((max ≤ b + q) × (t ≡ b + q - max))
  t_cases = elim (Bool-cases (ltb (b + q) max)) [
    | inl h ↦ let h' = ltb→lt _ _ h in inl (h', v.t_below h')
    | inr h ↦ let h' : max ≤ b + q = ground arith in inr (h', v.t_above h')
  ]

  t_in : t < max
  t_in = omega (arith, t_cases, v.b_in, v.q_in)

  module _ (crosses : max < t + length s) where
    abbrev l1 : ℕ
    l1 = max - t

    abbrev m1 : ℕ → ℕ
    m1 = blit (blit m t s) 0 (drop l1 s)

    abbrev across : Ring
    across = record c {
      buf = record { size = c.buf.size; cells = m1 };
      t = length s - l1;
      q = q + length s;
      count = (c.count + length s) % ulong_mod;
    }

    write_across-eq : write_across c s ≡ some (across, true)
    unfolding write_across
    write_across-eq =
        let mem : Mem = record { size = c.buf.size; cells = blit m t s } in
        ground (
          arith,
          copy_in-eq c.buf t s (omega (arith, v.sized, t_in)),
          copy_in-eq mem 0 (drop l1 s) (omega (arith, length-drop l1 s, v.sized, t_in)),
        )

    t_low : t ≡ b + q
    t_low = omega (arith, t_cases, v.b_in)

    -- The second copy ends below `b`.
    wrapped_below : 0 + length (drop l1 s) ≤ b
    wrapped_below = omega (arith, length-drop l1 s, t_low)

    contents-across : contents across ≡ contents c ++ s
    unfolding contents
    contents-across =
        let kept = slice-blit_apart (blit m t s) 0 (drop l1 s) b q (inr wrapped_below) in
        let kept' = slice-blit_apart m t s b q (inl (omega (arith, t_low))) in
        let new =
          slice-blit_apart (blit m t s) 0 (drop l1 s) (b + q) (length s)
            (inr (omega (arith, wrapped_below))) in
        let new' : slice (blit m t s) (b + q) (length s) ≡ s = rw (← t_low) (slice-blit m t s) in
        rw (slice-add m1 b q (length s), kept, kept', new, new')

    mirror-across : (i : ℕ) → max ≤ i → i < b + (q + length s) → m1 i ≡ m1 (i - max)
    mirror-across i lo hi =
        let upper =
          (blit_outside (blit m t s) 0 (drop l1 s) i).1 (omega (arith, wrapped_below, v.b_in)) in
        let lower = blit-drop (blit m t s) m 0 t l1 s (i - max) (omega (arith, t_low, t_in)) in
        let e : t + l1 + (i - max) ≡ i = omega (arith, t_in) in
        let e' : 0 + (i - max) ≡ i - max = omega arith in rw (upper, ← e', lower, e)

    across-IsValid : IsValid across
    across-IsValid = record {
      sized = v.sized;
      b_in = v.b_in;
      q_in = fits;
      t_below = λ h. omega (arith, t_low, t_in);
      t_above = λ h. omega (arith, t_low, t_in);
      mirror = mirror-across;
    }

  module _ (within : t + length s ≤ max) where
    abbrev m2 : ℕ → ℕ
    m2 = blit (blit m t s) (max + t) s

    abbrev inside : Ring
    inside = record c {
      buf = record { size = c.buf.size; cells = m2 };
      t = (if leb max (t + length s) then t + length s - max else t + length s);
      q = q + length s;
      count = (c.count + length s) % ulong_mod;
    }

    write_within-eq : write_within c s ≡ some (inside, true)
    unfolding write_within
    write_within-eq =
        let mem : Mem = record { size = c.buf.size; cells = blit m t s } in
        ground (
          arith,
          copy_in-eq c.buf t s (omega (arith, v.sized, t_in)),
          copy_in-eq mem (max + t) s (omega (arith, v.sized, t_in)),
        )

    -- Neither copy reaches the bytes that are held.
    apart : (t + length s ≤ b) ⊎ (b + q ≤ t)
    apart = omega (arith, t_cases)

    upper_above : b + q ≤ max + t
    upper_above = omega (arith, t_cases, t_in)

    flip : (t + length s ≤ b) ⊎ (b + q ≤ t) → (b + q ≤ t) ⊎ (t + length s ≤ b)
    flip (inl h) = inr h
    flip (inr h) = inl h

    appended : slice m2 (b + q) (length s) ≡ s
    appended = elim t_cases [
      | inl (lo, e) ↦
          slice-blit_apart (blit m t s) (max + t) s (b + q) (length s) (inl (omega arith))
          ∙ (rw (← e) (slice-blit m t s))
      | inr (hi, e) ↦
          let here : max + t ≡ b + q = omega (arith, v.b_in) in
          rw (← here) (slice-blit (blit m t s) (max + t) s)
    ]

    contents-inside : contents inside ≡ contents c ++ s
    unfolding contents
    contents-inside =
        let kept = slice-blit_apart (blit m t s) (max + t) s b q (inl upper_above) in
        let kept' = slice-blit_apart m t s b q (flip apart) in
        rw (slice-add m2 b q (length s), kept, kept', appended)

    -- A byte that was held, at `i` and below the border.
    mirror_old : (i : ℕ) → max ≤ i → i < b + q → m2 i ≡ m2 (i - max)
    mirror_old i lo hi =
        let (k, _) = blit_outside (blit m t s) (max + t) s i in
        let (k', _) = blit_outside (blit m t s) (max + t) s (i - max) in
        let (_, k2) = blit_outside m t s i in
        let (k2', _) = blit_outside m t s (i - max) in
        rw
          (
            k (omega (arith, upper_above)),
            k' (omega arith),
            k2 (omega (arith, apart, t_in)),
            k2' (omega (arith, t_cases)),
          )
          (v.mirror i lo hi)

    mirror_new : (i k : ℕ) → k < length s → i ≡ max + t + k → m2 i ≡ m2 (i - max)
    mirror_new i k small e =
        let (low, _) = blit_outside (blit m t s) (max + t) s (t + k) in
        let e' : i - max ≡ t + k = omega arith in
        rw (e', e, low (omega arith)) (blit_inside (blit m t s) m (max + t) t s k small)

    mirror-inside : (i : ℕ) → max ≤ i → i < b + (q + length s) → m2 i ≡ m2 (i - max)
    mirror-inside i lo hi = elim (Bool-cases (ltb i (b + q))) [
      | inl old ↦ mirror_old i lo (ltb→lt _ _ old)
      | inr new ↦
          let new' : b + q ≤ i = ground arith in
          mirror_new i (i - (b + q)) (omega arith) (omega (arith, t_cases, v.b_in))
    ]

    inside-IsValid : IsValid inside
    inside-IsValid = record {
      sized = v.sized;
      b_in = v.b_in;
      q_in = fits;
      t_below = λ h. ground (arith, t_cases, t_in);
      t_above = λ h. ground (arith, t_cases, t_in);
      mirror = mirror-inside;
    }

-- Where the bytes fit in a valid ring, Write touches no cell outside the array, appends them to
-- what is held, counts them, and keeps the ring valid.
pub write-append :
    (c : Ring) (s : Bytes)
    → IsValid c
    → c.q + length s ≤ c.max
    → (d : Ring) × (write c s ≡ some (d, true))
      × (contents d ≡ contents c ++ s)
      × IsValid d
      × (d.max ≡ c.max)
      × (d.q ≡ c.q + length s)
      × (d.count ≡ (c.count + length s) % ulong_mod)
unfolding write
write-append c s v fits = elim (Bool-cases (ltb c.max (c.t + length s))) [
  | inl x ↦
      let h = ltb→lt _ _ x in
      (
        across c v s fits h,
        rw (le→ltb_false c.max (c.q + length s) fits, x) (write_across-eq c v s fits h),
        contents-across c v s fits h,
        across-IsValid c v s fits h,
        refl,
        refl,
        refl,
      )
  | inr x ↦
      let h = ltb_false→le _ _ x in
      (
        inside c v s fits h,
        rw (le→ltb_false c.max (c.q + length s) fits, x) (write_within-eq c v s fits h),
        contents-inside c v s fits h,
        inside-IsValid c v s fits h,
        refl,
        refl,
        refl,
      )
]

-- Where they do not fit, nothing changes and the result is false.
pub write_overflow : (c : Ring) (s : Bytes) → c.max < c.q + length s → write c s ≡ some (c, false)
unfolding write
write_overflow c s h = ground arith
