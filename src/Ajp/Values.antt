-- ===== src/Ajp/Values.antt =====
-- The values of a packet of src/AjpBaseSocket.cpp.
use cpp_sockets_library.Prelude.{
  ℕ, zero, suc, ◌+◌, ◌-◌, ◌*◌, ◌/◌, ◌%◌, ◌<◌, ◌≤◌, ◌≡◌, ◌≢◌, refl, sym, ap, ◌∙◌, inl, Bool, true,
  false, some, [], ◌∷◌, ◌++◌, leb, ◌==◌, if◌then◌else◌, length, Bytes, All, arith, take-append,
}
use cpp_sockets_library.Prelude.Mem.{
  Mem, slice, blit, copy_in-eq, copy_out-eq, slice-add, slice-blit, slice-blit_apart, slice-suc,
}
use cpp_sockets_library.Ajp.{
  get_byte, get_boolean, network_short, get_integer, c_string, zeros, resize, get_string, put_byte,
  put_boolean, put_integer, put_string,
}

pub get_integer-slice :
    (m : Mem) (p hi lo : ℕ)
    → p + 2 ≤ m.size
    → slice m.cells p 2 ≡ hi ∷ lo ∷ []
    → get_integer m p ≡ some (hi * 256 + lo, p + 2)
unfolding get_integer network_short
get_integer-slice m p hi lo h e = rw (copy_out-eq m p 2 h, e) refl

get_byte-slice :
    (m : Mem) (p x : ℕ)
    → p + 1 ≤ m.size
    → slice m.cells p 1 ≡ x ∷ []
    → get_byte m p ≡ some (x, p + 1)
unfolding get_byte
get_byte-slice m p x h e = rw (copy_out-eq m p 1 h, e) refl

low_bit : (z : Bool) → ((if z then 1 else 0) % 2 == 1) ≡ z
low_bit true = refl
low_bit false = refl

-- What put_boolean wrote get_boolean reads, and both move on by one byte.
put_boolean-get_boolean :
    (m : Mem) (p : ℕ) (z : Bool)
    → p + 1 ≤ m.size
    → (m' : Mem) × (put_boolean m p z ≡ some (m', p + 1)) × (get_boolean m' p ≡ some (z, p + 1))
unfolding put_boolean put_byte get_boolean
put_boolean-get_boolean m p z h =
    let x : ℕ = (if z then 1 else 0) in
    (
      record m { cells = blit m.cells p (x ∷ []) },
      rw (copy_in-eq m p (x ∷ []) (omega arith)) refl,
      rw
          (
            get_boolean,
            get_byte-slice (record m { cells = blit m.cells p (x ∷ []) }) p x h
                (slice-blit m.cells p (x ∷ [])),
            low_bit z,
          )
          refl,
    )

-- A text without a zero byte, followed by one, is read as far as the zero.
c_string-ends :
    (buf : ℕ → ℕ) (s : Bytes) (p left : ℕ)
    → All (λ c. c ≢ 0) s
    → slice buf p (length s + 1) ≡ s ++ 0 ∷ []
    → length s < left
    → c_string buf p left ≡ some s
unfolding c_string
c_string-ends buf s p zero v e h = absurd (omega arith)
c_string-ends buf [] p (suc left) v e h =
    let first : buf p ∷ slice buf (p + 1) 0 ≡ 0 ∷ [] = sym (slice-suc buf p 0) ∙ e in
    let zero_here : buf p ≡ 0 = cc in rw zero_here refl
c_string-ends buf (x ∷ s) p (suc left) v e h =
    let more : suc (length s) + 1 ≡ suc (length s + 1) = omega arith in
    let all : buf p ∷ slice buf (p + 1) (length s + 1) ≡ x ∷ (s ++ 0 ∷ []) =
      sym (slice-suc buf p (length s + 1)) ∙ ap (slice buf p) (sym more) ∙ e in
    let here : buf p ≡ x = cc in
    let rest : slice buf (p + 1) (length s + 1) ≡ s ++ 0 ∷ [] = cc in
    let test : (x == 0) ≡ false = ground (arith, v.0) in
    rw (here, test, c_string-ends buf s (p + 1) left v.1 rest (omega arith)) refl

resize-whole : (s : Bytes) → resize (length s) s ≡ s
unfolding resize
resize-whole s = take-append s (zeros (length s))

-- The bytes that put_string writes: the length, the text and a zero.
put_string-slices :
    (m : Mem) (p : ℕ) (zz : Bytes)
    → p + (length zz + 3) ≤ m.size
    → (m' : Mem) × (put_string m p zz ≡ some (m', p + length zz + 3))
      × (m'.size ≡ m.size)
      × (slice m'.cells p 2 ≡ length zz % 65536 / 256 ∷ length zz % 65536 % 256 ∷ [])
      × (slice m'.cells (p + 2) (length zz + 1) ≡ zz ++ 0 ∷ [])
unfolding put_string put_integer put_byte
put_string-slices m p zz h =
    let n = length zz % 65536 in
    let head : Bytes = n / 256 ∷ n % 256 ∷ [] in
    let m1 : Mem = record m { cells = blit m.cells p head } in
    let m2 : Mem = record m { cells = blit m1.cells (p + 2) zz } in
    let q = p + 2 + length zz in
    let m3 : Mem = record m { cells = blit m2.cells q (0 ∷ []) } in
    let at_end : q + 1 ≡ p + length zz + 3 = omega arith in
    (
      m3,
      rw
          (
            copy_in-eq m p head (omega arith),
            copy_in-eq m1 (p + 2) zz (omega arith),
            copy_in-eq m2 q (0 ∷ []) (omega arith),
            at_end,
          )
          refl,
      refl,
      slice-blit_apart m2.cells q (0 ∷ []) p 2 (inl (omega arith))
          ∙ slice-blit_apart m1.cells (p + 2) zz p 2 (inl (omega arith))
          ∙ slice-blit m.cells p head,
      slice-add m3.cells (p + 2) (length zz) 1
          ∙ rw
              (
                slice-blit_apart m2.cells q (0 ∷ []) (p + 2) (length zz) (inl (omega arith)),
                slice-blit m1.cells (p + 2) zz,
                slice-blit m2.cells q (0 ∷ []),
              )
              refl,
    )

-- A text shorter than 32768 bytes and without a zero byte, written where there is room for it, its
-- length and the closing zero, is read back, and both operations end at the same place.
pub put_string-get_string :
    (m : Mem) (p : ℕ) (zz : Bytes)
    → All (λ c. c ≢ 0) zz
    → length zz < 32768
    → p + (length zz + 3) ≤ m.size
    → (m' : Mem) × (put_string m p zz ≡ some (m', p + length zz + 3))
      × (get_string m' p ≡ some (zz, p + length zz + 3))
unfolding get_string
put_string-get_string m p zz v short h =
    let (m', wrote, size, number, text) = put_string-slices m p zz h in
    let n = length zz % 65536 in
    let whole : n / 256 * 256 + n % 256 ≡ length zz = omega arith in
    let len = get_integer-slice m' p _ _ (omega arith) number ∙ ap (λ k. some (k, p + 2)) whole in
    let minus_one : (length zz == 65535) ≡ false = ground arith in
    let positive : leb 32768 (length zz) ≡ false = ground arith in
    let at_end : p + 2 + length zz + 1 ≡ p + length zz + 3 = omega arith in
    (
      m',
      wrote,
      rw
          (
            get_string,
            len,
            minus_one,
            positive,
            c_string-ends m'.cells zz (p + 2) (m'.size - (p + 2)) v text (omega arith),
            resize-whole zz,
            at_end,
          )
          refl,
    )
