-- ===== src/Prelude/Mem.antt =====
-- Raw byte arrays: `new char[n]`, `memcpy` into them and out of them. An access outside the
-- array is a fault, `none`.
use Prim.Native.Nat.{ℕ, zero, suc, ◌+◌, ◌-◌, ◌<◌, ◌≤◌}
use mathlib.Core.Path.{◌≡◌, refl, ap, fun_ext}
use mathlib.Core.Logic.{◌⊎◌, inl, inr}
use mathlib.Core.List.{[], ◌∷◌, ◌++◌}
use mathlib.Core.Option.{Option, none, some}
use native.Mathlib.Omega.{arith}
use cpp_sockets_library.Prelude.Tests.{Bool-cases, leb, ◌==◌, if◌then◌else◌}
use cpp_sockets_library.Prelude.Lists.{Bytes, length, take, drop}

pub record Mem : Type 0 where
  pub size : ℕ
  pub cells : ℕ → ℕ

-- The `n` bytes from address `a` on.
pub slice : (ℕ → ℕ) → ℕ → ℕ → Bytes
slice m a zero = []
slice m a (suc n) = m a ∷ slice m (a + 1) n

-- The cells after the bytes `s` were written from address `a` on.
pub blit : (ℕ → ℕ) → ℕ → Bytes → ℕ → ℕ
blit m a [] i = m i
blit m a (x ∷ s) i = if i == a then x else blit m (a + 1) s i

-- memcpy(m + a, s, |s|)
unfoldable pub copy_in : Mem → ℕ → Bytes → Option Mem
copy_in m a s =
    if leb (a + length s) m.size then some (record m { cells = blit m.cells a s }) else none

-- memcpy(dest, m + a, n)
unfoldable pub copy_out : Mem → ℕ → ℕ → Option Bytes
copy_out m a n = if leb (a + n) m.size then some (slice m.cells a n) else none

pub blit_outside :
    (m : ℕ → ℕ) (a : ℕ) (s : Bytes) (i : ℕ)
    → (i < a → blit m a s i ≡ m i) × (a + length s ≤ i → blit m a s i ≡ m i)
unfolding blit
blit_outside m a [] i = (λ h. refl, λ h. refl)
blit_outside m a (x ∷ s) i =
    let (below, above) = blit_outside m (a + 1) s i in
    (λ h. ground (arith, below (omega arith)), λ h. ground (arith, above (omega arith)))

pub slice_ext :
    (m m' : ℕ → ℕ) (a a' n : ℕ)
    → ((i : ℕ) → i < n → m (a + i) ≡ m' (a' + i))
    → slice m a n ≡ slice m' a' n
unfolding slice
slice_ext m m' a a' zero h = refl
slice_ext m m' a a' (suc n) h = ground (arith, head, slice_ext m m' (a + 1) (a' + 1) n tail)
  where
    head : m a ≡ m' a'
    head =
        let e : a + 0 ≡ a = omega arith in
        let e' : a' + 0 ≡ a' = omega arith in ground (arith, h 0 (omega arith), e, e')

    tail : (i : ℕ) → i < n → m (a + 1 + i) ≡ m' (a' + 1 + i)
    tail i lt =
        let e : a + (i + 1) ≡ a + 1 + i = omega arith in
        let e' : a' + (i + 1) ≡ a' + 1 + i = omega arith in
        ground (arith, h (i + 1) (omega arith), e, e')

pub length-slice : (m : ℕ → ℕ) (a n : ℕ) → length (slice m a n) ≡ n
unfolding slice
length-slice m a zero = refl
length-slice m a (suc n) = ap suc (length-slice m (a + 1) n)

pub slice-add : (m : ℕ → ℕ) (a n k : ℕ) → slice m a (n + k) ≡ slice m a n ++ slice m (a + n) k
unfolding slice
slice-add m a zero k = ground arith
slice-add m a (suc n) k =
    let e : a + 1 + n ≡ a + suc n = omega arith in
    let f : suc n + k ≡ suc (n + k) = omega arith in ground (arith, slice-add m (a + 1) n k, e, f)

-- What was copied in is read back.
pub slice-blit : (m : ℕ → ℕ) (a : ℕ) (s : Bytes) → slice (blit m a s) a (length s) ≡ s
unfolding slice blit
slice-blit m a [] = refl
slice-blit m a (x ∷ s) =
    let rest =
      slice_ext (blit m a (x ∷ s)) (blit m (a + 1) s) (a + 1) (a + 1) (length s)
        (λ i h. ground arith) in
    ground (arith, rest, slice-blit m (a + 1) s)

-- A byte that was copied in does not depend on where it was copied to.
pub blit_inside :
    (m m' : ℕ → ℕ) (a a' : ℕ) (s : Bytes) (i : ℕ)
    → i < length s
    → blit m a s (a + i) ≡ blit m' a' s (a' + i)
unfolding blit
blit_inside m m' a a' [] i h = absurd (omega arith)
blit_inside m m' a a' (x ∷ s) zero h = ground arith
blit_inside m m' a a' (x ∷ s) (suc i) h =
    let e : a + 1 + i ≡ a + suc i = omega arith in
    let e' : a' + 1 + i ≡ a' + suc i = omega arith in
    ground (arith, blit_inside m m' (a + 1) (a' + 1) s i (omega arith), e, e')

pub take-slice : (m : ℕ → ℕ) (a n k : ℕ) → k ≤ n → take k (slice m a n) ≡ slice m a k
unfolding slice
take-slice m a n zero h = refl
take-slice m a zero (suc k) h = absurd (omega arith)
take-slice m a (suc n) (suc k) h = ap (◌∷◌ (m a)) (take-slice m (a + 1) n k (omega arith))

pub drop-slice : (m : ℕ → ℕ) (a n k : ℕ) → k ≤ n → drop k (slice m a n) ≡ slice m (a + k) (n - k)
unfolding slice
drop-slice m a n zero h = ground arith
drop-slice m a zero (suc k) h = absurd (omega arith)
drop-slice m a (suc n) (suc k) h =
    let e : a + 1 + k ≡ a + suc k = omega arith in
    let f : suc n - suc k ≡ n - k = omega arith in
    ground (arith, drop-slice m (a + 1) n k (omega arith), e, f)

-- A tail of the bytes that were copied in.
pub blit-drop :
    (m m' : ℕ → ℕ) (a a' k : ℕ) (s : Bytes) (j : ℕ)
    → k + j < length s
    → blit m a (drop k s) (a + j) ≡ blit m' a' s (a' + k + j)
unfolding blit
blit-drop m m' a a' zero s j h =
    let e : a' + 0 + j ≡ a' + j = omega arith in rw e (blit_inside m m' a a' s j (omega arith))
blit-drop m m' a a' (suc k) [] j h = absurd (omega arith)
blit-drop m m' a a' (suc k) (x ∷ s) j h =
    let e : a' + 1 + k + j ≡ a' + suc k + j = omega arith in
    ground (arith, blit-drop m m' a (a' + 1) k s j (omega arith), e)

-- A slice that a write does not reach.
pub slice-blit_apart :
    (m : ℕ → ℕ) (a : ℕ) (s : Bytes) (b n : ℕ)
    → (b + n ≤ a) ⊎ (a + length s ≤ b)
    → slice (blit m a s) b n ≡ slice m b n
slice-blit_apart m a s b n (inl h) =
    slice_ext _ _ b b n (λ i lt. (blit_outside m a s (b + i)).0 (omega arith))
slice-blit_apart m a s b n (inr h) =
    slice_ext _ _ b b n (λ i lt. (blit_outside m a s (b + i)).1 (omega arith))

pub copy_in-eq :
    (m : Mem) (a : ℕ) (s : Bytes)
    → a + length s ≤ m.size
    → copy_in m a s ≡ some (record m { cells = blit m.cells a s })
unfolding copy_in
copy_in-eq m a s h = ground arith

pub copy_out-eq : (m : Mem) (a n : ℕ) → a + n ≤ m.size → copy_out m a n ≡ some (slice m.cells a n)
unfolding copy_out
copy_out-eq m a n h = ground arith

pub slice-zero : (m : ℕ → ℕ) (a : ℕ) → slice m a 0 ≡ []
unfolding slice
slice-zero m a = refl

pub slice-suc : (m : ℕ → ℕ) (a n : ℕ) → slice m a (suc n) ≡ m a ∷ slice m (a + 1) n
unfolding slice
slice-suc m a n = refl

blit_same : (m m' : ℕ → ℕ) (a : ℕ) (s : Bytes) (i : ℕ) → m i ≡ m' i → blit m a s i ≡ blit m' a s i
unfolding blit
blit_same m m' a [] i h = h
blit_same m m' a (x ∷ s) i h = ground (arith, blit_same m m' (a + 1) s i h)

blit-suc_at :
    (m : ℕ → ℕ) (a x : ℕ) (s : Bytes) (i : ℕ)
    → blit (blit m a (x ∷ [])) (a + 1) s i ≡ blit m a (x ∷ s) i
unfolding blit
blit-suc_at m a x s i = elim (Bool-cases (i == a)) [
  | inl b ↦ ground (arith, (blit_outside (blit m a (x ∷ [])) (a + 1) s i).0 (ground arith))
  | inr b ↦ rw b (blit_same (blit m a (x ∷ [])) m (a + 1) s i (rw b refl))
]

-- Copying in a byte and then the others behind it is copying in all of them.
pub blit-suc :
    (m : ℕ → ℕ) (a x : ℕ) (s : Bytes) → blit (blit m a (x ∷ [])) (a + 1) s ≡ blit m a (x ∷ s)
blit-suc m a x s = fun_ext (blit-suc_at m a x s)

pub blit-nil : (m : ℕ → ℕ) (a : ℕ) → blit m a [] ≡ m
unfolding blit
blit-nil m a = refl

pub slice-four : (m : ℕ → ℕ) → slice m 0 4 ≡ m 0 ∷ m 1 ∷ m 2 ∷ m 3 ∷ []
unfolding slice
slice-four m = refl
