-- ===== src/Base64/Sextets.antt =====
-- The masks of the codec in plain arithmetic, and its alphabet; each is a table checked by
-- evaluation.
use Prim.Native.Nat.{bit_and}
use cpp_sockets_library.Prelude.{
  ℕ, ◌*◌, ◌/◌, ◌%◌, ◌<◌, ◌≡◌, refl, true, false, not, ◌&&◌, some, none, ◌==◌, ==→eq, arith, Bool,
}
use cpp_sockets_library.Prelude.Text.{all_below, all_below→}
use cpp_sockets_library.Base64.{digit, value, is_newline}

mask : (n : ℕ) (f g : ℕ → ℕ) → all_below n (λ x. f x == g x) ≡ true → (x : ℕ) → x < n → f x ≡ g x
mask n f g table x h = ==→eq _ _ (all_below→ n (λ x. f x == g x) table x h)

pub hi6 : (a : ℕ) → a < 256 → bit_and (a / 4) 0x3f ≡ a / 4
unfolding all_below
hi6 = mask 256 _ _ refl

pub lo2 : (a : ℕ) → a < 256 → bit_and (a * 16) 0x30 ≡ a % 4 * 16
unfolding all_below
lo2 = mask 256 _ _ refl

pub hi4 : (a : ℕ) → a < 256 → bit_and (a / 16) 0x0f ≡ a / 16
unfolding all_below
hi4 = mask 256 _ _ refl

pub lo4 : (a : ℕ) → a < 256 → bit_and (a * 4) 0x3c ≡ a % 16 * 4
unfolding all_below
lo4 = mask 256 _ _ refl

pub hi2 : (a : ℕ) → a < 256 → bit_and (a / 64) 0x03 ≡ a / 64
unfolding all_below
hi2 = mask 256 _ _ refl

pub lo6 : (a : ℕ) → a < 256 → bit_and a 0x3f ≡ a % 64
unfolding all_below
lo6 = mask 256 _ _ refl

pub up2 : (x : ℕ) → x < 64 → bit_and (x * 4) 0xfc ≡ x * 4
unfolding all_below
up2 = mask 64 _ _ refl

pub down4 : (x : ℕ) → x < 64 → bit_and (x / 16) 0x03 ≡ x / 16
unfolding all_below
down4 = mask 64 _ _ refl

pub up4 : (x : ℕ) → x < 64 → bit_and (x * 16) 0xf0 ≡ x % 16 * 16
unfolding all_below
up4 = mask 64 _ _ refl

pub down2 : (x : ℕ) → x < 64 → bit_and (x / 4) 0x0f ≡ x / 4
unfolding all_below
down2 = mask 64 _ _ refl

pub up6 : (x : ℕ) → x < 64 → bit_and (x * 64) 0xc0 ≡ x % 4 * 64
unfolding all_below
up6 = mask 64 _ _ refl

value_or : ℕ → ℕ → ℕ
value_or c d = elim (value c) [ none ↦ d | some k ↦ k ]

sextet_check : ℕ → Bool
sextet_check k = value_or (digit k) 99 == k && not (is_newline (digit k)) && not (digit k == b'=')

sextet_table : all_below 64 sextet_check ≡ true
unfolding all_below sextet_check value_or value digit is_newline
sextet_table = refl

split_check :
    (k : ℕ)
    → sextet_check k ≡ true
    → (value_or (digit k) 99 ≡ k) × (is_newline (digit k) ≡ false) × ((digit k == b'=') ≡ false)
unfolding sextet_check
split_check k h = ground arith

value-or_some : (c k : ℕ) → k < 64 → value_or c 99 ≡ k → value c ≡ some k
unfolding value_or
value-or_some c k h e = ground arith

-- The decoder's table inverts the alphabet, which has no line end and no `=`.
pub value-digit :
    (k : ℕ)
    → k < 64
    → (value (digit k) ≡ some k) × (is_newline (digit k) ≡ false) × ((digit k == b'=') ≡ false)
value-digit k h =
    let checked = split_check k (all_below→ 64 sextet_check sextet_table k h) in
    (value-or_some (digit k) k h checked.0, checked.1, checked.2)
