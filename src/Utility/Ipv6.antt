-- ===== src/Utility/Ipv6.antt =====
-- Utility::isipv6 of src/Utility.cpp, which takes the words of an address with Parse.
pub mod Total
use cpp_sockets_library.Prelude.{
  ℕ, zero, suc, ◌+◌, Bool, true, false, not, ◌&&◌, ◌||◌, Option, none, some, [], ◌∷◌, ltb, leb,
  ◌==◌, if◌then◌else◌, Bytes, length,
}
use cpp_sockets_library.Prelude.Text.{codes}
use cpp_sockets_library.Parse.{Parse, new_parse, getword}

-- How often a char stands in a text.
pub count : ℕ → Bytes → ℕ
count c [] = 0
count c (x ∷ s) = (if x == c then 1 else 0) + count c s

-- The test of a char that ends with `return false`.
pub is_bad : ℕ → Bool
is_bad c = ltb c b'0' || (ltb b'9' c && ltb c b'A') || (ltb b'F' c && ltb c b'a') || ltb b'f' c

pub any_bad : Bytes → Bool
any_bad [] = false
any_bad (c ∷ s) = is_bad c || any_bad s

-- `while (tmp.size())` on fuel, before the next getword.
pub words_ok : ℕ → Parse → Option Bool
words_ok zero p = none
words_ok (suc fuel) p =
    let p' = getword p in
    let rest = words_ok fuel p' in
    if length p'.ord == 0
    then some true
    else if ltb 4 (length p'.ord)
    then some false
    else if any_bad p'.ord
    then some false
    else rest

-- A word takes a char at least.
pub isipv6 : Bytes → Option Bool
isipv6 s =
    let qc = count b':' s in
    let qd = count b'.' s in
    if ltb 7 qc
    then some false
    else if not (qd == 0) && not (qd == 3)
    then some false
    else words_ok (length s + 2) (new_parse s (codes ":.") false)
