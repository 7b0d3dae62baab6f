-- ===== src/Utility/Ipv6/Total.antt =====
-- isipv6 ends on every text.
use cpp_sockets_library.Prelude.{
  ℕ, zero, suc, ◌+◌, ◌<◌, ◌≡◌, refl, ap, Bool, true, false, not, ◌&&◌, some, ltb, ◌==◌, Bytes,
  length, arith, Bool-cases, inl, inr,
}
use cpp_sockets_library.Parse.{Parse, new_parse, getword}
use cpp_sockets_library.Parse.Words.{getword_moves}
use cpp_sockets_library.Prelude.Text.{codes}
use cpp_sockets_library.Utility.Ipv6.{count, any_bad, words_ok, isipv6}

words_ok_ends :
    (fuel : ℕ) (p : Parse)
    → p.nospace ≡ false
    → p.breakchar ≡ 0
    → length p.the_str < fuel + p.the_ptr
    → 0 < fuel
    → (b : Bool) × (words_ok fuel p ≡ some b)
unfolding words_ok
words_ok_ends zero p n b h pos = absurd (omega arith)
words_ok_ends (suc fuel) p n b h pos =
    let (s, n', b', m, w) = getword_moves p n b in
    elim (Bool-cases (length (getword p).ord == 0)) [
      | inl e ↦ (true, rw e refl)
      | inr e ↦ elim (Bool-cases (ltb 4 (length (getword p).ord))) [
        | inl l ↦ (false, rw (e, l) refl)
        | inr l ↦ elim (Bool-cases (any_bad (getword p).ord)) [
          | inl x ↦ (false, rw (e, l, x) refl)
          | inr x ↦
              let inside : p.the_ptr < length p.the_str = w (ground arith) in
              let same : length (getword p).the_str ≡ length p.the_str = ap length s in
              let (r, q) = words_ok_ends fuel (getword p) n' b' (omega arith) (omega arith) in
              (r, rw (e, l, x) q)
        ]
      ]
    ]

-- isipv6 ends on every text with an answer: each word that it takes is inside the text, and every
-- call of getword moves on.
pub isipv6_ends : (s : Bytes) → (b : Bool) × (isipv6 s ≡ some b)
unfolding isipv6 new_parse
isipv6_ends s = elim (Bool-cases (ltb 7 (count b':' s))) [
  | inl a ↦ (false, rw a refl)
  | inr a ↦ elim (Bool-cases (not (count b'.' s == 0) && not (count b'.' s == 3))) [
    | inl d ↦ (false, rw (a, d) refl)
    | inr d ↦
        let (r, q) =
          words_ok_ends (length s + 2) (new_parse s (codes ":.") false) refl refl (omega arith)
            (omega arith) in
        (r, rw (a, d) q)
  ]
]
