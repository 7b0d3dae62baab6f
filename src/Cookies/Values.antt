-- ===== src/Cookies/Values.antt =====
-- What src/HttpdCookies.cpp keeps, finds and writes.
use cpp_sockets_library.Prelude.{
  ℕ, zero, suc, ◌+◌, ◌<◌, ◌≡◌, refl, ap, ◌∙◌, Bool, true, false, some, List, [], ◌∷◌, ◌++◌, ◌==◌,
  if◌then◌else◌, length, Bytes, arith, Bool-cases, inl, inr, append_assoc, append-nil,
}
use cpp_sockets_library.Prelude.Text.{}
use cpp_sockets_library.Parse.{Parse, new_parse, getword}
use cpp_sockets_library.Parse.Words.{getword_moves}
use cpp_sockets_library.Cookies.{cookie_of, add_loop, add, getvalue, replacevalue, getlength}

add_loop_ends :
    (fuel : ℕ) (p : Parse) (cs : List (Bytes × Bytes))
    → p.nospace ≡ false
    → p.breakchar ≡ 0
    → length p.the_str < fuel + p.the_ptr
    → 0 < fuel
    → (new : List (Bytes × Bytes)) × (add_loop fuel p cs ≡ some (cs ++ new))
unfolding add_loop
add_loop_ends zero p cs n b h pos = absurd (omega arith)
add_loop_ends (suc fuel) p cs n b h pos =
    let (s, n', b', m, w) = getword_moves p n b in
    elim (Bool-cases (length (getword p).ord == 0)) [
      | inl e ↦ ([], rw (e, append-nil cs) refl)
      | inr e ↦
          let inside : p.the_ptr < length p.the_str = w (ground arith) in
          let same : length (getword p).the_str ≡ length p.the_str = ap length s in
          let (new, q) =
            add_loop_ends fuel (getword p) (cs ++ cookie_of (getword p).ord ∷ []) n' b'
              (omega arith) (omega arith) in
          (
            cookie_of (getword p).ord ∷ new,
            rw e (q ∙ ap some (append_assoc cs (cookie_of (getword p).ord ∷ []) new)),
          )
    ]

-- add ends on every text, and puts its cookies behind those that are there.
pub add_ends :
    (s : Bytes) (cs : List (Bytes × Bytes))
    → (new : List (Bytes × Bytes)) × (add s cs ≡ some (cs ++ new))
unfolding add new_parse
add_ends s cs =
    add_loop_ends (length s + 2) (new_parse s (b';' ∷ []) false) cs refl refl (omega arith)
      (omega arith)

module _ (same_name : Bytes → Bytes → Bool) where
  -- After a replacevalue, getvalue gives the new value for the name, and getlength its size; a name
  -- that is told apart from it, by all names alike, has the value it had. A name is taken to be the
  -- same as itself.
  pub getvalue-replacevalue :
      (name other value : Bytes) (cs : List (Bytes × Bytes))
      → same_name name name ≡ true
      → ((x : Bytes) → same_name x name ≡ true → same_name x other ≡ false)
      → (getvalue same_name name (replacevalue same_name name value cs) ≡ (true, value))
        × (getlength same_name name (replacevalue same_name name value cs) ≡ length value)
        × (getvalue same_name other (replacevalue same_name name value cs)
            ≡ getvalue same_name other cs)
  unfolding getvalue replacevalue getlength
  getvalue-replacevalue name other value [] itself apart =
      (rw itself refl, rw itself refl, rw (apart name itself) refl)
  getvalue-replacevalue name other value (c ∷ cs) itself apart =
      elim (Bool-cases (same_name c.0 name)) [
        | inl h ↦ (rw (h, h) refl, rw (h, h) refl, rw (h, apart c.0 h) refl)
        | inr h ↦
            let (v, l, o) = getvalue-replacevalue name other value cs itself apart in
            (
              rw (h, h) v,
              rw (h, h) l,
              rw h (ap (λ r. if same_name c.0 other then (true, c.1) else r) o),
            )
      ]
