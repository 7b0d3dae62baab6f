-- ===== src/Handler/Select/Within.antt =====
-- The map of sockets of src/SocketHandler.cpp, where entries are taken out of it.
use cpp_sockets_library.Prelude.{
  ℕ, ◌<◌, ◌≤◌, ◌≡◌, refl, sym, ap, subst, ◌∙◌, Bool, true, false, ◌&&◌, Option, none, some, List,
  [], ◌∷◌, ◌==◌, if◌then◌else◌, length, All, arith, inl, inr, Bool-cases,
}
use cpp_sockets_library.Handler.{Sock, SocketHandler, socket}
use cpp_sockets_library.Handler.Select.{
  take_uid, owns, delete_object, erase_all, max_fd, check_erased,
}
use cpp_sockets_library.Handler.Select.Erase.{
  erase_taken, erase_one-erase_taken, erase_all-erase_one,
}
use cpp_sockets_library.Handler.Select.Uids.{Entries}
use cpp_sockets_library.Handler.Select.Incoming.{}
use cpp_sockets_library.Handler.Select.Maps.{IsSorted, IsMap}
use cpp_sockets_library.Handler.Select.Settled.{Keeps, if-Keeps}

-- What is left of the map when an entry is taken out.
abbrev pub Parts : Entries → Option (ℕ × Entries) → Type 1
Parts xs none = Unit {1}
Parts xs (some (p, ys)) =
    ((P : ℕ × ℕ → Type 0) → All P xs → All P ys)
    × (IsSorted xs → IsSorted ys)
    × (length ys ≤ length xs)

pub Parts-later :
    (x : ℕ × ℕ) (xs : Entries) (r : Option (ℕ × Entries))
    → Parts xs r
    → Parts (x ∷ xs) (elim r [ none ↦ none | some t ↦ some (t.0, x ∷ t.1) ])
Parts-later x xs none v = tt
Parts-later x xs (some (p, ys)) v = (
  λ P a. (a.0, v.0 P a.1),
  λ a. (v.0 (λ (y : ℕ × ℕ). x.0 < y.0) a.0, v.1 a.1),
  let le = v.2 in omega arith,
)

pub if-Parts :
    (b : Bool) (xs : Entries) (r s : Option (ℕ × Entries))
    → Parts xs r
    → Parts xs s
    → Parts xs (if b then r else s)
if-Parts true xs r s v w = v
if-Parts false xs r s v w = w

pub first-Parts : (x : ℕ × ℕ) (xs : Entries) → Parts (x ∷ xs) (some (x.1, xs))
first-Parts x xs = (λ P a. a.1, λ a. a.1, omega arith)

pub take_uid-Parts : (mem : ℕ → Sock) (u : ℕ) (xs : Entries) → Parts xs (take_uid mem u xs)
unfolding take_uid
take_uid-Parts mem u [] = tt
take_uid-Parts mem u (x ∷ xs) =
    if-Parts ((mem x.1).uid == u) (x ∷ xs) _ _ (first-Parts x xs)
      (Parts-later x xs (take_uid mem u xs) (take_uid-Parts mem u xs))

-- The map stays in order and within its limit.
abbrev pub Within : SocketHandler → SocketHandler → Type 0
Within h h' = (IsMap h → IsMap h') × (h'.max_count ≡ h.max_count)

pub Keeps-Within : (h h' : SocketHandler) → Keeps h h' → Within h h'
Keeps-Within h h' k = (
  λ v. record { sorted = subst IsSorted (sym k.0) v.sorted; limited = rw (k.0, k.1) v.limited },
  k.1,
)

pub Within-trans : (h h1 h2 : SocketHandler) → Within h h1 → Within h1 h2 → Within h h2
Within-trans h h1 h2 v w = (λ m. w.0 (v.0 m), w.1 ∙ v.1)

pub if-Within :
    (b : Bool) (h x y : SocketHandler) → Within h x → Within h y → Within h (if b then x else y)
if-Within true h x y v w = v
if-Within false h x y v w = w

pub erase_taken-Within :
    (h : SocketHandler) (r : Option (ℕ × Entries)) → Parts h.sockets r → Within h (erase_taken h r)
unfolding erase_taken delete_object
erase_taken-Within h none v = (λ m. m, refl)
erase_taken-Within h (some (p, ys)) v =
    let k =
      if-Keeps ((socket h p).erased && owns h p) h (delete_object p h) h (refl, refl)
        (refl, refl) in
    (
      λ m. record {
        sorted = v.1 m.sorted;
        limited = let a = m.limited in let b = v.2 in rw k.1 (omega arith);
      },
      k.1,
    )

pub erase_taken-pending :
    (h : SocketHandler) (r : Option (ℕ × Entries)) → (erase_taken h r).fds_erase ≡ h.fds_erase
unfolding erase_taken delete_object
erase_taken-pending h none = refl
erase_taken-pending h (some (p, ys)) = elim (Bool-cases ((socket h p).erased && owns h p)) [
  | inl e ↦ rw e refl
  | inr e ↦ rw e refl
]

pub erase_all-Within :
    (us : List ℕ) (h : SocketHandler)
    → Within h (erase_all us h) × ((erase_all us h).fds_erase ≡ h.fds_erase)
unfolding erase_all
erase_all-Within [] h = ((λ m. m, refl), refl)
erase_all-Within (u ∷ us) h =
    let r = take_uid h.env.mem u h.sockets in
    let h1 = erase_taken h r in
    let rest = erase_all-Within us h1 in
    subst (λ h'. Within h h' × (h'.fds_erase ≡ h.fds_erase))
      (sym (erase_all-erase_one u us h ∙ ap (erase_all us) (erase_one-erase_taken u h)))
      (
        Within-trans h h1 (erase_all us h1)
            (erase_taken-Within h r (take_uid-Parts h.env.mem u h.sockets)) rest.0,
        rest.1 ∙ erase_taken-pending h r,
      )

pub check_erased-Within :
    (h : SocketHandler) → Within h (check_erased h) × ((check_erased h).fds_erase ≡ [])
unfolding check_erased
check_erased-Within h = by_list h.fds_erase refl
  where
    by_list :
        (us : List ℕ)
        → h.fds_erase ≡ us
        → let h' : SocketHandler = elim us [
          | [] ↦ h
          | u ∷ us ↦
              let h1 = erase_all (u ∷ us) (record h { fds_erase = [] }) in
              record h1 { maxsock = max_fd 0 h1.sockets }
        ] in
          Within h h' × (h'.fds_erase ≡ [])
    by_list [] e = ((λ m. m, refl), e)
    by_list (u ∷ us) e =
        let (w, p) = erase_all-Within (u ∷ us) (record h { fds_erase = [] }) in
        (
          (
            λ m.
                let m' = w.0 (record { sorted = m.sorted; limited = m.limited }) in
                record { sorted = m'.sorted; limited = m'.limited },
            w.1,
          ),
          p,
        )
