-- ===== src/Handler/Select/Erase.antt =====
-- CheckErasedSockets of src/SocketHandler.cpp.
use cpp_sockets_library.Prelude.{
  ℕ, ◌≤◌, ◌≡◌, ◌≢◌, refl, sym, ap, subst, fun_ext, ◌∙◌, true, ◌&&◌, Option, none, some, List, [],
  ◌∷◌, ltb, if◌then◌else◌, All, arith, Bool-cases, inl, inr,
}
use cpp_sockets_library.Handler.{SocketHandler, socket, update}
use cpp_sockets_library.Handler.Select.{
  take_uid, owns, delete_object, erase_all, max_fd, check_erased,
}
use cpp_sockets_library.Handler.Select.Uids.{
  Entries, uids, HasOwnUids, without_uid, without, All-without_uid, without_uid-HasOwnUids,
  without_uid-other, Takes, take_uid-Takes,
}

-- Deleting an object leaves the uids, and the other objects, as they are.
uid-delete_object :
    (p q : ℕ) (h : SocketHandler) → (socket (delete_object p h) q).uid ≡ (socket h q).uid
unfolding delete_object update
uid-delete_object p q h = ground arith

other-delete_object :
    (p q : ℕ) (h : SocketHandler) → q ≢ p → socket (delete_object p h) q ≡ socket h q
unfolding delete_object update
other-delete_object p q h n = ground arith

-- A step of the loop, for one uid.
unfoldable pub erase_taken : SocketHandler → Option (ℕ × Entries) → SocketHandler
erase_taken h r = elim r [
  | none ↦ h
  | some r ↦
      let h1 = if (socket h r.0).erased && owns h r.0 then delete_object r.0 h else h in
      record h1 { sockets = r.1 }
]

unfoldable pub erase_one : ℕ → SocketHandler → SocketHandler
erase_one u h = erase_taken h (take_uid h.env.mem u h.sockets)

pub erase_one-erase_taken :
    (u : ℕ) (h : SocketHandler) → erase_one u h ≡ erase_taken h (take_uid h.env.mem u h.sockets)
unfolding erase_one
erase_one-erase_taken u h = refl

pub erase_taken-some :
    (p : ℕ) (h : SocketHandler)
    → (socket h p).erased ≡ true
    → owns h p ≡ true
    → erase_taken h (some (p, [])) ≡ record (delete_object p h) { sockets = [] }
unfolding erase_taken
erase_taken-some p h m o = rw (m, o) refl

pub erase_taken-none : (h : SocketHandler) → erase_taken h none ≡ h
unfolding erase_taken
erase_taken-none h = refl

pub erase_all-erase_one :
    (u : ℕ) (us : List ℕ) (h : SocketHandler) → erase_all (u ∷ us) h ≡ erase_all us (erase_one u h)
unfolding erase_all erase_one erase_taken
erase_all-erase_one u us h = refl

-- What a step for the uid `u` keeps.
record Step (u : ℕ) (h h' : SocketHandler) : Type 0 where
  left : h'.sockets ≡ without_uid (uids h.env.mem) u h.sockets
  same_uids : uids h'.env.mem ≡ uids h.env.mem
  others : (q : ℕ) → (socket h q).uid ≢ u → socket h' q ≡ socket h q
  pending : h'.fds_erase ≡ h.fds_erase

taken-Step :
    (u : ℕ) (h : SocketHandler) (r : Option (ℕ × Entries))
    → Takes (uids h.env.mem) u h.sockets r
    → Step u h (erase_taken h r)
unfolding erase_taken
taken-Step u h none t = record {
  left = sym t;
  same_uids = refl;
  others = λ q n. refl;
  pending = refl;
}
taken-Step u h (some (p, ys)) t = elim (Bool-cases ((socket h p).erased && owns h p)) [
  | inl e ↦ rw e (record {
    left = sym t.1;
    same_uids = fun_ext (λ q. uid-delete_object p q h);
    others = λ q n. other-delete_object p q h (λ s. n (ap (uids h.env.mem) s ∙ t.0));
    pending = unfold delete_object in refl;
  })
  | inr e ↦ rw e (record { left = sym t.1; same_uids = refl; others = λ q n. refl; pending = refl })
]

erase_one-Step :
    (u : ℕ) (h : SocketHandler) → HasOwnUids (uids h.env.mem) h.sockets → Step u h (erase_one u h)
unfolding erase_one
erase_one-Step u h v =
    taken-Step u h (take_uid h.env.mem u h.sockets) (take_uid-Takes h.env.mem u h.sockets v)

-- What the loop for the uids `us` keeps.
record Steps (us : List ℕ) (h h' : SocketHandler) : Type 0 where
  left : h'.sockets ≡ without (uids h.env.mem) us h.sockets
  same_uids : uids h'.env.mem ≡ uids h.env.mem
  others : (q : ℕ) → All (λ (u : ℕ). (socket h q).uid ≢ u) us → socket h' q ≡ socket h q
  pending : h'.fds_erase ≡ h.fds_erase

erase_all-Steps :
    (us : List ℕ) (h : SocketHandler)
    → HasOwnUids (uids h.env.mem) h.sockets
    → Steps us h (erase_all us h)
unfolding without erase_all
erase_all-Steps [] h v = record {
  left = refl;
  same_uids = refl;
  others = λ q n. refl;
  pending = refl;
}
erase_all-Steps (u ∷ us) h v =
    let one = erase_one-Step u h v in
    let v1 : HasOwnUids (uids (erase_one u h).env.mem) (erase_one u h).sockets =
      rw (one.same_uids, one.left) (without_uid-HasOwnUids (uids h.env.mem) u h.sockets v) in
    let rest = erase_all-Steps us (erase_one u h) v1 in
    subst (Steps (u ∷ us) h) (sym (erase_all-erase_one u us h)) (record {
      left = rest.left ∙ rw (one.same_uids, one.left) refl;
      same_uids = rest.same_uids ∙ one.same_uids;
      others = λ q n. rest.others q (rw (one.others q n.0) n.1) ∙ one.others q n.0;
      pending = rest.pending ∙ one.pending;
    })

All-without {ℓ} :
    (P : ℕ × ℕ → Type ℓ) (uid : ℕ → ℕ) (us : List ℕ) (xs : Entries)
    → All P xs
    → All P (without uid us xs)
unfolding without
All-without P uid [] xs v = v
All-without P uid (u ∷ us) xs v =
    All-without P uid us (without_uid uid u xs) (All-without_uid P uid u xs v)

-- No entry that is left has a uid of the list.
All-both {ℓ κ} :
    {A : Type ℓ} (P Q : A → Type κ) (xs : List A) → All P xs → All Q xs → All (λ x. P x × Q x) xs
All-both P Q [] v w = tt
All-both P Q (x ∷ xs) v w = ((v.0, w.0), All-both P Q xs v.1 w.1)

abbrev pub Apart : (ℕ → ℕ) → List ℕ → ℕ × ℕ → Type 0
Apart uid us y = All (λ (u : ℕ). uid y.1 ≢ u) us

nil-Apart : (uid : ℕ → ℕ) (xs : Entries) → All (Apart uid []) xs
nil-Apart uid [] = tt
nil-Apart uid (x ∷ xs) = (tt, nil-Apart uid xs)

without-Apart : (uid : ℕ → ℕ) (us : List ℕ) (xs : Entries) → All (Apart uid us) (without uid us xs)
unfolding without
without-Apart uid [] xs = nil-Apart uid xs
without-Apart uid (u ∷ us) xs =
    All-both (λ (y : ℕ × ℕ). uid y.1 ≢ u) (Apart uid us) (without uid us (without_uid uid u xs))
      (All-without (λ (y : ℕ × ℕ). uid y.1 ≢ u) uid us (without_uid uid u xs)
        (without_uid-other uid u xs))
      (without-Apart uid us (without_uid uid u xs))

abbrev UpTo : ℕ → ℕ × ℕ → Type 0
UpTo n y = y.0 ≤ n

max_fd-UpTo : (m : ℕ) (xs : Entries) → (m ≤ max_fd m xs) × All (UpTo (max_fd m xs)) xs
unfolding max_fd
max_fd-UpTo m [] = (omega arith, tt)
max_fd-UpTo m (x ∷ xs) =
    let (le, all) = max_fd-UpTo (if ltb m x.0 then x.0 else m) xs in
    (ground (arith, le), (ground (arith, le), all))

abbrev Outcome : List ℕ → SocketHandler → SocketHandler → Type 0
Outcome us h h' =
    (h'.sockets ≡ without (uids h.env.mem) us h.sockets)
    × (h'.fds_erase ≡ [])
    × All (Apart (uids h.env.mem) us) h'.sockets
    × ((q : ℕ) → All (λ (u : ℕ). (socket h q).uid ≢ u) us → socket h' q ≡ socket h q)
    × (us ≢ [] → All (λ (y : ℕ × ℕ). y.0 ≤ h'.maxsock) h'.sockets)

emptied : List ℕ → SocketHandler → SocketHandler
emptied us h =
    let h1 = erase_all us (record h { fds_erase = [] }) in
    record h1 { maxsock = max_fd 0 h1.sockets }

emptied-Outcome :
    (us : List ℕ) (h : SocketHandler)
    → HasOwnUids (uids h.env.mem) h.sockets
    → Outcome us h (emptied us h)
unfolding emptied
emptied-Outcome us h v =
    let all = erase_all-Steps us (record h { fds_erase = [] }) v in
    (
      all.left,
      all.pending,
      rw all.left (without-Apart (uids h.env.mem) us h.sockets),
      all.others,
      λ n. (max_fd-UpTo 0 (erase_all us (record h { fds_erase = [] })).sockets).1,
    )

-- CheckErasedSockets takes out of the map exactly the sockets whose uids are in m_fds_erase, with no
-- uid twice in the map, empties m_fds_erase, changes no object of another uid, and, where there was
-- something to erase, m_maxsock is at least every descriptor that is left.
pub check_erased-Outcome :
    (h : SocketHandler)
    → HasOwnUids (uids h.env.mem) h.sockets
    → ((check_erased h).sockets ≡ without (uids h.env.mem) h.fds_erase h.sockets)
      × ((check_erased h).fds_erase ≡ [])
      × All (Apart (uids h.env.mem) h.fds_erase) (check_erased h).sockets
      × ((q : ℕ)
          → All (λ (u : ℕ). (socket h q).uid ≢ u) h.fds_erase
          → socket (check_erased h) q ≡ socket h q)
      × (h.fds_erase ≢ []
          → All (λ (y : ℕ × ℕ). y.0 ≤ (check_erased h).maxsock) (check_erased h).sockets)
unfolding check_erased
check_erased-Outcome h v = by_list h.fds_erase refl
  where
    by_list :
        (us : List ℕ)
        → h.fds_erase ≡ us
        → Outcome us h (elim us [
          | [] ↦ h
          | u ∷ us ↦
              let h1 = erase_all (u ∷ us) (record h { fds_erase = [] }) in
              record h1 { maxsock = max_fd 0 h1.sockets }
        ])
    by_list [] e = (
      unfold without in refl,
      e,
      nil-Apart (uids h.env.mem) h.sockets,
      λ q n. refl,
      λ n. absurd (n refl),
    )
    by_list (u ∷ us) e = unfold emptied in emptied-Outcome (u ∷ us) h v
