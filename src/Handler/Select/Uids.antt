-- ===== src/Handler/Select/Uids.antt =====
-- The uids of the sockets of the map of src/SocketHandler.cpp.
use cpp_sockets_library.Prelude.{
  ℕ, ◌≡◌, ◌≢◌, refl, ap, false, Option, none, some, List, [], ◌∷◌, ◌==◌, if◌then◌else◌, All, arith,
  Bool-cases, inl, inr,
}
use cpp_sockets_library.Handler.{Sock}
use cpp_sockets_library.Handler.Select.{take_uid}

abbrev pub Entries : Type 0
Entries = List (ℕ × ℕ)

abbrev pub uids : (ℕ → Sock) → ℕ → ℕ
uids mem p = (mem p).uid

-- Sockets of the map have uids of their own.
abbrev pub HasOwnUids : (ℕ → ℕ) → List (ℕ × ℕ) → Type 0
HasOwnUids uid [] = Unit {0}
HasOwnUids uid (x ∷ xs) = All (λ (y : ℕ × ℕ). uid y.1 ≢ uid x.1) xs × HasOwnUids uid xs

-- The entries that do not have the uid `u`, or one of `us`.
unfoldable pub without_uid : (ℕ → ℕ) → ℕ → List (ℕ × ℕ) → List (ℕ × ℕ)
without_uid uid u [] = []
without_uid uid u (x ∷ xs) =
    let rest = without_uid uid u xs in if uid x.1 == u then rest else x ∷ rest

unfoldable pub without : (ℕ → ℕ) → List ℕ → List (ℕ × ℕ) → List (ℕ × ℕ)
without uid [] xs = xs
without uid (u ∷ us) xs = without uid us (without_uid uid u xs)

pub without_absent :
    (uid : ℕ → ℕ) (u : ℕ) (xs : Entries)
    → All (λ (y : ℕ × ℕ). uid y.1 ≢ u) xs
    → without_uid uid u xs ≡ xs
unfolding without_uid
without_absent uid u [] v = refl
without_absent uid u (x ∷ xs) v = ground (arith, v.0, without_absent uid u xs v.1)

pub All-without_uid {ℓ} :
    (P : ℕ × ℕ → Type ℓ) (uid : ℕ → ℕ) (u : ℕ) (xs : Entries)
    → All P xs
    → All P (without_uid uid u xs)
unfolding without_uid
All-without_uid P uid u [] v = tt
All-without_uid P uid u (x ∷ xs) v = elim (Bool-cases (uid x.1 == u)) [
  | inl h ↦ rw h (All-without_uid P uid u xs v.1)
  | inr h ↦ rw h (v.0, All-without_uid P uid u xs v.1)
]

pub without_uid-HasOwnUids :
    (uid : ℕ → ℕ) (u : ℕ) (xs : Entries) → HasOwnUids uid xs → HasOwnUids uid (without_uid uid u xs)
unfolding without_uid
without_uid-HasOwnUids uid u [] v = tt
without_uid-HasOwnUids uid u (x ∷ xs) v = elim (Bool-cases (uid x.1 == u)) [
  | inl h ↦ rw h (without_uid-HasOwnUids uid u xs v.1)
  | inr h ↦ rw h (All-without_uid _ uid u xs v.0, without_uid-HasOwnUids uid u xs v.1)
]

pub without_uid-other :
    (uid : ℕ → ℕ) (u : ℕ) (xs : Entries) → All (λ (y : ℕ × ℕ). uid y.1 ≢ u) (without_uid uid u xs)
unfolding without_uid
without_uid-other uid u [] = tt
without_uid-other uid u (x ∷ xs) = elim (Bool-cases (uid x.1 == u)) [
  | inl h ↦ rw h (without_uid-other uid u xs)
  | inr h ↦ rw h (ground arith, without_uid-other uid u xs)
]

-- What take_uid finds.
abbrev pub Takes : (ℕ → ℕ) → ℕ → Entries → Option (ℕ × Entries) → Type 0
Takes uid u xs none = without_uid uid u xs ≡ xs
Takes uid u xs (some (p, ys)) = (uid p ≡ u) × (without_uid uid u xs ≡ ys)

pub take_uid-later :
    (uid : ℕ → ℕ) (u : ℕ) (x : ℕ × ℕ) (xs : Entries) (r : Option (ℕ × Entries))
    → Takes uid u xs r
    → (uid x.1 == u) ≡ false
    → Takes uid u (x ∷ xs) (elim r [ none ↦ none | some t ↦ some (t.0, x ∷ t.1) ])
unfolding without_uid
take_uid-later uid u x xs none t h = rw h (ap (◌∷◌ x) t)
take_uid-later uid u x xs (some (p, ys)) t h = rw h (t.0, ap (◌∷◌ x) t.1)

pub take_uid-Takes :
    (mem : ℕ → Sock) (u : ℕ) (xs : Entries)
    → HasOwnUids (uids mem) xs
    → Takes (uids mem) u xs (take_uid mem u xs)
unfolding take_uid without_uid
take_uid-Takes mem u [] v = refl
take_uid-Takes mem u (x ∷ xs) v = elim (Bool-cases (uids mem x.1 == u)) [
  | inl h ↦
      let same : uids mem x.1 ≡ u = ground arith in
      rw h (same, rw h (without_absent (uids mem) u xs (rw⁻¹ same v.0)))
  | inr h ↦
      rw (take_uid, h)
        (take_uid-later (uids mem) u x xs (take_uid mem u xs) (take_uid-Takes mem u xs v.1) h)
]
