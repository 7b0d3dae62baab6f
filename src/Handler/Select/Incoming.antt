-- ===== src/Handler/Select/Incoming.antt =====
-- The loop of AddIncoming of src/SocketHandler.cpp.
use cpp_sockets_library.Prelude.{
  ℕ, zero, suc, ◌<◌, ◌≤◌, ◌≡◌, ◌⊎◌, refl, sym, ap, subst, ◌∙◌, Option, some, List, [], ◌∷◌, leb,
  if◌then◌else◌, length, drop, arith, Bool-cases, inl, inr,
}
use cpp_sockets_library.Handler.{Env, SocketHandler, Callback, on_delete, incoming}
use cpp_sockets_library.Handler.Select.{add_incoming}
use cpp_sockets_library.Handler.Select.Maps.{
  IsSorted, IsMap, put-IsSorted, length-put, Grown, incoming-Grown,
}

Grown-IsMap :
    (h h' : SocketHandler) → Grown h h' → IsMap h → length h.sockets < h.max_count → IsMap h'
Grown-IsMap h h' g v room = elim g.map [
  | inl e ↦ record { sorted = subst IsSorted (sym e) v.sorted; limited = rw (e, g.limit) v.limited }
  | inr (s, p, e) ↦
      let size = length-put s p h.sockets in
      record {
        sorted = subst IsSorted (sym e) (put-IsSorted s p h.sockets v.sorted);
        limited = rw (e, g.limit) (omega arith);
      }
]

-- How the loop ends.
abbrev pub Ends : SocketHandler → SocketHandler → Type 0
Ends h h' =
    IsMap h'
    × (h'.max_count ≡ h.max_count)
    × ((h'.env.add ≡ []) ⊎ (h.max_count ≤ length h'.sockets))

pub List-cases {ℓ} :
    {A : Type ℓ} (xs : List A) → (xs ≡ []) ⊎ ((y : A) × (ys : List A) × (xs ≡ y ∷ ys))
List-cases [] = inl refl
List-cases (x ∷ xs) = inr (x, xs, refl)

module _ (on : Callback → ℕ → Env → Env) where
  -- The handler after the first socket of m_add.
  next : ℕ → SocketHandler → SocketHandler
  next p h =
      let h1 = incoming on p h in record h1 { env = record h1.env { add = drop 1 h1.env.add } }

  -- A step of the loop, by what m_add holds.
  step : ℕ → SocketHandler → List ℕ → Option SocketHandler
  step fuel h l = elim l [
    | [] ↦ some h
    | p ∷ ps ↦
        if leb h.max_count (length h.sockets) then some h else add_incoming on fuel (next p h)
  ]

  add_incoming-step :
      (fuel : ℕ) (h : SocketHandler) → add_incoming on (suc fuel) h ≡ step fuel h h.env.add
  unfolding add_incoming step next
  add_incoming-step fuel h = refl

  add_incoming-empty :
      (fuel : ℕ) (h : SocketHandler) → h.env.add ≡ [] → add_incoming on (suc fuel) h ≡ some h
  unfolding step
  add_incoming-empty fuel h e = add_incoming-step fuel h ∙ ap (step fuel h) e

  add_incoming-next :
      (fuel : ℕ) (h : SocketHandler) (p : ℕ) (ps : List ℕ)
      → h.env.add ≡ p ∷ ps
      → add_incoming on (suc fuel) h
        ≡ (if leb h.max_count (length h.sockets) then some h else add_incoming on fuel (next p h))
  unfolding step
  add_incoming-next fuel h p ps e = add_incoming-step fuel h ∙ ap (step fuel h) e

  next-Grown :
      (quiet : (p : ℕ) (e : Env) → (on on_delete p e).add ≡ e.add)
      → (p : ℕ) (ps : List ℕ) (h : SocketHandler) → h.env.add ≡ p ∷ ps
      → ((next p h).env.add ≡ ps)
        × ((next p h).max_count ≡ h.max_count)
        × (IsMap h → length h.sockets < h.max_count → IsMap (next p h))
  unfolding next
  next-Grown quiet p ps h e =
      let g = incoming-Grown on quiet p h in
      (
        ap (drop 1) (g.waiting ∙ e),
        g.limit,
        λ v room.
            let w = Grown-IsMap h (incoming on p h) g v room in
            record { sorted = w.sorted; limited = w.limited },
      )

  -- AddIncoming ends, with fuel for every socket of m_add, where OnDelete adds no socket to the
  -- handler: it keeps the descriptors of the map in order and within the limit on their number,
  -- and afterwards m_add is empty or the limit is reached.
  pub add_incoming-Ends :
      (quiet : (p : ℕ) (e : Env) → (on on_delete p e).add ≡ e.add)
      → (fuel : ℕ) (h : SocketHandler) → length h.env.add < fuel
      → IsMap h
      → (h' : SocketHandler) × (add_incoming on fuel h ≡ some h') × Ends h h'
  add_incoming-Ends quiet zero h lt v = absurd (omega arith)
  add_incoming-Ends quiet (suc fuel) h lt v = elim (List-cases h.env.add) [
    | inl e ↦ (h, add_incoming-empty fuel h e, (v, refl, inl e))
    | inr (p, ps, e) ↦ elim (Bool-cases (leb h.max_count (length h.sockets))) [
      | inl full ↦
          (h, rw (add_incoming-next fuel h p ps e, full) refl, (v, refl, inr (ground arith)))
      | inr room ↦
          let (added, limit, map) = next-Grown quiet p ps h e in
          let size : length h.env.add ≡ suc (length ps) = rw e refl in
          let less : length (next p h).env.add < fuel = rw added (omega arith) in
          let (h', runs, (w, same, done)) =
            add_incoming-Ends quiet fuel (next p h) less (map v (ground arith)) in
          (
            h',
            rw (add_incoming-next fuel h p ps e, room) runs,
            (
              w,
              same ∙ limit,
              elim done [
                | inl d ↦ inl d
                | inr d ↦ inr (subst (λ m. m ≤ length h'.sockets) limit d)
              ],
            ),
          )
    ]
  ]
