-- ===== src/Events/Check.antt =====
-- CheckEvents serves the events that are due.
use cpp_sockets_library.Prelude.{
  ℕ, zero, suc, ◌+◌, ◌*◌, ◌<◌, ◌≤◌, ◌≡◌, ◌≢◌, refl, Bool, true, not, ◌&&◌, Option, some, List, [],
  ◌∷◌, ◌++◌, ltb, ◌==◌, if◌then◌else◌, length, All, arith, Bool-cases, inl, inr, append_assoc,
  append-nil,
}
use cpp_sockets_library.Events.{
  Owner, Event, EventHandler, new_event, insert, add_event, erase_first, remove_event, Call, adds,
  removes, clears, call, calls_all, fires, serve, check_loop, check_events,
}
use cpp_sockets_library.Events.Order.{
  IsSorted, HasOwnIds, IsValid, erase_first-IsValid, add_event-IsValid, clear_events-IsValid,
  others, clear_events-others, All-map,
}

-- How many events are due at `now`; without those that have the id `id`.
due : ℕ → List Event → ℕ
due now [] = 0
due now (e ∷ es) = (if ltb e.time now then 1 else 0) + due now es

due_without : ℕ → ℕ → List Event → ℕ
due_without id now [] = 0
due_without id now (e ∷ es) =
    (if ltb e.time now && not (e.id == id) then 1 else 0) + due_without id now es

due-length : (now : ℕ) (es : List Event) → due now es ≤ length es
unfolding due
due-length now [] = omega arith
due-length now (e ∷ es) = ground (arith, due-length now es)

module _ (id now : ℕ) where
  without-due : (es : List Event) → due_without id now es ≤ due now es
  unfolding due_without due
  without-due [] = omega arith
  without-due (e ∷ es) = ground (arith, without-due es)

  without-erase_first :
      (p : Event → Bool) (es : List Event)
      → due_without id now (erase_first p es) ≤ due_without id now es
  unfolding due_without erase_first
  without-erase_first p [] = omega arith
  without-erase_first p (e ∷ es) = ground (arith, without-erase_first p es)

  without-others :
      (from : Owner) (es : List Event) → due_without id now (others from es) ≤ due_without id now es
  unfolding due_without others
  without-others from [] = omega arith
  without-others from (e ∷ es) = ground (arith, without-others from es)

  without-insert :
      (e : Event) (es : List Event)
      → now ≤ e.time
      → due_without id now (insert e es) ≤ due_without id now es
  unfolding due_without insert
  without-insert e [] h = ground arith
  without-insert e (x ∷ xs) h = ground (arith, without-insert e xs)

  without_absent :
      (es : List Event) → All (λ (x : Event). x.id ≢ id) es → due_without id now es ≡ due now es
  unfolding due_without due
  without_absent [] v = refl
  without_absent (e ∷ es) v = ground (arith, without_absent es v.1, v.0)

  -- Erasing an id leaves the due events that have another one.
  due-erase_first :
      (es : List Event)
      → HasOwnIds es
      → due now (erase_first (λ x. x.id == id) es) ≡ due_without id now es
  unfolding due_without due erase_first
  due-erase_first [] v = refl
  due-erase_first (e ∷ es) v = elim (Bool-cases (e.id == id)) [
    | inl b ↦
        let absent : All (λ (x : Event). x.id ≢ id) es =
          All-map (λ (x : Event). x.id ≢ e.id) (λ (x : Event). x.id ≢ id) es (λ x n. ground arith)
            v.0 in
        ground (arith, without_absent es absent)
    | inr b ↦ ground (arith, due-erase_first es v.1)
  ]

-- What OnEvent adds is not due yet.
abbrev pub IsLater : ℕ → Call → Type 0
IsLater now (adds from sec usec tick) = now ≤ tick + (sec * 1000000 + usec)
IsLater now (removes from eid) = Unit {0}
IsLater now (clears from) = Unit {0}

-- A call, or several, that add nothing due leave no more due events of other ids than there were.
abbrev Called : ℕ → ℕ → EventHandler → Option EventHandler → Type 0
Called id now h r =
    (h' : EventHandler) × (r ≡ some h')
    × IsValid h'
    × (due_without id now h'.events ≤ due_without id now h.events)

call-Called :
    (id now : ℕ) (c : Call) (h : EventHandler)
    → IsValid h
    → IsLater now c
    → Called id now h (call c h)
unfolding call remove_event
call-Called id now (adds from sec usec tick) h v l = (
  _,
  refl,
  add_event-IsValid from sec usec tick h v,
  unfold add_event new_event in without-insert id now _ h.events l,
)
call-Called id now (removes from eid) h v l =
    (_, refl, erase_first-IsValid _ h v, without-erase_first id now _ h.events)
call-Called id now (clears from) h v l = (
  _,
  clear_events-others from h,
  clear_events-IsValid from h v,
  without-others id now from h.events,
)

calls_all-Called :
    (id now : ℕ) (cs : List Call) (h : EventHandler)
    → IsValid h
    → All (IsLater now) cs
    → Called id now h (calls_all cs h)
unfolding calls_all
calls_all-Called id now [] h v l = (h, refl, v, omega arith)
calls_all-Called id now (c ∷ cs) h v l =
    let (h1, e1, v1, d1) = call-Called id now c h v l.0 in
    let (h2, e2, v2, d2) = calls_all-Called id now cs h1 v1 l.1 in
    (h2, rw (calls_all, e1, e2) refl, v2, omega arith)

none_due :
    (now : ℕ) (e : Event) (es : List Event)
    → IsSorted (e ∷ es)
    → now ≤ e.time
    → All (λ (x : Event). now ≤ x.time) (e ∷ es)
none_due now e es v le = (
  le,
  All-map (λ (x : Event). e.time ≤ x.time) (λ (x : Event). now ≤ x.time) es (λ x h. omega arith)
      v.0,
)

abbrev at : List Event → ℕ → ℕ → EventHandler
at es u r = record { events = es; unique_id = u; releases = r }

module _ (valid : ℕ → Bool) (on_event : Owner → ℕ → List Call) (now : ℕ)
    (later : (o : Owner) (id : ℕ) → All (IsLater now) (on_event o id)) where
  called :
      (e : Event) → All (IsLater now) (if fires valid on_event e then on_event e.from e.id else [])
  called e = elim (Bool-cases (fires valid on_event e)) [
    | inl b ↦ rw b (later e.from e.id)
    | inr b ↦ rw b tt
  ]

  serve-due :
      (e : Event) (es : List Event) (u r : ℕ)
      → IsValid (at (e ∷ es) u r)
      → ltb e.time now ≡ true
      → (h' : EventHandler) × (serve valid on_event e (at (e ∷ es) u r) ≡ some h')
        × IsValid h'
        × (due now h'.events < due now (e ∷ es))
  unfolding serve
  serve-due e es u r v b =
      let (h1, e1, v1, d1) = calls_all-Called e.id now _ (at (e ∷ es) u r) v (called e) in
      let erased = due-erase_first e.id now h1.events v1.own_ids in
      let first : due_without e.id now (e ∷ es) < due now (e ∷ es) =
        unfold due due_without in ground (arith, without-due e.id now es) in
      (
        record h1 { events = erase_first (λ x. x.id == e.id) h1.events },
        rw (serve, e1) refl,
        erase_first-IsValid _ h1 v1,
        omega (arith, erased, d1, first),
      )

  abbrev Served : Option (EventHandler × List ℕ) → Type 0
  Served r =
      (h' : EventHandler) × (ids : List ℕ) × (r ≡ some (h', ids))
      × IsValid h'
      × All (λ (e : Event). now ≤ e.time) h'.events

  check_loop-Served :
      (fuel : ℕ) (es : List Event) (u r : ℕ) (log : List ℕ)
      → IsValid (at es u r)
      → due now es < fuel
      → Served (check_loop valid on_event fuel now (at es u r) log)
  unfolding check_loop
  check_loop-Served zero es u r log v lt = absurd (omega arith)
  check_loop-Served (suc fuel) [] u r log v lt = (_, log, refl, v, tt)
  check_loop-Served (suc fuel) (e ∷ es) u r log v lt = elim (Bool-cases (ltb e.time now)) [
    | inl b ↦
        let (h1, e1, v1, less) = serve-due e es u r v b in
        let next : List ℕ = (if fires valid on_event e then log ++ e.id ∷ [] else log) in
        let (h2, ids, e2, v2, none_left) =
          check_loop-Served fuel h1.events h1.unique_id h1.releases next v1 (omega arith) in
        (h2, ids, rw (b, e1) e2, v2, none_left)
    | inr b ↦ (_, log, rw b refl, v, none_due now e es v.sorted (ground arith))
  ]

  -- CheckEvents ends, and leaves no event that is due, where every OnEvent adds only events that
  -- are not due yet; what it does else with the handler does not matter. The handler stays valid.
  pub check_events-Served :
      (h : EventHandler)
      → IsValid h
      → (h' : EventHandler) × (ids : List ℕ) × (check_events valid on_event now h ≡ some (h', ids))
        × IsValid h'
        × All (λ (e : Event). now ≤ e.time) h'.events
  check_events-Served h v =
      unfold check_events in
      check_loop-Served (length h.events + 1) h.events h.unique_id h.releases [] v
        (omega (arith, due-length now h.events))

-- The events that are not due; and the ids of those that are, and whose owner is there.
pub waiting : ℕ → List Event → List Event
waiting now [] = []
waiting now (e ∷ es) = let rest = waiting now es in if ltb e.time now then rest else e ∷ rest

pub served : (ℕ → Bool) → ℕ → List Event → List ℕ
served valid now [] = []
served valid now (e ∷ es) =
    let rest = served valid now es in
    if ltb e.time now && fires valid (λ _ _. []) e then e.id ∷ rest else rest

abbrev quiet : Owner → ℕ → List Call
quiet o id = []

nothing_served :
    (valid : ℕ → Bool) (now : ℕ) (es : List Event)
    → All (λ (x : Event). now ≤ x.time) es
    → (waiting now es ≡ es) × (served valid now es ≡ [])
unfolding waiting served
nothing_served valid now [] v = (refl, refl)
nothing_served valid now (e ∷ es) v =
    let (w, s) = nothing_served valid now es v.1 in (ground arith, ground arith)

own_id-erase_first : (e : Event) (es : List Event) → erase_first (λ x. x.id == e.id) (e ∷ es) ≡ es
unfolding erase_first
own_id-erase_first e es = ground arith

serve-quiet :
    (valid : ℕ → Bool) (e : Event) (es : List Event) (u r : ℕ)
    → serve valid quiet e (at (e ∷ es) u r) ≡ some (at es u r)
unfolding serve calls_all
serve-quiet valid e es u r = elim (Bool-cases (fires valid quiet e)) [
  | inl b ↦ rw (serve, b, own_id-erase_first e es) refl
  | inr b ↦ rw (serve, b, own_id-erase_first e es) refl
]

served-log :
    (valid : ℕ → Bool) (now : ℕ) (e : Event) (es : List Event) (log : List ℕ)
    → ltb e.time now ≡ true
    → (if fires valid quiet e then log ++ e.id ∷ [] else log) ++ served valid now es
      ≡ log ++ served valid now (e ∷ es)
unfolding served
served-log valid now e es log b = elim (Bool-cases (fires valid quiet e)) [
  | inl f ↦ rw (served, b, f) (append_assoc log (e.id ∷ []) (served valid now es))
  | inr f ↦ rw (served, b, f) refl
]

check_loop-quiet :
    (valid : ℕ → Bool) (now fuel : ℕ) (es : List Event) (u r : ℕ) (log : List ℕ)
    → IsSorted es
    → length es < fuel
    → check_loop valid quiet fuel now (at es u r) log
      ≡ some (at (waiting now es) u r, log ++ served valid now es)
unfolding check_loop waiting served
check_loop-quiet valid now zero es u r log v lt = absurd (omega arith)
check_loop-quiet valid now (suc fuel) [] u r log v lt = rw append-nil refl
check_loop-quiet valid now (suc fuel) (e ∷ es) u r log v lt = elim (Bool-cases (ltb e.time now)) [
  | inl b ↦
      let next : List ℕ = (if fires valid quiet e then log ++ e.id ∷ [] else log) in
      let rest = check_loop-quiet valid now fuel es u r next v.1 (omega arith) in
      rw (← served-log valid now e es log b) (rw (b, serve-quiet valid e es u r) rest)
  | inr b ↦
      let (w, s) = nothing_served valid now (e ∷ es) (none_due now e es v (ground arith)) in
      rw (w, s, b, append-nil) refl
]

-- Where OnEvent does nothing with the handler, CheckEvents leaves the events that are not due, in
-- their order, and has called OnEvent for the others in the order of time, but for those of a
-- Socket that is no longer there.
pub check_events-quiet :
    (valid : ℕ → Bool) (now : ℕ) (h : EventHandler)
    → IsValid h
    → check_events valid (λ _ _. []) now h
      ≡ some (record h { events = waiting now h.events }, served valid now h.events)
unfolding check_events
check_events-quiet valid now h v =
    check_loop-quiet valid now (length h.events + 1) h.events h.unique_id h.releases [] v.sorted
      (omega arith)
