-- ===== src/Events/Wait.antt =====
-- GetTimeUntilNextEvent of src/EventHandler.cpp.
use cpp_sockets_library.Prelude.{
  ℕ, ◌+◌, ◌-◌, ◌*◌, ◌/◌, ◌%◌, ◌<◌, ◌≤◌, ◌≡◌, ◌⊎◌, refl, some, List, ◌∷◌, ltb, leb, if◌then◌else◌,
  All, arith, Bool-cases, inl, inr,
}
use cpp_sockets_library.Events.{Event, time_until_next}
use cpp_sockets_library.Events.Order.{IsSorted, IsValid, All-map}

-- A wait of `d` microseconds from `now` on that is over no later than `e` is due, or the shortest
-- one where `e` is due already.
abbrev pub IsEnough : ℕ → ℕ → Event → Type 0
IsEnough now d e = ((e.time ≤ now) × (d ≡ 1)) ⊎ (now + d ≤ e.time)

until : ℕ → Event → ℕ
until now e = if ltb now e.time then e.time - now else 1

later-IsEnough :
    (now d : ℕ) (e : Event) (es : List Event)
    → IsSorted (e ∷ es)
    → IsEnough now d e
    → All (IsEnough now d) (e ∷ es)
later-IsEnough now d e es v enough = (
  enough,
  All-map (λ (x : Event). e.time ≤ x.time) (IsEnough now d) es
      (λ x h. elim enough [
        | inl t ↦
            let due = t.0 in
            let one = t.1 in
            elim (Bool-cases (leb x.time now)) [
              | inl b ↦ inl (ground arith, one)
              | inr b ↦ inr (ground arith)
            ]
        | inr t ↦ inr (omega arith)
      ])
      v.0,
)

until-IsEnough : (now d : ℕ) (e : Event) → d ≡ until now e → IsEnough now d e
unfolding until
until-IsEnough now d e h = elim (Bool-cases (ltb now e.time)) [
  | inl b ↦ inr (ground arith)
  | inr b ↦ inl (ground arith, ground arith)
]

until-positive : (now : ℕ) (e : Event) → 1 ≤ until now e
unfolding until
until-positive now e = ground arith

until-exact : (now : ℕ) (e : Event) → now < e.time → now + until now e ≡ e.time
unfolding until
until-exact now e h = ground arith

until-due : (now : ℕ) (e : Event) → e.time ≤ now → until now e ≡ 1
unfolding until
until-due now e h = ground arith

until-first :
    (now : ℕ) (e : Event)
    → ((now < e.time) × (now + until now e ≡ e.time)) ⊎ ((e.time ≤ now) × (until now e ≡ 1))
until-first now e = elim (Bool-cases (ltb now e.time)) [
  | inl b ↦ let h : now < e.time = ground arith in inl (h, until-exact now e h)
  | inr b ↦ let h : e.time ≤ now = ground arith in inr (h, until-due now e h)
]

-- With events in the list, a valid handler gives a time to wait: less than a million of
-- microseconds beside the seconds, and not zero in all. It is exactly the time until the first event,
-- or one microsecond where that is due already. For every event of the list it is over no later than
-- the event is due, or it is one microsecond and the event is due already.
pub time_until_next-IsEnough :
    (now : ℕ) (e : Event) (es : List Event) (u r : ℕ)
    → IsValid (record { events = e ∷ es; unique_id = u; releases = r })
    → (sec : ℕ) × (usec : ℕ) × (time_until_next now
          (record { events = e ∷ es; unique_id = u; releases = r })
        ≡ some (sec, usec))
      × (usec < 1000000)
      × (1 ≤ sec * 1000000 + usec)
      × (((now < e.time) × (now + (sec * 1000000 + usec) ≡ e.time))
          ⊎ ((e.time ≤ now) × (sec * 1000000 + usec ≡ 1)))
      × All (IsEnough now (sec * 1000000 + usec)) (e ∷ es)
unfolding time_until_next
time_until_next-IsEnough now e es u r v =
    let d = until now e in
    let whole : d / 1000000 * 1000000 + d % 1000000 ≡ d = omega arith in
    (
      d / 1000000,
      d % 1000000,
      unfold until in refl,
      omega arith,
      rw whole (until-positive now e),
      rw whole (until-first now e),
      later-IsEnough now _ e es v.sorted (until-IsEnough now _ e whole),
    )
