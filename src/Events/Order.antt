-- ===== src/Events/Order.antt =====
-- The list of events stays in the order of time, with an id for each event of its own.
use cpp_sockets_library.Prelude.{
  ℕ, zero, suc, ◌+◌, ◌<◌, ◌≤◌, ◌≡◌, ◌≢◌, refl, ◌∙◌, sym, ap, Bool, true, false, some, List, [], ◌∷◌,
  ltb, if◌then◌else◌, length, All, arith, Bool-cases, inl, inr,
}
use cpp_sockets_library.Events.{
  Owner, same_owner, Event, EventHandler, new_event, insert, add_event, erase_first, any_passes,
  clear_loop, clear_events, remove_event, Call, adds, removes, clears, call, calls_all,
}

abbrev pub IsSorted : List Event → Type 0
IsSorted [] = Unit {0}
IsSorted (e ∷ es) = All (λ (x : Event). e.time ≤ x.time) es × IsSorted es

abbrev pub HasOwnIds : List Event → Type 0
HasOwnIds [] = Unit {0}
HasOwnIds (e ∷ es) = All (λ (x : Event). x.id ≢ e.id) es × HasOwnIds es

pub record IsValid (h : EventHandler) : Type 0 where
  pub sorted : IsSorted h.events
  pub own_ids : HasOwnIds h.events
  pub used_ids : All (λ (e : Event). e.id ≤ h.unique_id) h.events

All-erase_first {ℓ} :
    (P : Event → Type ℓ) (p : Event → Bool) (es : List Event) → All P es → All P (erase_first p es)
unfolding erase_first
All-erase_first P p [] v = tt
All-erase_first P p (e ∷ es) v = elim (Bool-cases (p e)) [
  | inl h ↦ rw h v.1
  | inr h ↦ rw h (v.0, All-erase_first P p es v.1)
]

erase_first-IsSorted :
    (p : Event → Bool) (es : List Event) → IsSorted es → IsSorted (erase_first p es)
unfolding erase_first
erase_first-IsSorted p [] v = tt
erase_first-IsSorted p (e ∷ es) v = elim (Bool-cases (p e)) [
  | inl h ↦ rw h v.1
  | inr h ↦ rw h (All-erase_first _ p es v.0, erase_first-IsSorted p es v.1)
]

erase_first-HasOwnIds :
    (p : Event → Bool) (es : List Event) → HasOwnIds es → HasOwnIds (erase_first p es)
unfolding erase_first
erase_first-HasOwnIds p [] v = tt
erase_first-HasOwnIds p (e ∷ es) v = elim (Bool-cases (p e)) [
  | inl h ↦ rw h v.1
  | inr h ↦ rw h (All-erase_first _ p es v.0, erase_first-HasOwnIds p es v.1)
]

-- What an erasing loop leaves is valid.
pub erase_first-IsValid :
    (p : Event → Bool) (h : EventHandler)
    → IsValid h
    → IsValid (record h { events = erase_first p h.events })
erase_first-IsValid p h v = record {
  sorted = erase_first-IsSorted p h.events v.sorted;
  own_ids = erase_first-HasOwnIds p h.events v.own_ids;
  used_ids = All-erase_first _ p h.events v.used_ids;
}

All-insert {ℓ} :
    (P : Event → Type ℓ) (e : Event) (es : List Event) → P e → All P es → All P (insert e es)
unfolding insert
All-insert P e [] h v = (h, tt)
All-insert P e (x ∷ xs) h v = elim (Bool-cases (ltb x.time e.time)) [
  | inl b ↦ rw b (v.0, All-insert P e xs h v.1)
  | inr b ↦ rw b (h, v)
]

pub All-map {ℓ κ} :
    {A : Type ℓ} (P Q : A → Type κ) (xs : List A) → ((x : A) → P x → Q x) → All P xs → All Q xs
All-map P Q [] f v = tt
All-map P Q (x ∷ xs) f v = (f x v.0, All-map P Q xs f v.1)

insert-IsSorted : (e : Event) (es : List Event) → IsSorted es → IsSorted (insert e es)
unfolding insert
insert-IsSorted e [] v = (tt, tt)
insert-IsSorted e (x ∷ xs) v = elim (Bool-cases (ltb x.time e.time)) [
  | inl b ↦ rw b (All-insert _ e xs (ground arith) v.0, insert-IsSorted e xs v.1)
  | inr b ↦
      let le : e.time ≤ x.time = ground arith in
      rw b (
        (
          le,
          All-map (λ (y : Event). x.time ≤ y.time) (λ (y : Event). e.time ≤ y.time) xs
              (λ y h. omega arith) v.0,
        ),
        v,
      )
]

insert-HasOwnIds :
    (e : Event) (es : List Event)
    → HasOwnIds es
    → All (λ (x : Event). x.id ≢ e.id) es
    → HasOwnIds (insert e es)
unfolding insert
insert-HasOwnIds e [] v n = (tt, tt)
insert-HasOwnIds e (x ∷ xs) v n = elim (Bool-cases (ltb x.time e.time)) [
  | inl b ↦ rw b (All-insert _ e xs (λ h. n.0 (sym h)) v.0, insert-HasOwnIds e xs v.1 n.1)
  | inr b ↦ rw b (n, v)
]

-- AddEvent keeps the order, and gives the event an id that no other has.
pub add_event-IsValid :
    (from : Owner) (sec usec tick : ℕ) (h : EventHandler)
    → IsValid h
    → IsValid (add_event from sec usec tick h).0
unfolding add_event new_event
add_event-IsValid from sec usec tick h v = record {
  sorted = insert-IsSorted _ h.events v.sorted;
  own_ids = insert-HasOwnIds _ h.events v.own_ids (
      All-map (λ (e : Event). e.id ≤ h.unique_id) (λ (e : Event). e.id ≢ h.unique_id + 1) h.events
        (λ e a b. omega arith) v.used_ids);
  used_ids = All-insert _ _ h.events (omega arith) (
      All-map (λ (e : Event). e.id ≤ h.unique_id) (λ (e : Event). e.id ≤ h.unique_id + 1) h.events
        (λ e a. omega arith) v.used_ids);
}

-- The events of other owners.
unfoldable pub others : Owner → List Event → List Event
others from [] = []
others from (e ∷ es) =
    let rest = others from es in if same_owner e.from from then rest else e ∷ rest

abbrev mine : Owner → Event → Bool
mine from e = same_owner e.from from

others-none :
    (from : Owner) (es : List Event) → any_passes (mine from) es ≡ false → others from es ≡ es
unfolding others any_passes
others-none from [] h = refl
others-none from (e ∷ es) h = ground (arith, others-none from es)

others-erase_first :
    (from : Owner) (es : List Event) → others from (erase_first (mine from) es) ≡ others from es
unfolding others erase_first
others-erase_first from [] = refl
others-erase_first from (e ∷ es) = ground (arith, others-erase_first from es)

erase_first-shorter :
    (p : Event → Bool) (es : List Event)
    → any_passes p es ≡ true
    → length (erase_first p es) < length es
unfolding any_passes erase_first
erase_first-shorter p [] h = cc
erase_first-shorter p (e ∷ es) h = ground (arith, erase_first-shorter p es)

clear_loop-others :
    (fuel : ℕ) (from : Owner) (es : List Event)
    → length es < fuel
    → clear_loop fuel from es ≡ some (others from es)
unfolding clear_loop
clear_loop-others zero from es h = absurd (omega arith)
clear_loop-others (suc fuel) from es h = elim (Bool-cases (any_passes (mine from) es)) [
  | inl b ↦
      let less = erase_first-shorter (mine from) es b in
      rw b (
        clear_loop-others fuel from (erase_first (mine from) es) (omega arith)
        ∙ ap some (others-erase_first from es))
  | inr b ↦ rw b (ap some (sym (others-none from es b)))
]

-- ClearEvents ends, and leaves exactly the events of other owners, in their order.
pub clear_events-others :
    (from : Owner) (h : EventHandler)
    → clear_events from h ≡ some (record h { events = others from h.events })
unfolding clear_events
clear_events-others from h =
    rw (clear_events, clear_loop-others (length h.events + 1) from h.events (omega arith)) refl

All-others {ℓ} :
    (P : Event → Type ℓ) (from : Owner) (es : List Event) → All P es → All P (others from es)
unfolding others
All-others P from [] v = tt
All-others P from (e ∷ es) v = elim (Bool-cases (same_owner e.from from)) [
  | inl h ↦ rw h (All-others P from es v.1)
  | inr h ↦ rw h (v.0, All-others P from es v.1)
]

pub others-IsSorted : (from : Owner) (es : List Event) → IsSorted es → IsSorted (others from es)
unfolding others
others-IsSorted from [] v = tt
others-IsSorted from (e ∷ es) v = elim (Bool-cases (same_owner e.from from)) [
  | inl h ↦ rw h (others-IsSorted from es v.1)
  | inr h ↦ rw h (All-others _ from es v.0, others-IsSorted from es v.1)
]

others-HasOwnIds : (from : Owner) (es : List Event) → HasOwnIds es → HasOwnIds (others from es)
unfolding others
others-HasOwnIds from [] v = tt
others-HasOwnIds from (e ∷ es) v = elim (Bool-cases (same_owner e.from from)) [
  | inl h ↦ rw h (others-HasOwnIds from es v.1)
  | inr h ↦ rw h (All-others _ from es v.0, others-HasOwnIds from es v.1)
]

pub clear_events-IsValid :
    (from : Owner) (h : EventHandler)
    → IsValid h
    → IsValid (record h { events = others from h.events })
clear_events-IsValid from h v = record {
  sorted = others-IsSorted from h.events v.sorted;
  own_ids = others-HasOwnIds from h.events v.own_ids;
  used_ids = All-others _ from h.events v.used_ids;
}

-- Every call of the handler ends and keeps it valid.
pub call-IsValid :
    (c : Call) (h : EventHandler)
    → IsValid h
    → (h' : EventHandler) × (call c h ≡ some h') × IsValid h'
unfolding call remove_event
call-IsValid (adds from sec usec tick) h v = (_, refl, add_event-IsValid from sec usec tick h v)
call-IsValid (removes from eid) h v = (_, refl, erase_first-IsValid _ h v)
call-IsValid (clears from) h v = (_, clear_events-others from h, clear_events-IsValid from h v)

-- From a new handler on, any sequence of AddEvent, RemoveEvent and ClearEvents ends, and keeps the
-- events in the order of time, each with an id of its own.
pub calls_all-IsValid :
    (cs : List Call) (h : EventHandler)
    → IsValid h
    → (h' : EventHandler) × (calls_all cs h ≡ some h') × IsValid h'
unfolding calls_all
calls_all-IsValid [] h v = (h, refl, v)
calls_all-IsValid (c ∷ cs) h v =
    let (h1, e1, v1) = call-IsValid c h v in
    let (h2, e2, v2) = calls_all-IsValid cs h1 v1 in (h2, rw (calls_all, e1, e2) refl, v2)
