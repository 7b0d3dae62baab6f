-- ===== src/Events.antt =====
-- src/EventHandler.cpp with src/Event.cpp, src/EventTime.cpp and src/IEventOwner.cpp: the list of
-- timed events. A time is a number of microseconds, not negative. An event is told apart by its id,
-- where the code compares pointers; the code is about live objects only. The counter of the ids,
-- which is static, is that of the one handler.
pub mod Order
pub mod Check
pub mod Wait
use cpp_sockets_library.Prelude.{
  ℕ, zero, suc, ◌+◌, ◌-◌, ◌*◌, ◌/◌, ◌%◌, Bool, true, false, not, ◌&&◌, ◌||◌, Option, none, some,
  List, [], ◌∷◌, ◌++◌, ltb, ◌==◌, if◌then◌else◌, length,
}

-- IEventOwner: a Socket, with its UniqueIdentifier, or another object.
pub data Owner : Type 0 where
  socket other : ℕ → Owner

pub same_owner : Owner → Owner → Bool
same_owner (socket a) (socket b) = a == b
same_owner (other a) (other b) = a == b
same_owner _ _ = false

pub record Event : Type 0 where
  pub from : Owner
  pub uid : ℕ
  pub time : ℕ
  pub id : ℕ

pub record EventHandler : Type 0 where
  pub events : List Event
  pub unique_id : ℕ
  pub releases : ℕ

pub new_handler : EventHandler
new_handler = record { events = []; unique_id = 0; releases = 0 }

-- Event(from, sec, usec, data) made at the time `tick`
pub new_event : ℕ → Owner → ℕ → ℕ → ℕ → Event
new_event id from sec usec tick = record {
  from = from;
  uid = elim from [ socket n ↦ n | other n ↦ 0 ];
  time = tick + (sec * 1000000 + usec);
  id = id;
}

-- `while (it != m_events.end() && *(*it) < *e) ++it; m_events.insert(it, e);`
pub insert : Event → List Event → List Event
insert e [] = e ∷ []
insert e (x ∷ xs) = let rest = insert e xs in if ltb x.time e.time then x ∷ rest else e ∷ x ∷ xs

-- AddEvent; its result is the new event's id.
pub add_event : Owner → ℕ → ℕ → ℕ → EventHandler → EventHandler × ℕ
unfolding new_event
add_event from sec usec tick h =
    let id = h.unique_id + 1 in
    (
      record {
        events = insert (new_event id from sec usec tick) h.events;
        unique_id = id;
        releases = h.releases + 1;
      },
      id,
    )

-- The loops that erase the first event that passes a test, and break.
pub erase_first : (Event → Bool) → List Event → List Event
erase_first p [] = []
erase_first p (e ∷ es) = let rest = erase_first p es in if p e then es else e ∷ rest

pub any_passes : (Event → Bool) → List Event → Bool
any_passes p [] = false
any_passes p (e ∷ es) = p e || any_passes p es

-- The outer loop of ClearEvents: a round for each event and one more.
pub clear_loop : ℕ → Owner → List Event → Option (List Event)
clear_loop zero from es = none
clear_loop (suc fuel) from es =
    let repeat = clear_loop fuel from (erase_first (λ e. same_owner e.from from) es) in
    if any_passes (λ e. same_owner e.from from) es then repeat else some es

pub clear_events : Owner → EventHandler → Option EventHandler
clear_events from h = elim (clear_loop (length h.events + 1) from h.events) [
  | none ↦ none
  | some es ↦ some (record h { events = es })
]

pub remove_event : Owner → ℕ → EventHandler → EventHandler
remove_event from eid h = record h {
  events = erase_first (λ e. same_owner from e.from && eid == e.id) h.events;
}

-- GetTimeUntilNextEvent at the time `now`: the seconds and microseconds of `tv`.
pub time_until_next : ℕ → EventHandler → Option (ℕ × ℕ)
time_until_next now h = elim h.events [
  | [] ↦ none
  | e ∷ _ ↦
      let diff : ℕ = (if ltb now e.time then e.time - now else 1) in
      some (diff / 1000000, diff % 1000000)
]

-- What OnEvent does with the handler.
pub data Call : Type 0 where
  adds : Owner → ℕ → ℕ → ℕ → Call
  removes : Owner → ℕ → Call
  clears : Owner → Call

pub call : Call → EventHandler → Option EventHandler
call (adds from sec usec tick) h = some (add_event from sec usec tick h).0
call (removes from eid) h = some (remove_event from eid h)
call (clears from) h = clear_events from h

pub calls_all : List Call → EventHandler → Option EventHandler
calls_all [] h = some h
calls_all (c ∷ cs) h = elim (call c h) [ none ↦ none | some h' ↦ calls_all cs h' ]

-- `valid` is SocketHandler::Valid, and `on_event` says what the OnEvent of an owner does.
module _ (valid : ℕ → Bool) (on_event : Owner → ℕ → List Call) where
  -- `!s || (s && Valid( e -> Data() ))`
  pub fires : Event → Bool
  fires e = elim e.from [ socket n ↦ valid e.uid | other n ↦ true ]

  -- One round of the loop of CheckEvents for its first event, which is deleted if it is still there.
  pub serve : Event → EventHandler → Option EventHandler
  unfolding calls_all
  serve e h = elim (calls_all (if fires e then on_event e.from e.id else []) h) [
    | none ↦ none
    | some h' ↦ some (record h' { events = erase_first (λ x. x.id == e.id) h'.events })
  ]

  -- The result has the ids for which OnEvent was called, in order.
  pub check_loop : ℕ → ℕ → EventHandler → List ℕ → Option (EventHandler × List ℕ)
  check_loop zero now h log = none
  check_loop (suc fuel) now h log = elim h.events [
    | [] ↦ some (h, log)
    | e ∷ _ ↦
        if ltb e.time now
        then elim (serve e h) [
          | none ↦ none
          | some h' ↦ check_loop fuel now h' (if fires e then log ++ e.id ∷ [] else log)
        ]
        else some (h, log)
  ]

  -- CheckEvents at the time `now`.
  pub check_events : ℕ → EventHandler → Option (EventHandler × List ℕ)
  check_events now h = check_loop (length h.events + 1) now h []
