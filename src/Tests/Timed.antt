-- ===== src/Tests/Timed.antt =====
-- Timed events.
use cpp_sockets_library.Prelude.{
  ℕ, Bool, ◌+◌, ◌*◌, ◌<◌, ◌≤◌, ◌≡◌, ◌⊎◌, ltb, some, List, [], ◌∷◌, All, arith,
}
use cpp_sockets_library.Events.{
  Owner, socket, other, Event, EventHandler, Call, adds, removes, clears, calls_all, check_events,
  time_until_next,
}
use cpp_sockets_library.Events.Order.{IsValid, calls_all-IsValid}
use cpp_sockets_library.Events.Check.{
  IsLater, waiting, served, check_events-Served, check_events-quiet,
}
use cpp_sockets_library.Events.Wait.{IsEnough, time_until_next-IsEnough}

abbrev early : Event
early = record { from = socket 4; uid = 4; time = 70; id = 1 }

abbrev gone : Event
gone = record { from = socket 5; uid = 5; time = 80; id = 2 }

abbrev late : Event
late = record { from = other 1; uid = 0; time = 1500200; id = 3 }

abbrev three : EventHandler
three = record { events = early ∷ gone ∷ late ∷ []; unique_id = 3; releases = 3 }

three-IsValid : IsValid three
three-IsValid = record {
  sorted = ((omega arith, (omega arith, tt)), ((omega arith, tt), (tt, tt)));
  own_ids = ((omega arith, (omega arith, tt)), ((omega arith, tt), (tt, tt)));
  used_ids = (omega arith, (omega arith, (omega arith, tt)));
}

abbrev some_calls : List Call
some_calls = adds (socket 4) 1 5 100 ∷ removes (socket 5) 2 ∷ clears (other 1) ∷ []

calls_all-IsValid_example :
    (h' : EventHandler) × (calls_all some_calls three ≡ some h') × IsValid h'
calls_all-IsValid_example = calls_all-IsValid some_calls three three-IsValid

abbrev valid_socket : ℕ → Bool
valid_socket n = ltb n 5

-- A timer that starts itself again.
abbrev again : Owner → ℕ → List Call
again o id = adds o 1 0 100 ∷ []

again-IsLater : (o : Owner) (id : ℕ) → All (IsLater 100) (again o id)
again-IsLater o id = (omega arith, tt)

check_events-Served_example :
    (h' : EventHandler) × (ids : List ℕ) × (check_events valid_socket again 100 three
      ≡ some (h', ids))
    × IsValid h'
    × All (λ (e : Event). 100 ≤ e.time) h'.events
check_events-Served_example =
    check_events-Served valid_socket again 100 again-IsLater three three-IsValid

check_events-quiet_example :
    check_events valid_socket (λ _ _. []) 100 three
    ≡ some
        (record three { events = waiting 100 three.events }, served valid_socket 100 three.events)
check_events-quiet_example = check_events-quiet valid_socket 100 three three-IsValid

time_until_next-IsEnough_example :
    (sec : ℕ) × (usec : ℕ) × (time_until_next 100 three ≡ some (sec, usec))
    × (usec < 1000000)
    × (1 ≤ sec * 1000000 + usec)
    × (((100 < early.time) × (100 + (sec * 1000000 + usec) ≡ early.time))
        ⊎ ((early.time ≤ 100) × (sec * 1000000 + usec ≡ 1)))
    × All (IsEnough 100 (sec * 1000000 + usec)) three.events
time_until_next-IsEnough_example =
    time_until_next-IsEnough 100 early (gone ∷ late ∷ []) 3 3 three-IsValid
