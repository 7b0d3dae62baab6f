-- ===== src/Tests/Polling.antt =====
-- The socket handler.
use cpp_sockets_library.Prelude.{
  ℕ, ◌+◌, ◌≤◌, ◌≡◌, ◌≢◌, refl, true, false, some, List, [], ◌∷◌, ◌==◌, All, arith,
}
use cpp_sockets_library.Handler.{
  Sock, Env, SocketHandler, socket, refused, set_close, Callback, on_read, ssl_negotiate,
}
use cpp_sockets_library.Handler.Select.{
  Answer, ready, add_incoming, check_retries, check_closes, check_erased,
}
use cpp_sockets_library.Handler.Select.Erase.{Apart, check_erased-Outcome}
use cpp_sockets_library.Handler.Select.Uids.{uids, without}
use cpp_sockets_library.Handler.Select.Incoming.{Ends, add_incoming-Ends}
use cpp_sockets_library.Handler.Select.Maps.{IsMap}
use cpp_sockets_library.Handler.Select.Retry.{check_erased-retry}
use cpp_sockets_library.Handler.Select.Sound.{Sound}

abbrev client : ℕ → Sock
client p = record {
  fd = some (p + 3);
  uid = p + 1;
  stream = true;
  tcp = true;
  ssl = false;
  ssl_negotiate = false;
  connecting = false;
  connected = false;
  lost = false;
  closing = false;
  close_time = 0;
  call_on_connect = false;
  retry = p == 0;
  reconnect = false;
  is_reconnect = false;
  detach = false;
  detached = false;
  delete_by_handler = true;
  erased = p == 1;
  disable_read = false;
  flush = true;
  shutdown_wr = false;
  output_length = 0;
  timeout_start = 0;
  timeout_limit = 0;
  connect_timeout = 5;
  has_address = true;
  deleted = 0;
}

abbrev sockets_at : List (ℕ × ℕ) → List ℕ → List ℕ → SocketHandler
sockets_at map waiting erases = record {
  env = record {
    mem = client;
    add = waiting;
    rfds = λ s. false;
    wfds = λ s. false;
    efds = λ s. false;
    check_callonconnect = false;
    check_detach = false;
    check_timeout = false;
    check_retry = true;
    check_close = false;
  };
  sockets = map;
  delete_list = [];
  fds_erase = erases;
  maxsock = 5;
  tlast = 0;
  slave = false;
  max_count = 1024;
  fault = false;
}

-- A socket that has something to read closes itself.
abbrev closes_on_read : Callback → ℕ → Env → Env
closes_on_read on_read p e = set_close 100 p e
closes_on_read c p e = e

abbrev two_more : SocketHandler
two_more = sockets_at ((3, 0) ∷ []) (1 ∷ 2 ∷ []) []

two_more-IsMap : IsMap two_more
two_more-IsMap = record { sorted = (tt, tt); limited = omega arith }

add_incoming-Ends_example :
    (h' : SocketHandler) × (add_incoming closes_on_read 3 two_more ≡ some h') × Ends two_more h'
add_incoming-Ends_example =
    add_incoming-Ends closes_on_read (λ p e. refl) 3 two_more (omega arith) two_more-IsMap

abbrev readable : Answer
readable = ready (λ s. s == 4) (λ s. false) (λ s. false)

abbrev two_queued : SocketHandler
two_queued = sockets_at ((3, 0) ∷ (4, 1) ∷ (5, 2) ∷ []) [] (2 ∷ 7 ∷ [])

check_erased-Outcome_example :
    ((check_erased two_queued).sockets ≡ without (uids client) (2 ∷ 7 ∷ []) two_queued.sockets)
    × ((check_erased two_queued).fds_erase ≡ [])
    × All (Apart (uids client) (2 ∷ 7 ∷ [])) (check_erased two_queued).sockets
    × ((q : ℕ)
        → All (λ (u : ℕ). (socket two_queued q).uid ≢ u) (2 ∷ 7 ∷ [])
        → socket (check_erased two_queued) q ≡ socket two_queued q)
    × (two_queued.fds_erase ≢ []
        → All
            (λ (y : ℕ × ℕ). y.0 ≤ (check_erased two_queued).maxsock)
            (check_erased two_queued).sockets)
check_erased-Outcome_example =
    check_erased-Outcome two_queued
      ((ground arith, (ground arith, tt)), ((ground arith, tt), (tt, tt)))

abbrev one_retries : SocketHandler
one_retries = sockets_at ((3, 0) ∷ []) [] []

check_erased-retry_example :
    let h' = check_erased (
      check_closes closes_on_read 100 refused
        (check_retries closes_on_read 100 refused one_retries)) in
    ((socket h' 0).deleted ≡ 1) × (h'.env.add ≡ 0 ∷ []) × (h'.sockets ≡ [])
check_erased-retry_example =
    check_erased-retry closes_on_read 3 0 100 0 refused one_retries (λ e. refl) refl
      (record {
        alone = refl;
        none_erased = refl;
        retries = refl;
        held = (refl, refl, refl, refl);
        owned = (refl, refl, refl);
      })
