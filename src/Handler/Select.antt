-- ===== src/Handler/Select.antt =====
-- AddIncoming, the checks and Select of src/SocketHandler.cpp. The virtual functions do not change the
-- map of sockets while a loop walks over it, which the iterators of the code rely on too.
pub mod Erase
pub mod Failed
pub mod Faultless
pub mod Incoming
pub mod Maps
pub mod Marked
pub mod Reopened
pub mod Retry
pub mod Settled
pub mod Sound
pub mod Turn
pub mod Uids
pub mod Within
use cpp_sockets_library.Prelude.{
  ℕ, zero, suc, ◌+◌, ◌-◌, Bool, true, false, not, ◌&&◌, ◌||◌, Option, none, some, List, [], ◌∷◌,
  ◌++◌, ltb, leb, ◌==◌, if◌then◌else◌, length, drop, ◌>>=◌,
}
use cpp_sockets_library.Handler.{
  Sock, FdSet, Env, SocketHandler, socket, change, set_fds, update, valid, close, open_tcp, Connect,
  Callback, on_delete, on_connect, on_reconnect, on_ssl_connect, on_disconnect, on_read, on_write,
  on_exception, on_timeout, on_connect_timeout, ssl_negotiate, detach_socket, calls, delete_socket,
  incoming,
}

-- The sockets of the map, in the order of the descriptors.
pub pointers : List (ℕ × ℕ) → List ℕ
pointers [] = []
pointers (x ∷ xs) = x.1 ∷ pointers xs

pub for_each : (ℕ → SocketHandler → SocketHandler) → List ℕ → SocketHandler → SocketHandler
for_each f [] h = h
for_each f (p ∷ ps) h = for_each f ps (f p h)

-- The first socket of the map with the uid `u`, and the other entries.
pub take_uid : (ℕ → Sock) → ℕ → List (ℕ × ℕ) → Option (ℕ × List (ℕ × ℕ))
take_uid mem u [] = none
take_uid mem u (x ∷ xs) =
    let rest = take_uid mem u xs in
    if (mem x.1).uid == u
    then some (x.1, xs)
    else elim rest [ none ↦ none | some r ↦ some (r.0, x ∷ r.1) ]

-- !(m_slave ^ p -> IsDetached())
pub owns : SocketHandler → ℕ → Bool
owns h p = if h.slave then (socket h p).detached else not (socket h p).detached

pub delete_object : ℕ → SocketHandler → SocketHandler
delete_object p h = change p (λ s. record s { deleted = s.deleted + 1 }) h

pub erase_all : List ℕ → SocketHandler → SocketHandler
erase_all [] h = h
erase_all (u ∷ us) h = erase_all us (elim (take_uid h.env.mem u h.sockets) [
  | none ↦ h
  | some r ↦
      let h1 = if (socket h r.0).erased && owns h r.0 then delete_object r.0 h else h in
      record h1 { sockets = r.1 }
])

pub max_fd : ℕ → List (ℕ × ℕ) → ℕ
max_fd m [] = m
max_fd m (x ∷ xs) = max_fd (if ltb m x.0 then x.0 else m) xs

pub check_erased : SocketHandler → SocketHandler
check_erased h = elim h.fds_erase [
  | [] ↦ h
  | u ∷ us ↦
      let h1 = erase_all (u ∷ us) (record h { fds_erase = [] }) in
      record h1 { maxsock = max_fd 0 h1.sockets }
]

-- What select answers: the sets, no socket in time, an error that is passed over, EBADF with the
-- descriptors that are bad, and EINVAL.
pub data Answer : Type 0 where
  ready : FdSet → FdSet → FdSet → Answer
  none_ready passed_over invalid : Answer
  bad_fd : (ℕ → Bool) → Answer

module _ (on : Callback → ℕ → Env → Env) where
  pub add_incoming : ℕ → SocketHandler → Option SocketHandler
  add_incoming zero h = none
  add_incoming (suc fuel) h = elim h.env.add [
    | [] ↦ some h
    | p ∷ ps ↦
        let h1 = incoming on p h in
        let rest =
          add_incoming fuel (record h1 { env = record h1.env { add = drop 1 h1.env.add } }) in
        if leb h.max_count (length h.sockets) then some h else rest
  ]

  -- CheckCallOnConnect for one socket.
  pub call_on_connect : ℕ → SocketHandler → SocketHandler
  call_on_connect p h =
      if valid p h && (socket h p).call_on_connect
      then (let h1 = change p (λ s. record s { connected = true }) h in
          let written =
            if (socket h1 p).tcp && not ((socket h1 p).output_length == 0)
            then calls on on_write p h1
            else h1 in
          let h2 =
            if (socket h1 p).ssl
            then calls on on_ssl_connect p h1
            else if (socket written p).tcp && (socket written p).is_reconnect
            then calls on on_reconnect p written
            else calls on on_connect p written in
          record h2 {
            env = record (update p (λ s. record s { call_on_connect = false }) h2.env) {
              check_callonconnect = true;
            };
          })
      else h

  pub check_call_on_connect : SocketHandler → SocketHandler
  check_call_on_connect h =
      for_each call_on_connect (pointers h.sockets)
        (record h { env = record h.env { check_callonconnect = false } })

  -- CheckTimeout for one socket at the time `now`.
  pub timeout : ℕ → ℕ → SocketHandler → SocketHandler
  timeout now p h =
      let s = socket h p in
      if valid p h && ltb 0 s.timeout_start && ltb 0 s.timeout_limit
      then (let stopped = change p (λ x. record x { timeout_start = 0; timeout_limit = 0 }) h in
          let told = calls on on_connect_timeout p stopped in
          let wait = (socket told p).connect_timeout in
          let restarted =
            change p
              (λ x. record x { timeout_start = if wait == 0 then 0 else now; timeout_limit = wait })
              told in
          let h1 =
            if ltb (s.timeout_start + s.timeout_limit) now
            then (if s.stream && s.connecting then restarted else calls on on_timeout p stopped)
            else h in
          record h1 { env = record h1.env { check_timeout = true } })
      else h

  pub check_timeouts : ℕ → SocketHandler → SocketHandler
  check_timeouts now h =
      for_each (timeout now) (pointers h.sockets)
        (record h { env = record h.env { check_timeout = false } })

  -- CheckRetry for one socket; `answer` is what the system says to Open.
  -- GetClientRemoteAddress follows the pointer also where there is no address.
  pub retry : ℕ → (ℕ → Connect) → ℕ → SocketHandler → SocketHandler
  retry now answer p h =
      if valid p h && (socket h p).retry
      then (let h1 = change p (λ s. record s { retry = false }) h in
          let h2 = record h1 { env = close p h1.env } in
          let h3 =
            if (socket h2 p).has_address
            then open_tcp now p (answer p) h2
            else record h2 { fault = true } in
          record h3 {
            env = record h3.env { add = h3.env.add ++ p ∷ []; check_retry = true };
            fds_erase = h3.fds_erase ++ (socket h3 p).uid ∷ [];
          })
      else h

  pub check_retries : ℕ → (ℕ → Connect) → SocketHandler → SocketHandler
  check_retries now answer h =
      for_each (retry now answer) (pointers h.sockets)
        (record h { env = record h.env { check_retry = false } })

  pub close_and_delete : ℕ → SocketHandler → SocketHandler
  close_and_delete p h =
      delete_socket on p (record h { env = close p (set_fds p false false h.env) })

  -- The branch of CheckClose for a socket that connects again.
  pub reopen : ℕ → Connect → ℕ → SocketHandler → SocketHandler
  reopen now answer p h =
      let h1 =
        change p (λ s. record s { closing = false; is_reconnect = true; connected = false }) h in
      let h2 = calls on on_disconnect p (record h1 { env = close p h1.env }) in
      let h3 =
        if (socket h2 p).has_address
        then open_tcp now p answer h2
        else record h2 { fault = true } in
      record h3 {
        env = record h3.env { add = h3.env.add ++ p ∷ [] };
        fds_erase = h3.fds_erase ++ (socket h3 p).uid ∷ [];
      }

  -- The socket is still flushed before it is closed.
  pub is_graceful : ℕ → Sock → Bool
  is_graceful now s = s.tcp && s.connected && s.flush && not s.ssl && ltb now (s.close_time + 5)

  -- CheckClose for one socket.
  pub close_step : ℕ → (ℕ → Connect) → ℕ → SocketHandler → SocketHandler
  close_step now answer p h =
      let s = socket h p in
      let h1 =
        if s.lost && not (s.tcp && s.reconnect)
        then delete_socket on p h
        else if is_graceful now s
        then (if not (s.output_length == 0)
            then h
            else if not s.shutdown_wr
            then change p (λ x. record x { shutdown_wr = true }) h
            else close_and_delete p h)
        else if s.tcp && s.connected && s.reconnect
        then reopen now (answer p) p h
        else close_and_delete p h in
      if valid p h && s.closing then record h1 { env = record h1.env { check_close = true } } else h

  pub check_closes : ℕ → (ℕ → Connect) → SocketHandler → SocketHandler
  check_closes now answer h =
      for_each (close_step now answer) (pointers h.sockets)
        (record h { env = record h.env { check_close = false } })

  pub any_detach : (ℕ → Sock) → List ℕ → Bool
  any_detach mem [] = false
  any_detach mem (p ∷ ps) = (mem p).detach || any_detach mem ps

  -- The first socket of the map that is to be detached, and the other entries.
  pub take_detach : (ℕ → Sock) → List (ℕ × ℕ) → Option (ℕ × List (ℕ × ℕ))
  take_detach mem [] = none
  take_detach mem (x ∷ xs) =
      let rest = take_detach mem xs in
      if (mem x.1).detach
      then some (x.1, xs)
      else elim rest [ none ↦ none | some r ↦ some (r.0, x ∷ r.1) ]

  pub check_detaches : SocketHandler → SocketHandler
  check_detaches h = elim (take_detach h.env.mem h.sockets) [
    | none ↦ record h { env = record h.env { check_detach = any_detach h.env.mem h.env.add } }
    | some r ↦
        let h1 =
          calls on detach_socket r.0
            (record h { env = set_fds r.0 false false h.env; sockets = r.1 }) in
        record h1 { env = record h1.env { check_detach = true } }
  ]

  -- The loop at the end of Select, over m_delete.
  pub drop_all : List ℕ → SocketHandler → SocketHandler
  drop_all [] h = record h { delete_list = [] }
  drop_all (p ∷ ps) h =
      let h1 = calls on on_delete p h in
      drop_all ps (
        if (socket h1 p).delete_by_handler && owns h1 p
        then delete_object p (change p (λ s. record s { erased = true }) h1)
        else h1)

  pub keeps_fd : ℕ → Sock → Bool
  keeps_fd s x = elim x.fd [ none ↦ false | some k ↦ k == s ]

  -- RebuildFdset; `bad` are the descriptors that select refuses, `r`, `w` and `e` the sets built.
  pub rebuild : (ℕ → Bool) → List (ℕ × ℕ) → FdSet → FdSet → FdSet → SocketHandler → SocketHandler
  unfolding keeps_fd
  rebuild bad [] r w e h = record h { env = record h.env { rfds = r; wfds = w; efds = e } }
  rebuild bad (x ∷ xs) r w e h =
      let s = x.0 in
      let own = keeps_fd s (socket h x.1) in
      let keep = own && not (bad s) in
      let drops = not own || (bad s && valid x.1 h) in
      rebuild bad xs (λ i. if keep && i == s && h.env.rfds s then true else r i)
        (λ i. if keep && i == s && h.env.wfds s then true else w i)
        (λ i. if keep && i == s && h.env.efds s then true else e i)
        (if drops then delete_socket on x.1 h else h)

  -- The calls of the loop of ISocketHandler_Select for one entry of the map.
  pub dispatch : FdSet → FdSet → FdSet → List (ℕ × ℕ) → SocketHandler → SocketHandler
  dispatch r w e [] h = h
  dispatch r w e (x ∷ xs) h =
      let h1 =
        if r x.0
        then calls on (if (socket h x.1).ssl_negotiate then ssl_negotiate else on_read) x.1 h
        else h in
      let h2 =
        if w x.0
        then calls on (if (socket h1 x.1).ssl_negotiate then ssl_negotiate else on_write) x.1 h1
        else h1 in
      dispatch r w e xs (if e x.0 then calls on on_exception x.1 h2 else h2)

  -- ISocketHandler_Select; EINVAL is an exception, `none`.
  pub system_select : Answer → SocketHandler → Option SocketHandler
  system_select (ready r w e) h = some (dispatch r w e h.sockets h)
  system_select none_ready h = some h
  system_select passed_over h = some h
  system_select invalid h = none
  system_select (bad_fd bad) h =
      some (rebuild bad h.sockets (λ i. false) (λ i. false) (λ i. false) h)

  -- What Select does after ISocketHandler_Select, up to the erased sockets.
  pub checks : ℕ → (ℕ → Connect) → SocketHandler → SocketHandler
  checks now answer h =
      let h1 = if h.env.check_callonconnect then check_call_on_connect h else h in
      let h2 = if not h1.slave && h1.env.check_detach then check_detaches h1 else h1 in
      let h3 =
        if h2.env.check_timeout && not (now == h2.tlast)
        then record (check_timeouts now h2) { tlast = now }
        else h2 in
      let h4 = if h3.env.check_retry then check_retries now answer h3 else h3 in
      if h4.env.check_close then check_closes now answer h4 else h4

  -- Select(tsel) at the time `now`, which gives no result after a fault; `fuel` is for the loop of AddIncoming.
  pub select : ℕ → ℕ → (ℕ → Connect) → Answer → SocketHandler → Option SocketHandler
  select fuel now answer got h = do
    h1 ← add_incoming fuel h
    h2 ← system_select got h1
    let h3 = checks now answer h2
    let h4 = check_erased h3
    if h3.fault then none else some (drop_all h4.delete_list h4)

-- The time in microseconds that Select() waits; `none` is without end.
pub waits : Env → Option ℕ
waits e =
    if e.check_callonconnect || e.check_detach || e.check_timeout || e.check_retry || e.check_close
    then some (if e.check_detach then 10000 else 200000)
    else none
