-- ===== src/Handler/Select/Settled.antt =====
-- Select of src/SocketHandler.cpp: what one turn of it leaves.
use cpp_sockets_library.Prelude.{
  ℕ, ◌+◌, ◌≡◌, refl, ◌∙◌, Bool, true, false, not, ◌&&◌, List, [], ◌∷◌, ltb, leb, ◌==◌,
  if◌then◌else◌,
}
use cpp_sockets_library.Handler.{
  Env, SocketHandler, socket, change, set_fds, valid, get_count, close, Connect, bad_address,
  no_socket, no_nonblocking, done, pending, refused, open_tcp, Callback, on_delete, on_connect,
  on_reconnect, on_ssl_connect, on_disconnect, on_write, calls, delete_socket,
}
use cpp_sockets_library.Handler.Select.{
  for_each, owns, delete_object, call_on_connect, timeout, retry, is_graceful, close_and_delete,
  reopen, close_step, drop_all,
}
use cpp_sockets_library.Handler.Select.Maps.{delete_socket-Same}

-- The map of sockets and its limit are as they were.
abbrev pub Keeps : SocketHandler → SocketHandler → Type 0
Keeps h h' = (h'.sockets ≡ h.sockets) × (h'.max_count ≡ h.max_count)

pub Keeps-trans : (h h1 h2 : SocketHandler) → Keeps h h1 → Keeps h1 h2 → Keeps h h2
Keeps-trans h h1 h2 v w = (w.0 ∙ v.0, w.1 ∙ v.1)

pub if-Keeps :
    (b : Bool) (h x y : SocketHandler) → Keeps h x → Keeps h y → Keeps h (if b then x else y)
if-Keeps true h x y v w = v
if-Keeps false h x y v w = w

pub for_each-Keeps :
    (f : ℕ → SocketHandler → SocketHandler) (ps : List ℕ) (h : SocketHandler)
    → ((p : ℕ) (h : SocketHandler) → Keeps h (f p h))
    → Keeps h (for_each f ps h)
unfolding for_each
for_each-Keeps f [] h k = (refl, refl)
for_each-Keeps f (p ∷ ps) h k =
    Keeps-trans h (f p h) (for_each f ps (f p h)) (k p h) (for_each-Keeps f ps (f p h) k)

open_tcp-Keeps : (now p : ℕ) (c : Connect) (h : SocketHandler) → Keeps h (open_tcp now p c h)
unfolding open_tcp
open_tcp-Keeps now p bad_address h = (refl, refl)
open_tcp-Keeps now p no_socket h =
    if-Keeps (leb h.max_count (get_count h)) h _ _ (refl, refl) (refl, refl)
open_tcp-Keeps now p no_nonblocking h =
    if-Keeps (leb h.max_count (get_count h)) h _ _ (refl, refl) (refl, refl)
open_tcp-Keeps now p (done s) h =
    if-Keeps (leb h.max_count (get_count h)) h _ _ (refl, refl) (refl, refl)
open_tcp-Keeps now p (pending s) h =
    if-Keeps (leb h.max_count (get_count h)) h _ _ (refl, refl) (refl, refl)
open_tcp-Keeps now p (refused s) h =
    if-Keeps (leb h.max_count (get_count h)) h _ _ (refl, refl) (refl, refl)

module _ (on : Callback → ℕ → Env → Env) where
  pub delete_socket-Keeps : (p : ℕ) (h : SocketHandler) → Keeps h (delete_socket on p h)
  delete_socket-Keeps p h = let s = delete_socket-Same on p h in (s.map, s.limit)

  pub call_on_connect-Keeps : (p : ℕ) (h : SocketHandler) → Keeps h (call_on_connect on p h)
  unfolding call_on_connect
  call_on_connect-Keeps p h =
      let h1 = change p (λ s. record s { connected = true }) h in
      let b = (socket h1 p).tcp && not ((socket h1 p).output_length == 0) in
      let written = if b then calls on on_write p h1 else h1 in
      let w : Keeps h written = if-Keeps b h _ _ (refl, refl) (refl, refl) in
      if-Keeps (valid p h && (socket h p).call_on_connect) h _ _
        (if-Keeps (socket h1 p).ssl h (calls on on_ssl_connect p h1) _ (refl, refl)
          (if-Keeps ((socket written p).tcp && (socket written p).is_reconnect) h
            (calls on on_reconnect p written) (calls on on_connect p written) w w))
        (refl, refl)

  pub timeout-Keeps : (now p : ℕ) (h : SocketHandler) → Keeps h (timeout on now p h)
  unfolding timeout
  timeout-Keeps now p h =
      let s = socket h p in
      if-Keeps (valid p h && ltb 0 s.timeout_start && ltb 0 s.timeout_limit) h _ _
        (if-Keeps (ltb (s.timeout_start + s.timeout_limit) now) h _ h
          (if-Keeps (s.stream && s.connecting) h _ _ (refl, refl) (refl, refl)) (refl, refl))
        (refl, refl)

  pub retry-Keeps :
      (now : ℕ) (answer : ℕ → Connect) (p : ℕ) (h : SocketHandler)
      → Keeps h (retry on now answer p h)
  unfolding retry
  retry-Keeps now answer p h =
      let h1 = change p (λ s. record s { retry = false }) h in
      let h2 = record h1 { env = close p h1.env } in
      if-Keeps (valid p h && (socket h p).retry) h _ _
        (if-Keeps (socket h2 p).has_address h _ _ (open_tcp-Keeps now p (answer p) h2) (refl, refl))
        (refl, refl)

  close_and_delete-Keeps : (p : ℕ) (h : SocketHandler) → Keeps h (close_and_delete on p h)
  unfolding close_and_delete
  close_and_delete-Keeps p h =
      delete_socket-Keeps p (record h { env = close p (set_fds p false false h.env) })

  reopen-Keeps : (now : ℕ) (c : Connect) (p : ℕ) (h : SocketHandler) → Keeps h (reopen on now c p h)
  unfolding reopen
  reopen-Keeps now c p h =
      let h1 =
        change p (λ s. record s { closing = false; is_reconnect = true; connected = false }) h in
      let h2 = calls on on_disconnect p (record h1 { env = close p h1.env }) in
      if-Keeps (socket h2 p).has_address h _ (record h2 { fault = true })
        (open_tcp-Keeps now p c h2) (refl, refl)

  pub close_step-Keeps :
      (now : ℕ) (answer : ℕ → Connect) (p : ℕ) (h : SocketHandler)
      → Keeps h (close_step on now answer p h)
  unfolding close_step
  close_step-Keeps now answer p h =
      let s = socket h p in
      if-Keeps (valid p h && s.closing) h _ _
        (if-Keeps (s.lost && not (s.tcp && s.reconnect)) h _ _ (delete_socket-Keeps p h) (
          if-Keeps (is_graceful on now s) h _ _
            (if-Keeps (not (s.output_length == 0)) h _ _ (refl, refl)
              (if-Keeps (not s.shutdown_wr) h _ _ (refl, refl) (close_and_delete-Keeps p h)))
            (if-Keeps (s.tcp && s.connected && s.reconnect) h _ _ (reopen-Keeps now (answer p) p h)
              (close_and_delete-Keeps p h))))
        (refl, refl)

  pub drop_all-Keeps : (ps : List ℕ) (h : SocketHandler) → Keeps h (drop_all on ps h)
  unfolding drop_all delete_object
  drop_all-Keeps [] h = (refl, refl)
  drop_all-Keeps (p ∷ ps) h =
      let h1 = calls on on_delete p h in
      let b = (socket h1 p).delete_by_handler && owns h1 p in
      let h2 = if b then delete_object p (change p (λ s. record s { erased = true }) h1) else h1 in
      let k : Keeps h h2 = if-Keeps b h _ _ (refl, refl) (refl, refl) in
      Keeps-trans h h2 (drop_all on ps h2) k (drop_all-Keeps ps h2)
