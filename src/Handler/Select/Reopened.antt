-- ===== src/Handler/Select/Reopened.antt =====
-- CheckRetry and CheckClose of src/SocketHandler.cpp: every Open has an address and a socket.
use cpp_sockets_library.Prelude.{
  ℕ, ◌≡◌, ◌≢◌, ap, ◌∙◌, Bool, true, false, not, ◌&&◌, ◌||◌, [], ◌∷◌, ◌++◌, ◌==◌, if◌then◌else◌,
  arith, Bool-cases, inl, inr,
}
use cpp_sockets_library.Handler.{
  Sock, Env, SocketHandler, socket, change, valid, close, Connect, no_socket, Callback,
  on_disconnect, calls,
}
use cpp_sockets_library.Handler.Select.{
  call_on_connect, check_call_on_connect, timeout, check_timeouts, retry, check_retries,
  is_graceful, close_and_delete, reopen, close_step, check_closes, check_detaches, checks,
}
use cpp_sockets_library.Handler.Select.Erase.{}
use cpp_sockets_library.Handler.Select.Uids.{}
use cpp_sockets_library.Handler.Select.Failed.{Kept, update-mem, close-kept}
use cpp_sockets_library.Handler.Select.Incoming.{}
use cpp_sockets_library.Handler.Select.Sound.{
  addressed, Addressed, Sound, if-Sound, update-Addressed, close-Addressed, open_tcp-Sound,
  for_each-Sound, if-true,
}
use cpp_sockets_library.Handler.Select.Faultless.{
  close_and_delete-Sound, delete_socket-Sound, call_on_connect-Sound, timeout-Sound,
  check_detaches-Sound,
}

-- The virtual functions leave no socket that connects again without an address, and take no address
-- away, and no answer of the system is that there is no socket.
module _ (on : Callback → ℕ → Env → Env)
    (polite : (c : Callback) (p : ℕ) (e : Env) → Addressed e → Addressed (on c p e))
    (holds : (c : Callback) (p : ℕ) (e : Env) (q : ℕ)
      → (e.mem q).has_address ≡ true
      → ((on c p e).mem q).has_address ≡ true)
    (now : ℕ) (answer : ℕ → Connect) (sockets : (p : ℕ) → answer p ≢ no_socket) where
  has_one : (s : Sock) → addressed s ≡ true → (s.retry || s.reconnect) ≡ true → s.has_address ≡ true
  unfolding addressed
  has_one s a r = ground arith

  retry-Sound : (p : ℕ) (h : SocketHandler) → Sound h → Sound (retry on now answer p h)
  unfolding retry addressed
  retry-Sound p h v = elim (Bool-cases (valid p h && (socket h p).retry)) [
    | inr b ↦ rw b v
    | inl b ↦
        let h1 = change p (λ s. record s { retry = false }) h in
        let h2 = record h1 { env = close p h1.env } in
        let asks : ((socket h p).retry || (socket h p).reconnect) ≡ true = ground arith in
        let before : (socket h p).has_address ≡ true = has_one (socket h p) (v.0 p) asks in
        let known : (socket h2 p).has_address ≡ true =
          ap (λ (k : Kept). k.4) (close-kept p h1.env).0
          ∙ ap (λ (s : Sock). s.has_address) (update-mem p (λ s. record s { retry = false }) h.env)
          ∙ before in
        let v2 : Sound h2 = (
          close-Addressed p h1.env (
              update-Addressed p (λ s. record s { retry = false }) h.env (λ s k. ground arith) v.0),
          v.1,
        ) in
        let opened = open_tcp-Sound now p (answer p) h2 (sockets p) v2 in
        rw b (
          if-true (socket h2 p).has_address
            (λ x. Sound (record x {
              env = record x.env { add = x.env.add ++ p ∷ []; check_retry = true };
              fds_erase = x.fds_erase ++ (socket x p).uid ∷ [];
            }))
            _ _ known opened)
  ]

  reopen-Sound :
      (p : ℕ) (h : SocketHandler)
      → (socket h p).reconnect ≡ true
      → Sound h
      → Sound (reopen on now (answer p) p h)
  unfolding reopen addressed
  reopen-Sound p h r v =
      let f : Sock → Sock =
        λ s. record s { closing = false; is_reconnect = true; connected = false } in
      let h1 = change p f h in
      let h2 = calls on on_disconnect p (record h1 { env = close p h1.env }) in
      let asks : ((socket h p).retry || (socket h p).reconnect) ≡ true = ground arith in
      let before : (socket h p).has_address ≡ true = has_one (socket h p) (v.0 p) asks in
      let closed : ((close p h1.env).mem p).has_address ≡ true =
        ap (λ (k : Kept). k.4) (close-kept p h1.env).0
        ∙ ap (λ (s : Sock). s.has_address) (update-mem p f h.env)
        ∙ before in
      let known : (socket h2 p).has_address ≡ true =
        holds on_disconnect p (close p h1.env) p closed in
      let v2 : Sound h2 = (
        polite on_disconnect p (close p h1.env)
            (close-Addressed p h1.env (update-Addressed p f h.env (λ s k. k) v.0)),
        v.1,
      ) in
      if-true (socket h2 p).has_address
        (λ x. Sound (record x {
          env = record x.env { add = x.env.add ++ p ∷ [] };
          fds_erase = x.fds_erase ++ (socket x p).uid ∷ [];
        }))
        _ _ known (open_tcp-Sound now p (answer p) h2 (sockets p) v2)

  close_step-Sound : (p : ℕ) (h : SocketHandler) → Sound h → Sound (close_step on now answer p h)
  unfolding close_step addressed
  close_step-Sound p h v =
      let s = socket h p in
      let reopened : Bool = s.tcp && s.connected && s.reconnect in
      let again : Sound
          (if reopened then reopen on now (answer p) p h else close_and_delete on p h) =
        elim (Bool-cases reopened) [
          | inl b ↦ rw b (reopen-Sound p h (ground arith) v)
          | inr b ↦ rw b ((close_and_delete-Sound on polite holds) p h v)
        ] in
      if-Sound (valid p h && s.closing) _ h
        (if-Sound (s.lost && not (s.tcp && s.reconnect)) _ _
          ((delete_socket-Sound on polite holds) p h v)
          (if-Sound (is_graceful on now s) _ _
            (if-Sound (not (s.output_length == 0)) h _ v (
              if-Sound (not s.shutdown_wr) _ _
                (
                  update-Addressed p (λ x. record x { shutdown_wr = true }) h.env (λ s k. k) v.0,
                  v.1,
                )
                ((close_and_delete-Sound on polite holds) p h v)))
            again))
        v

  -- The checks of Select run without a fault.
  pub checks-Sound : (h : SocketHandler) → Sound h → Sound (checks on now answer h)
  unfolding checks check_call_on_connect check_timeouts check_retries check_closes
  checks-Sound h v =
      let h1 = if h.env.check_callonconnect then check_call_on_connect on h else h in
      let h2 = if not h1.slave && h1.env.check_detach then check_detaches on h1 else h1 in
      let h3 =
        if h2.env.check_timeout && not (now == h2.tlast)
        then record (check_timeouts on now h2) { tlast = now }
        else h2 in
      let h4 = if h3.env.check_retry then check_retries on now answer h3 else h3 in
      let v1 : Sound h1 =
        if-Sound _ _ h
          (for_each-Sound (call_on_connect on) _ _ (call_on_connect-Sound on polite holds) v) v in
      let v2 : Sound h2 = if-Sound _ _ h1 ((check_detaches-Sound on polite holds) h1 v1) v1 in
      let v3 : Sound h3 =
        if-Sound _ _ h2
          (for_each-Sound (timeout on now) _ _ ((timeout-Sound on polite holds) now) v2) v2 in
      let v4 : Sound h4 =
        if-Sound _ _ h3 (for_each-Sound (retry on now answer) _ _ retry-Sound v3) v3 in
      if-Sound h4.env.check_close _ h4
        (for_each-Sound (close_step on now answer) _ _ close_step-Sound v4) v4
