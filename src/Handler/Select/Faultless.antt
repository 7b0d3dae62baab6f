-- ===== src/Handler/Select/Faultless.antt =====
-- Select of src/SocketHandler.cpp: its steps run without a fault.
use cpp_sockets_library.Prelude.{
  ℕ, zero, suc, ◌+◌, ◌≡◌, ap, subst, Bool, true, false, not, ◌&&◌, ◌||◌, Option, none, some, List,
  [], ◌∷◌, ltb, leb, ◌==◌, if◌then◌else◌, length, drop, Bool-cases, Option-cases, inl, inr,
}
use cpp_sockets_library.Handler.{
  FdSet, Env, SocketHandler, socket, change, set_fds, valid, close, Callback, on_delete, on_connect,
  on_reconnect, on_ssl_connect, on_write, on_exception, on_timeout, on_connect_timeout,
  detach_socket, find, put, calls, delete_socket, enter, incoming,
}
use cpp_sockets_library.Handler.Select.{
  call_on_connect, timeout, close_and_delete, take_detach, any_detach, check_detaches, keeps_fd,
  rebuild, dispatch, Answer, ready, none_ready, passed_over, invalid, bad_fd, system_select,
  add_incoming,
}
use cpp_sockets_library.Handler.Select.Erase.{}
use cpp_sockets_library.Handler.Select.Uids.{Entries}
use cpp_sockets_library.Handler.Select.Failed.{}
use cpp_sockets_library.Handler.Select.Incoming.{}
use cpp_sockets_library.Handler.Select.Sound.{
  addressed, Addressed, Sound, if-Sound, if-Addressed, update-Addressed, set_fds-Addressed,
  close-Addressed,
}

-- The virtual functions leave no socket that connects again without an address, and take no address
-- away.
module _ (on : Callback → ℕ → Env → Env)
    (polite : (c : Callback) (p : ℕ) (e : Env) → Addressed e → Addressed (on c p e))
    (holds : (c : Callback) (p : ℕ) (e : Env) (q : ℕ)
      → (e.mem q).has_address ≡ true
      → ((on c p e).mem q).has_address ≡ true) where
  pub delete_socket-Sound : (p : ℕ) (h : SocketHandler) → Sound h → Sound (delete_socket on p h)
  unfolding delete_socket addressed
  delete_socket-Sound p h (a, f) =
      let h1 = calls on on_delete p h in
      let s = socket h1 p in
      let a1 = polite on_delete p h.env a in
      if-Sound (s.delete_by_handler && not s.erased) (change p (λ x. record x { erased = true }) h1)
        h1 (update-Addressed p (λ x. record x { erased = true }) h1.env (λ x k. k) a1, f) (a1, f)

  enter-Sound : (s p : ℕ) (h : SocketHandler) → Sound h → Sound (enter on s p h)
  unfolding enter
  enter-Sound s p h v =
      let put_in = record h { sockets = put s p h.sockets } in
      let dropped = delete_socket-Sound p put_in v in
      if-Sound (socket h p).closing _ _ (close-Addressed p _ dropped.0, dropped.1)
        (
          if-Addressed ((socket h p).stream && (socket h p).connecting) _ _
              (set_fds-Addressed p false true _ v.0) (set_fds-Addressed p _ _ _ v.0),
          v.1,
        )

  incoming-Sound : (p : ℕ) (h : SocketHandler) → Sound h → Sound (incoming on p h)
  unfolding incoming
  incoming-Sound p h v = elim (Option-cases (socket h p).fd) [
    | inl a ↦ rw (incoming, a) v
    | inr (s, a) ↦ elim (Option-cases (find s h.sockets)) [
      | inl b ↦ rw (incoming, a, b) (enter-Sound s p h v)
      | inr (q, b) ↦
          rw (incoming, a, b)
            (if-Sound (ltb (socket h q).uid (socket h p).uid) _ _
              (enter-Sound s p (delete_socket on q h) (delete_socket-Sound q h v))
              (if-Sound ((socket h p).uid == (socket h q).uid && p == q) _ _ v v))
    ]
  ]

  the_same : (h h' : SocketHandler) → some h ≡ some h' → Sound h → Sound h'
  the_same h h' e v =
      subst Sound (ap (λ (o : Option SocketHandler). elim o [ none ↦ h | some x ↦ x ]) e) v

  pub add_incoming-Sound :
      (fuel : ℕ) (h h' : SocketHandler) → Sound h → add_incoming on fuel h ≡ some h' → Sound h'
  unfolding add_incoming
  add_incoming-Sound zero h h' v e = cc
  add_incoming-Sound (suc fuel) h h' v e = by_list h.env.add (λ x. add_incoming-Sound fuel x h') e
    where
      by_list :
          (l : List ℕ)
          → ((x : SocketHandler) → Sound x → add_incoming on fuel x ≡ some h' → Sound h')
          → elim l [
            | [] ↦ some h
            | p ∷ ps ↦
                let h1 = incoming on p h in
                let rest =
                  add_incoming on fuel
                    (record h1 { env = record h1.env { add = drop 1 h1.env.add } }) in
                if leb h.max_count (length h.sockets) then some h else rest
          ]
            ≡ some h'
          → Sound h'
      by_list [] later e = the_same h h' e v
      by_list (p ∷ ps) later e = elim (Bool-cases (leb h.max_count (length h.sockets))) [
        | inl full ↦ the_same h h' (rw full at e) v
        | inr room ↦ later _ (incoming-Sound p h v) (rw room at e)
      ]

  pub call_on_connect-Sound : (p : ℕ) (h : SocketHandler) → Sound h → Sound (call_on_connect on p h)
  unfolding call_on_connect addressed
  call_on_connect-Sound p h v =
      let h1 = change p (λ s. record s { connected = true }) h in
      let v1 : Sound h1 = (update-Addressed p _ h.env (λ s k. k) v.0, v.1) in
      let b = (socket h1 p).tcp && not ((socket h1 p).output_length == 0) in
      let written = if b then calls on on_write p h1 else h1 in
      let w : Sound written = if-Sound b _ _ (polite on_write p h1.env v1.0, v.1) v1 in
      let c = (socket written p).tcp && (socket written p).is_reconnect in
      let told =
        if (socket h1 p).ssl
        then calls on on_ssl_connect p h1
        else if c
        then calls on on_reconnect p written
        else calls on on_connect p written in
      let t : Sound told =
        if-Sound (socket h1 p).ssl (calls on on_ssl_connect p h1) _
          (polite on_ssl_connect p h1.env v1.0, v.1)
          (if-Sound c (calls on on_reconnect p written) (calls on on_connect p written)
            (polite on_reconnect p written.env w.0, w.1)
            (polite on_connect p written.env w.0, w.1)) in
      if-Sound (valid p h && (socket h p).call_on_connect) _ h
        (update-Addressed p _ told.env (λ s k. k) t.0, t.1) v

  pub timeout-Sound : (now p : ℕ) (h : SocketHandler) → Sound h → Sound (timeout on now p h)
  unfolding timeout addressed
  timeout-Sound now p h v =
      let s = socket h p in
      let stopped = change p (λ x. record x { timeout_start = 0; timeout_limit = 0 }) h in
      let a : Addressed stopped.env = update-Addressed p _ h.env (λ s k. k) v.0 in
      let told = calls on on_connect_timeout p stopped in
      let b = polite on_connect_timeout p stopped.env a in
      if-Sound (valid p h && ltb 0 s.timeout_start && ltb 0 s.timeout_limit) _ h
        (if-Sound (ltb (s.timeout_start + s.timeout_limit) now) _ h
          (if-Sound (s.stream && s.connecting) _ (calls on on_timeout p stopped)
            (update-Addressed p _ told.env (λ s k. k) b, v.1)
            (polite on_timeout p stopped.env a, v.1))
          v)
        v

  pub close_and_delete-Sound :
      (p : ℕ) (h : SocketHandler) → Sound h → Sound (close_and_delete on p h)
  unfolding close_and_delete
  close_and_delete-Sound p h v =
      delete_socket-Sound p (record h { env = close p (set_fds p false false h.env) })
        (close-Addressed p _ (set_fds-Addressed p false false h.env v.0), v.1)

  pub check_detaches-Sound : (h : SocketHandler) → Sound h → Sound (check_detaches on h)
  unfolding check_detaches
  check_detaches-Sound h v = by_result (take_detach on h.env.mem h.sockets)
    where
      by_result :
          (r : Option (ℕ × Entries))
          → Sound (elim r [
            | none ↦ record h {
              env = record h.env { check_detach = any_detach on h.env.mem h.env.add };
            }
            | some r ↦
                let h1 =
                  calls on detach_socket r.0
                    (record h { env = set_fds r.0 false false h.env; sockets = r.1 }) in
                record h1 { env = record h1.env { check_detach = true } }
          ])
      by_result none = v
      by_result (some (p, ys)) =
          (polite detach_socket p _ (set_fds-Addressed p false false h.env v.0), v.1)

  dispatch-Sound :
      (r w e : FdSet) (xs : Entries) (h : SocketHandler) → Sound h → Sound (dispatch on r w e xs h)
  unfolding dispatch
  dispatch-Sound r w e [] h v = v
  dispatch-Sound r w e (x ∷ xs) h v =
      let one : (b : Bool) (c : Callback) (h : SocketHandler)
          → Sound h
          → Sound (if b then calls on c x.1 h else h) =
        λ b c h v. if-Sound b _ h (polite c x.1 h.env v.0, v.1) v in
      dispatch-Sound r w e xs _ (one (e x.0) on_exception _ (one (w x.0) _ _ (one (r x.0) _ h v)))

  rebuild-Sound :
      (bad : ℕ → Bool) (xs : Entries) (r w e : FdSet) (h : SocketHandler)
      → Sound h
      → Sound (rebuild on bad xs r w e h)
  unfolding rebuild
  rebuild-Sound bad [] r w e h v = v
  rebuild-Sound bad (x ∷ xs) r w e h v =
      let b = not (keeps_fd on x.0 (socket h x.1)) || (bad x.0 && valid x.1 h) in
      rebuild-Sound bad xs _ _ _ (if b then delete_socket on x.1 h else h)
        (if-Sound b _ h (delete_socket-Sound x.1 h v) v)

  pub system_select-Sound :
      (got : Answer) (h h' : SocketHandler) → Sound h → system_select on got h ≡ some h' → Sound h'
  unfolding system_select
  system_select-Sound (ready r w e) h h' v q = the_same _ h' q (dispatch-Sound r w e h.sockets h v)
  system_select-Sound none_ready h h' v q = the_same h h' q v
  system_select-Sound passed_over h h' v q = the_same h h' q v
  system_select-Sound invalid h h' v q = cc
  system_select-Sound (bad_fd bad) h h' v q =
      the_same _ h' q (rebuild-Sound bad h.sockets _ _ _ h v)
