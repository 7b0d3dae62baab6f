-- ===== src/Handler/Select/Marked.antt =====
-- DeleteSocket and CheckClose of src/SocketHandler.cpp, for a socket that is closed at once.
use cpp_sockets_library.Prelude.{
  ℕ, ◌≡◌, refl, sym, ap, subst, ◌∙◌, true, false, [], ◌∷◌, ◌++◌, arith, Bool-cases, inl, inr,
}
use cpp_sockets_library.Handler.{
  Sock, Env, SocketHandler, socket, change, update, set_fds, valid, close, Connect, Callback,
  on_delete, delete_socket,
}
use cpp_sockets_library.Handler.Select.{is_graceful, close_and_delete, close_step}
use cpp_sockets_library.Handler.Select.Erase.{}
use cpp_sockets_library.Handler.Select.Maps.{set_fds-add, close-add}
use cpp_sockets_library.Handler.Select.Failed.{Kept, kept, update-mem, set_fds-mem, close-kept}

module _ (on : Callback → ℕ → Env → Env) where
  -- A socket that the handler has marked, with its uid queued.
  pub record Marked (p : ℕ) (h h' : SocketHandler) : Type 0 where
    pub object :
        ((socket h' p).uid ≡ (socket h p).uid)
        × ((socket h' p).detached ≡ (socket h p).detached)
        × ((socket h' p).deleted ≡ (socket h p).deleted)
    pub marked : (socket h' p).erased ≡ true
    pub map : h'.sockets ≡ h.sockets
    pub waiting : h'.env.add ≡ h.env.add
    pub erases : h'.fds_erase ≡ h.fds_erase ++ (socket h p).uid ∷ []
    pub owner : h'.slave ≡ h.slave

  abbrev pub mark : Sock → Sock
  mark x = record x { erased = true }

  pub marked_handler : ℕ → SocketHandler → SocketHandler
  marked_handler p h =
      let h1 = change p mark h in record h1 { fds_erase = h1.fds_erase ++ (socket h1 p).uid ∷ [] }

  pub delete_socket-marks :
      (p : ℕ) (h : SocketHandler)
      → on on_delete p h.env ≡ h.env
      → (socket h p).delete_by_handler ≡ true
      → (socket h p).erased ≡ false
      → delete_socket on p h ≡ marked_handler p h
  unfolding delete_socket marked_handler
  delete_socket-marks p h q d e = rw (delete_socket, q, d, e) refl

  pub marked_handler-Marked : (p : ℕ) (h : SocketHandler) → Marked p h (marked_handler p h)
  unfolding marked_handler
  marked_handler-Marked p h =
      let m = update-mem p mark h.env in
      record {
        object = (
          ap (λ (s : Sock). s.uid) m,
          ap (λ (s : Sock). s.detached) m,
          ap (λ (s : Sock). s.deleted) m,
        );
        marked = ap (λ (s : Sock). s.erased) m;
        map = refl;
        waiting = unfold update in refl;
        erases = ap (λ (s : Sock). h.fds_erase ++ s.uid ∷ []) m;
        owner = refl;
      }

  pub delete_socket-Marked :
      (p : ℕ) (h : SocketHandler)
      → on on_delete p h.env ≡ h.env
      → (socket h p).delete_by_handler ≡ true
      → (socket h p).erased ≡ false
      → Marked p h (delete_socket on p h)
  delete_socket-Marked p h q d e =
      subst (Marked p h) (sym (delete_socket-marks p h q d e)) (marked_handler-Marked p h)

  pub close_and_delete-Marked :
      (p : ℕ) (h : SocketHandler)
      → ((e : Env) → on on_delete p e ≡ e)
      → (socket h p).delete_by_handler ≡ true
      → (socket h p).erased ≡ false
      → Marked p h (close_and_delete on p h)
  unfolding close_and_delete
  close_and_delete-Marked p h q d e =
      let e1 = set_fds p false false h.env in
      let k : kept ((close p e1).mem p) ≡ kept (h.env.mem p) =
        (close-kept p e1).0 ∙ ap (λ (m : ℕ → Sock). kept (m p)) (set_fds-mem p false false h.env) in
      let m =
        delete_socket-Marked p (record h { env = close p e1 }) (q (close p e1))
          (ap (λ (k : Kept). k.5) k ∙ d) (ap (λ (k : Kept). k.6) k ∙ e) in
      record {
        object = (
          m.object.0 ∙ ap (λ (k : Kept). k.0) k,
          m.object.1 ∙ ap (λ (k : Kept). k.7) k,
          m.object.2 ∙ ap (λ (k : Kept). k.8) k,
        );
        marked = m.marked;
        map = m.map;
        waiting = m.waiting ∙ close-add p e1 ∙ set_fds-add p false false h.env;
        erases = m.erases ∙ ap (λ (k : Kept). h.fds_erase ++ k.0 ∷ []) k;
        owner = m.owner;
      }

  pub not_graceful : (now : ℕ) (s : Sock) → s.connected ≡ false → is_graceful on now s ≡ false
  unfolding is_graceful
  not_graceful now s c = ground arith

  pub close_step-closes :
      (now p : ℕ) (answer : ℕ → Connect) (h : SocketHandler)
      → valid p h ≡ true
      → (socket h p).closing ≡ true
      → (socket h p).lost ≡ false
      → (socket h p).connected ≡ false
      → close_step on now answer p h ≡ (
          let h1 = close_and_delete on p h in
          record h1 { env = record h1.env { check_close = true } })
  unfolding close_step
  close_step-closes now p answer h v c l n = elim (Bool-cases (socket h p).tcp) [
    | inl t ↦ rw (v, c, l, not_graceful now (socket h p) n, t, n) refl
    | inr t ↦ rw (v, c, l, not_graceful now (socket h p) n, t) refl
  ]
