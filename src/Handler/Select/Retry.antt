-- ===== src/Handler/Select/Retry.antt =====
-- CheckRetry, CheckClose and CheckErasedSockets of src/SocketHandler.cpp, for a client whose second
-- connect fails at once.
use cpp_sockets_library.Prelude.{
  ℕ, ◌+◌, ◌≡◌, refl, sym, ap, subst, ◌∙◌, true, false, none, some, List, [], ◌∷◌, ◌++◌, Bool-cases,
  inl, inr,
}
use cpp_sockets_library.Handler.{
  Sock, Env, SocketHandler, socket, update, valid, Connect, refused, open_tcp, Callback, on_delete,
}
use cpp_sockets_library.Handler.Select.{
  pointers, for_each, take_uid, owns, delete_object, erase_all, max_fd, check_erased, retry,
  check_retries, close_step, check_closes,
}
use cpp_sockets_library.Handler.Select.Erase.{
  erase_taken, erase_one, erase_one-erase_taken, erase_taken-some, erase_taken-none,
  erase_all-erase_one,
}
use cpp_sockets_library.Handler.Select.Maps.{close-add}
use cpp_sockets_library.Handler.Select.Failed.{
  Kept, kept, same, update-mem, valid_alone, open_tcp-Closes, IsRetrying, given_back,
  given_back-map, given_back-kept,
}
use cpp_sockets_library.Handler.Select.Marked.{close_and_delete-Marked, close_step-closes}

module _ (on : Callback → ℕ → Env → Env) where
  retry-opens :
      (now p : ℕ) (answer : ℕ → Connect) (h : SocketHandler)
      → valid p h ≡ true
      → (socket h p).retry ≡ true
      → (socket h p).has_address ≡ true
      → retry on now answer p h ≡ (
          let h3 = open_tcp now p (answer p) (given_back p h) in
          record h3 {
            env = record h3.env { add = h3.env.add ++ p ∷ []; check_retry = true };
            fds_erase = h3.fds_erase ++ (socket h3 p).uid ∷ [];
          })
  unfolding retry given_back
  retry-opens now p answer h v r a =
      let known : (socket (given_back p h) p).has_address ≡ true =
        ap (λ (k : Kept). k.4) (given_back-kept p h) ∙ a in
      rw (v, r, known) refl

  -- What CheckRetry leaves, where the connect fails at once.
  record Queued (s p : ℕ) (h h' : SocketHandler) : Type 0 where
    keeps : kept (socket h' p) ≡ kept (socket h p)
    closing : (socket h' p).closing ≡ true
    map : h'.sockets ≡ (s, p) ∷ []
    waiting : h'.env.add ≡ h.env.add ++ p ∷ []
    erases : h'.fds_erase ≡ (socket h p).uid ∷ []
    owner : h'.slave ≡ h.slave

  given_back-add : (p : ℕ) (h : SocketHandler) → (given_back p h).env.add ≡ h.env.add
  unfolding given_back
  given_back-add p h =
      close-add p (update p (λ s. record s { retry = false }) h.env) ∙ unfold update in refl

  retry-Queued :
      (s p now k : ℕ) (answer : ℕ → Connect) (h : SocketHandler)
      → answer p ≡ refused k
      → IsRetrying s p h
      → Queued s p h (retry on now answer p h)
  retry-Queued s p now k answer h a v =
      let (lost, connected, reconnect, address) = v.held in
      let h1 = given_back p h in
      let k1 = given_back-kept p h in
      let (sockets, erase, slave) = given_back-map p h in
      let c = open_tcp-Closes now p k h1 (ap (λ (k : Kept). k.3) k1 ∙ reconnect) in
      subst (Queued s p h)
        (sym (retry-opens now p answer h (valid_alone s p h v.alone) v.retries address))
        (rw a (record {
          keeps = c.keeps ∙ k1;
          closing = c.closing;
          map = c.map ∙ sockets ∙ v.alone;
          waiting = ap (λ l. l ++ p ∷ []) (c.waiting ∙ given_back-add p h);
          erases =
              ap (λ l. l ++ (socket (open_tcp now p (refused k) h1) p).uid ∷ [])
                (c.erases ∙ erase ∙ v.none_erased)
              ∙ ap (λ (k : Kept). k.0 ∷ []) (c.keeps ∙ k1);
          owner = c.owner ∙ slave;
        }))

  -- One socket in the map: a loop is one step.
  for_alone :
      (f : ℕ → SocketHandler → SocketHandler) (s p : ℕ) (xs : List (ℕ × ℕ)) (h : SocketHandler)
      → xs ≡ (s, p) ∷ []
      → for_each f (pointers xs) h ≡ f p h
  unfolding for_each pointers
  for_alone f s p xs h e = ap (λ l. for_each f (pointers l) h) e

  -- After CheckClose: the uid is queued twice.
  record Doomed (s p : ℕ) (h h' : SocketHandler) : Type 0 where
    object :
        ((socket h' p).uid ≡ (socket h p).uid)
        × ((socket h' p).detached ≡ h'.slave)
        × ((socket h' p).deleted ≡ (socket h p).deleted)
    marked : (socket h' p).erased ≡ true
    map : h'.sockets ≡ (s, p) ∷ []
    waiting : h'.env.add ≡ h.env.add ++ p ∷ []
    erases : h'.fds_erase ≡ (socket h p).uid ∷ (socket h p).uid ∷ []

  close_step-Doomed :
      (s p now : ℕ) (answer : ℕ → Connect) (h h1 : SocketHandler)
      → ((e : Env) → on on_delete p e ≡ e)
      → IsRetrying s p h
      → Queued s p h h1
      → Doomed s p h (close_step on now answer p h1)
  close_step-Doomed s p now answer h h1 q v k =
      let (lost, connected, reconnect, address) = v.held in
      let (owned, erased, detached) = v.owned in
      let m =
        close_and_delete-Marked on p h1 q (ap (λ (k : Kept). k.5) k.keeps ∙ owned)
          (ap (λ (k : Kept). k.6) k.keeps ∙ erased) in
      let uid : (socket h1 p).uid ≡ (socket h p).uid = ap (λ (k : Kept). k.0) k.keeps in
      subst (Doomed s p h)
        (sym (
          close_step-closes on now p answer h1 (valid_alone s p h1 k.map) k.closing
            (ap (λ (k : Kept). k.1) k.keeps ∙ lost) (ap (λ (k : Kept). k.2) k.keeps ∙ connected)))
        (record {
          object = (
            m.object.0 ∙ uid,
            m.object.1 ∙ ap (λ (k : Kept). k.7) k.keeps ∙ detached ∙ sym (m.owner ∙ k.owner),
            m.object.2 ∙ ap (λ (k : Kept). k.8) k.keeps,
          );
          marked = m.marked;
          map = m.map ∙ k.map;
          waiting = m.waiting ∙ k.waiting;
          erases =
              m.erases
              ∙ ap (λ l. l ++ (socket h1 p).uid ∷ []) k.erases
              ∙ ap (λ u. (socket h p).uid ∷ u ∷ []) uid;
        })

  owns_own : (p : ℕ) (h : SocketHandler) → (socket h p).detached ≡ h.slave → owns h p ≡ true
  unfolding owns
  owns_own p h e = elim (Bool-cases h.slave) [ inl a ↦ rw (e, a) refl | inr a ↦ rw (e, a) refl ]

  taken_alone :
      (s p u : ℕ) (mem : ℕ → Sock) → (mem p).uid ≡ u → take_uid mem u ((s, p) ∷ []) ≡ some (p, [])
  unfolding take_uid
  taken_alone s p u mem i = rw (i, same u) refl

  taken_none : (u : ℕ) (mem : ℕ → Sock) → take_uid mem u [] ≡ none
  unfolding take_uid
  taken_none u mem = refl

  -- The loop of CheckErasedSockets for the same uid twice.
  erase_all-twice :
      (s p u : ℕ) (h : SocketHandler)
      → (socket h p).uid ≡ u
      → (socket h p).erased ≡ true
      → (socket h p).detached ≡ h.slave
      → h.sockets ≡ (s, p) ∷ []
      → erase_all (u ∷ u ∷ []) h ≡ record (delete_object p h) { sockets = [] }
  unfolding erase_all delete_object
  erase_all-twice s p u h i m d e =
      let h1 = record (delete_object p h) { sockets = [] } in
      let first : erase_one u h ≡ h1 =
        erase_one-erase_taken u h
        ∙ ap (erase_taken h) (ap (take_uid h.env.mem u) e ∙ taken_alone s p u h.env.mem i)
        ∙ erase_taken-some p h m (owns_own p h d) in
      let second : erase_one u h1 ≡ h1 =
        erase_one-erase_taken u h1
        ∙ ap (erase_taken h1) (taken_none u h1.env.mem)
        ∙ erase_taken-none h1 in
      erase_all-erase_one u (u ∷ []) h
      ∙ ap (erase_all (u ∷ [])) first
      ∙ erase_all-erase_one u [] h1
      ∙ ap (erase_all []) second

  Deletes : ℕ → SocketHandler → SocketHandler → Type 0
  Deletes p h h' =
      ((socket h' p).deleted ≡ (socket h p).deleted + 1)
      × (h'.env.add ≡ h.env.add ++ p ∷ [])
      × (h'.sockets ≡ [])

  check_erased-queued :
      (u : ℕ) (us : List ℕ) (h : SocketHandler)
      → h.fds_erase ≡ u ∷ us
      → check_erased h ≡ (
          let h1 = erase_all (u ∷ us) (record h { fds_erase = [] }) in
          record h1 { maxsock = max_fd 0 h1.sockets })
  unfolding check_erased
  check_erased-queued u us h e =
      ap
        (λ (l : List ℕ). elim l [
          | [] ↦ h
          | u ∷ us ↦
              let h1 = erase_all (u ∷ us) (record h { fds_erase = [] }) in
              record h1 { maxsock = max_fd 0 h1.sockets }
        ])
        e

  check_erased-Deletes :
      (s p : ℕ) (h h1 : SocketHandler) → Doomed s p h h1 → Deletes p h (check_erased h1)
  unfolding Deletes delete_object
  check_erased-Deletes s p h h1 d =
      let u = (socket h p).uid in
      let twice =
        erase_all-twice s p u (record h1 { fds_erase = [] }) d.object.0 d.marked d.object.1 d.map in
      rw (check_erased-queued u (u ∷ []) h1 d.erases, twice)
        (
          ap (λ (x : Sock). x.deleted)
                (update-mem p (λ x. record x { deleted = x.deleted + 1 }) h1.env)
              ∙ ap (λ n. n + 1) d.object.2,
          unfold update in d.waiting,
          refl,
        )

  -- A client socket, the only one of the map, that the handler owns and is to delete, and whose
  -- connect is tried again and refused at once (it is not lost, not connected, has no reconnect flag,
  -- and OnDelete does nothing) is deleted once CheckRetry, CheckClose and CheckErasedSockets have run,
  -- and has left the map, while m_add still holds it.
  pub check_erased-retry :
      (s p now k : ℕ) (answer : ℕ → Connect) (h : SocketHandler)
      → ((e : Env) → on on_delete p e ≡ e)
      → answer p ≡ refused k
      → IsRetrying s p h
      → let h' = check_erased (check_closes on now answer (check_retries on now answer h)) in
        ((socket h' p).deleted ≡ (socket h p).deleted + 1)
        × (h'.env.add ≡ h.env.add ++ p ∷ [])
        × (h'.sockets ≡ [])
  unfolding check_closes check_retries Deletes
  check_erased-retry s p now k answer h q a v =
      let h0 = record h { env = record h.env { check_retry = false } } in
      let v0 : IsRetrying s p h0 = record {
        alone = v.alone;
        none_erased = v.none_erased;
        retries = v.retries;
        held = v.held;
        owned = v.owned;
      } in
      let h1 = retry on now answer p h0 in
      let queued = retry-Queued s p now k answer h0 a v0 in
      let h2 = record h1 { env = record h1.env { check_close = false } } in
      let queued2 : Queued s p h0 h2 = record {
        keeps = queued.keeps;
        closing = queued.closing;
        map = queued.map;
        waiting = queued.waiting;
        erases = queued.erases;
        owner = queued.owner;
      } in
      rw
        (
          for_alone (retry on now answer) s p h.sockets h0 v.alone,
          for_alone (close_step on now answer) s p h1.sockets h2 queued.map,
        )
        (check_erased-Deletes s p h0 (close_step on now answer p h2)
          (close_step-Doomed s p now answer h0 h2 q v0 queued2))
