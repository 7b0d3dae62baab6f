-- ===== src/Handler/Select/Failed.antt =====
-- Socket::Close and TcpSocket::Open: what a failed connect leaves.
use cpp_sockets_library.Prelude.{
  ℕ, ◌≡◌, refl, ap, ◌∙◌, Bool, true, false, none, [], ◌∷◌, leb, ◌==◌, arith, Bool-cases,
  Option-cases, inl, inr,
}
use cpp_sockets_library.Handler.{
  Sock, Env, SocketHandler, socket, change, update, set_close, set_fds, has_pointer, has_uid, valid,
  get_count, close, refused, set_connecting, open_tcp,
}
use cpp_sockets_library.Handler.Select.{}
use cpp_sockets_library.Handler.Select.Erase.{}
use cpp_sockets_library.Handler.Select.Maps.{}

-- What a failed connect leaves of a socket.
abbrev pub Kept : Type 0
Kept = ℕ × Bool × Bool × Bool × Bool × Bool × Bool × Bool × ℕ

abbrev pub kept : Sock → Kept
kept x = (
  x.uid, x.lost, x.connected, x.reconnect, x.has_address, x.delete_by_handler, x.erased, x.detached,
  x.deleted,
)

pub same : (p : ℕ) → (p == p) ≡ true
same p = ground arith

pub update-mem : (p : ℕ) (f : Sock → Sock) (e : Env) → (update p f e).mem p ≡ f (e.mem p)
unfolding update
update-mem p f e = rw (same p) refl

pub valid_alone : (s p : ℕ) (h : SocketHandler) → h.sockets ≡ (s, p) ∷ [] → valid p h ≡ true
unfolding valid has_pointer has_uid
valid_alone s p h e = rw (e, same p, same (socket h p).uid) refl

pub set_fds-mem : (p : ℕ) (r w : Bool) (e : Env) → (set_fds p r w e).mem ≡ e.mem
unfolding set_fds
set_fds-mem p r w e = elim (Option-cases (e.mem p).fd) [
  | inl h ↦ rw (set_fds, h) refl
  | inr (s, h) ↦ rw (set_fds, h) refl
]

-- Close changes the descriptor only.
pub close-kept :
    (p : ℕ) (e : Env)
    → (kept ((close p e).mem p) ≡ kept (e.mem p))
      × (((close p e).mem p).closing ≡ (e.mem p).closing)
unfolding close
close-kept p e = elim (Option-cases (e.mem p).fd) [
  | inl h ↦ rw (close, h) (refl, refl)
  | inr (s, h) ↦
      rw
        (
          close,
          h,
          update-mem p (λ x. record x { fd = none }) (set_fds p false false e),
          set_fds-mem p false false e,
        )
        (refl, refl)
]

pub set_close-kept :
    (now p : ℕ) (e : Env)
    → (kept ((set_close now p e).mem p) ≡ kept (e.mem p))
      × (((set_close now p e).mem p).closing ≡ true)
      × ((set_close now p e).add ≡ e.add)
unfolding set_close update
set_close-kept now p e = elim (Bool-cases (e.mem p).closing) [
  | inl h ↦ rw (set_close, h) (refl, h, refl)
  | inr h ↦ rw (set_close, h, same p) (refl, refl, refl)
]

-- What a step leaves of the handler, for one socket that then is closing.
pub record Closes (p : ℕ) (h h' : SocketHandler) : Type 0 where
  pub keeps : kept (socket h' p) ≡ kept (socket h p)
  pub closing : (socket h' p).closing ≡ true
  pub map : h'.sockets ≡ h.sockets
  pub waiting : h'.env.add ≡ h.env.add
  pub erases : h'.fds_erase ≡ h.fds_erase
  pub owner : h'.slave ≡ h.slave

pub set_close-Closes :
    (now p : ℕ) (h : SocketHandler) → Closes p h (record h { env = set_close now p h.env })
set_close-Closes now p h =
    let (k, c, a) = set_close-kept now p h.env in
    record { keeps = k; closing = c; map = refl; waiting = a; erases = refl; owner = refl }

set_connecting-kept :
    (now p : ℕ) (e : Env)
    → (kept ((set_connecting now false p e).mem p) ≡ kept (e.mem p))
      × ((set_connecting now false p e).add ≡ e.add)
unfolding set_connecting
set_connecting-kept now p e = elim (Bool-cases (e.mem p).connecting) [
  | inl h ↦
      let f : Sock → Sock =
        λ s. record s { connecting = false; timeout_start = 0; timeout_limit = 0 } in
      rw h (ap kept (update-mem p f e), unfold update in refl)
  | inr h ↦ rw h (refl, refl)
]

pub open_tcp-Closes :
    (now p k : ℕ) (h : SocketHandler)
    → (socket h p).reconnect ≡ false
    → Closes p h (open_tcp now p (refused k) h)
unfolding open_tcp
open_tcp-Closes now p k h r = elim (Bool-cases (leb h.max_count (get_count h))) [
  | inl a ↦ rw a (set_close-Closes now p h)
  | inr a ↦
      let h1 = record h { env = set_connecting now false p h.env } in
      let (same_fields, same_add) = set_connecting-kept now p h.env in
      let c = set_close-Closes now p h1 in
      rw (a, r)
        (record {
          keeps = c.keeps ∙ same_fields;
          closing = c.closing;
          map = refl;
          waiting = c.waiting ∙ same_add;
          erases = refl;
          owner = refl;
        })
]

-- The handler has one socket, a client that is to connect again, which the handler deletes.
pub record IsRetrying (s p : ℕ) (h : SocketHandler) : Type 0 where
  pub alone : h.sockets ≡ (s, p) ∷ []
  pub none_erased : h.fds_erase ≡ []
  pub retries : (socket h p).retry ≡ true
  pub held :
      ((socket h p).lost ≡ false)
      × ((socket h p).connected ≡ false)
      × ((socket h p).reconnect ≡ false)
      × ((socket h p).has_address ≡ true)
  pub owned :
      ((socket h p).delete_by_handler ≡ true)
      × ((socket h p).erased ≡ false)
      × ((socket h p).detached ≡ h.slave)

-- The socket as CheckRetry opens it.
unfoldable pub given_back : ℕ → SocketHandler → SocketHandler
given_back p h =
    let h1 = change p (λ s. record s { retry = false }) h in record h1 { env = close p h1.env }

pub given_back-map :
    (p : ℕ) (h : SocketHandler)
    → ((given_back p h).sockets ≡ h.sockets)
      × ((given_back p h).fds_erase ≡ h.fds_erase)
      × ((given_back p h).slave ≡ h.slave)
unfolding given_back
given_back-map p h = (refl, refl, refl)

pub given_back-kept :
    (p : ℕ) (h : SocketHandler) → kept (socket (given_back p h) p) ≡ kept (socket h p)
unfolding given_back
given_back-kept p h =
    (close-kept p (update p (λ s. record s { retry = false }) h.env)).0
    ∙ ap kept (update-mem p (λ s. record s { retry = false }) h.env)
