-- ===== src/Handler/Select/Sound.antt =====
-- Select of src/SocketHandler.cpp: no fault, where every socket that connects again has an address.
use cpp_sockets_library.Prelude.{
  ℕ, ◌≡◌, ◌≢◌, refl, Bool, true, false, not, ◌||◌, none, some, List, [], ◌∷◌, leb, ◌==◌,
  if◌then◌else◌, Bool-cases, Option-cases, inl, inr,
}
use cpp_sockets_library.Handler.{
  Sock, Env, SocketHandler, update, set_close, set_fds, get_count, close, Connect, bad_address,
  no_socket, no_nonblocking, done, pending, refused, set_connecting, open_tcp,
}
use cpp_sockets_library.Handler.Select.{for_each}
use cpp_sockets_library.Handler.Select.Erase.{}
use cpp_sockets_library.Handler.Select.Uids.{}
use cpp_sockets_library.Handler.Select.Failed.{set_fds-mem}
use cpp_sockets_library.Handler.Select.Incoming.{}

-- A socket that is to connect again, now or when its connection is lost, has an address.
unfoldable pub addressed : Sock → Bool
addressed s = s.has_address || not (s.retry || s.reconnect)

abbrev pub Addressed : Env → Type 0
Addressed e = (p : ℕ) → addressed (e.mem p) ≡ true

abbrev pub Sound : SocketHandler → Type 0
Sound h = Addressed h.env × (h.fault ≡ false)

pub if-Sound : (b : Bool) (x y : SocketHandler) → Sound x → Sound y → Sound (if b then x else y)
if-Sound true x y v w = v
if-Sound false x y v w = w

pub if-Addressed :
    (b : Bool) (x y : Env) → Addressed x → Addressed y → Addressed (if b then x else y)
if-Addressed true x y v w = v
if-Addressed false x y v w = w

pub update-Addressed :
    (p : ℕ) (f : Sock → Sock) (e : Env)
    → ((s : Sock) → addressed s ≡ true → addressed (f s) ≡ true)
    → Addressed e
    → Addressed (update p f e)
unfolding update
update-Addressed p f e k a q = elim (Bool-cases (q == p)) [
  | inl b ↦ rw b (k (e.mem q) (a q))
  | inr b ↦ rw b (a q)
]

pub set_fds-Addressed : (p : ℕ) (r w : Bool) (e : Env) → Addressed e → Addressed (set_fds p r w e)
set_fds-Addressed p r w e a q = rw (set_fds-mem p r w e) (a q)

pub close-Addressed : (p : ℕ) (e : Env) → Addressed e → Addressed (close p e)
unfolding close addressed
close-Addressed p e a = elim (Option-cases (e.mem p).fd) [
  | inl h ↦ rw (close, h) a
  | inr (s, h) ↦
      rw (close, h)
        (update-Addressed p (λ x. record x { fd = none }) (set_fds p false false e) (λ s k. k)
          (set_fds-Addressed p false false e a))
]

pub set_close-Addressed : (now p : ℕ) (e : Env) → Addressed e → Addressed (set_close now p e)
unfolding set_close addressed
set_close-Addressed now p e a =
    if-Addressed (e.mem p).closing e _ a
      (update-Addressed p (λ s. record s { closing = true; close_time = now }) e (λ s k. k) a)

pub set_close-address :
    (now p : ℕ) (e : Env) (q : ℕ) → ((set_close now p e).mem q).has_address ≡ (e.mem q).has_address
unfolding set_close update
set_close-address now p e q = elim (Bool-cases (e.mem p).closing) [
  | inl h ↦ rw h refl
  | inr h ↦ elim (Bool-cases (q == p)) [ inl b ↦ rw (h, b) refl | inr b ↦ rw (h, b) refl ]
]

set_connecting-Addressed :
    (now : ℕ) (b : Bool) (p : ℕ) (e : Env) → Addressed e → Addressed (set_connecting now b p e)
unfolding set_connecting addressed
set_connecting-Addressed now true p e a =
    if-Addressed (e.mem p).connecting e _ a (update-Addressed p _ e (λ s k. k) a)
set_connecting-Addressed now false p e a =
    if-Addressed (e.mem p).connecting _ e (update-Addressed p _ e (λ s k. k) a) a

pub open_tcp-Sound :
    (now p : ℕ) (c : Connect) (h : SocketHandler)
    → c ≢ no_socket
    → Sound h
    → Sound (open_tcp now p c h)
unfolding open_tcp addressed
open_tcp-Sound now p c h n (a, f) = by_answer c n
  where
    full : Sound (record h { env = set_close now p h.env })
    full = (set_close-Addressed now p h.env a, f)

    opening : Env
    opening = set_connecting now false p h.env

    opened : Addressed opening
    opened = set_connecting-Addressed now false p h.env a

    fails : Addressed (set_close now p opening)
    fails = set_close-Addressed now p opening opened

    attached :
        (s : ℕ)
        → Addressed (set_connecting now true p (update p (λ x. record x { fd = some s }) opening))
    attached s =
        set_connecting-Addressed now true p (update p (λ x. record x { fd = some s }) opening)
          (update-Addressed p _ opening (λ x k. k) opened)

    calm : (h.fault || false) ≡ false
    calm = rw f refl

    by_answer : (c : Connect) → c ≢ no_socket → Sound (open_tcp now p c h)
    by_answer bad_address n = full
    by_answer no_socket n = absurd (n refl)
    by_answer no_nonblocking n = if-Sound (leb h.max_count (get_count h)) _ _ full (fails, calm)
    by_answer (done s) n = if-Sound (leb h.max_count (get_count h)) _ _ full (
      update-Addressed p (λ x. record x { fd = some s; call_on_connect = true }) opening (λ x k. k)
          opened,
      calm,
    )
    by_answer (pending s) n = if-Sound (leb h.max_count (get_count h)) _ _ full (attached s, calm)
    by_answer (refused s) n =
        if-Sound (leb h.max_count (get_count h)) _ _ full
          (if-Addressed (h.env.mem p).reconnect _ _ (attached s) fails, calm)

pub for_each-Sound :
    (f : ℕ → SocketHandler → SocketHandler) (ps : List ℕ) (h : SocketHandler)
    → ((p : ℕ) (h : SocketHandler) → Sound h → Sound (f p h))
    → Sound h
    → Sound (for_each f ps h)
unfolding for_each
for_each-Sound f [] h k v = v
for_each-Sound f (p ∷ ps) h k v = for_each-Sound f ps (f p h) k (k p h v)

pub if-true :
    (b : Bool) (P : SocketHandler → Type 0) (x y : SocketHandler)
    → b ≡ true
    → P x
    → P (if b then x else y)
if-true b P x y e v = rw e v
