-- ===== src/Handler.antt =====
-- src/SocketHandler.cpp with src/Socket.cpp, Socket::Close and TcpSocket::Open: the sockets of a
-- handler, as it is configured (SSL, resolver, reconnect and detach; no pool, no socks4). A pointer
-- is a number, `mem` the objects; `deleted` counts how often an object was deleted. The log, the
-- counter of retries, and what TcpSocket::Close does with the system before Socket::Close are left out.
-- `fault` is set where an exception leaves TcpSocket::Open or a null pointer is followed: nothing runs
-- after that in the code, and Select gives no result.
pub mod Select
use cpp_sockets_library.Prelude.{
  ℕ, zero, suc, ◌+◌, Bool, true, false, not, ◌&&◌, ◌||◌, Option, none, some, List, [], ◌∷◌, ◌++◌,
  ltb, leb, ◌==◌, if◌then◌else◌, length,
}

-- The fields of a Socket; a field that only a StreamSocket or a TcpSocket has is not read elsewhere.
pub record Sock : Type 0 where
  pub fd : Option ℕ
  pub uid : ℕ
  pub stream : Bool
  pub tcp : Bool
  pub ssl : Bool
  pub ssl_negotiate : Bool
  pub connecting : Bool
  pub connected : Bool
  pub lost : Bool
  pub closing : Bool
  pub close_time : ℕ
  pub call_on_connect : Bool
  pub retry : Bool
  pub reconnect : Bool
  pub is_reconnect : Bool
  pub detach : Bool
  pub detached : Bool
  pub delete_by_handler : Bool
  pub erased : Bool
  pub disable_read : Bool
  pub flush : Bool
  pub shutdown_wr : Bool
  pub output_length : ℕ
  pub timeout_start : ℕ
  pub timeout_limit : ℕ
  pub connect_timeout : ℕ
  pub has_address : Bool
  pub deleted : ℕ

abbrev pub FdSet : Type 0
FdSet = ℕ → Bool

pub fd_set : ℕ → FdSet → FdSet
fd_set s f i = if i == s then true else f i

pub fd_clr : ℕ → FdSet → FdSet
fd_clr s f i = if i == s then false else f i

-- The part of the handler that a virtual function of a socket may change.
pub record Env : Type 0 where
  pub mem : ℕ → Sock
  pub add : List ℕ
  pub rfds : FdSet
  pub wfds : FdSet
  pub efds : FdSet
  pub check_callonconnect : Bool
  pub check_detach : Bool
  pub check_timeout : Bool
  pub check_retry : Bool
  pub check_close : Bool

-- `sockets` is m_sockets, from descriptors to sockets in the order of the descriptors.
pub record SocketHandler : Type 0 where
  pub env : Env
  pub sockets : List (ℕ × ℕ)
  pub delete_list : List ℕ
  pub fds_erase : List ℕ
  pub maxsock : ℕ
  pub tlast : ℕ
  pub slave : Bool
  pub max_count : ℕ
  pub fault : Bool

abbrev pub socket : SocketHandler → ℕ → Sock
socket h p = h.env.mem p

-- A change of the fields of the socket `p`.
pub update : ℕ → (Sock → Sock) → Env → Env
update p f e = record e { mem = λ q. if q == p then f (e.mem q) else e.mem q }

abbrev pub change : ℕ → (Sock → Sock) → SocketHandler → SocketHandler
change p f h = record h { env = update p f h.env }

-- SetCloseAndDelete(true), at the time `now`.
pub set_close : ℕ → ℕ → Env → Env
set_close now p e =
    if (e.mem p).closing
    then e
    else record (update p (λ s. record s { closing = true; close_time = now }) e) {
      check_close = true;
    }

-- Set
pub set_fds : ℕ → Bool → Bool → Env → Env
set_fds p r w e = elim (e.mem p).fd [
  | none ↦ e
  | some s ↦ record e {
    rfds = if r then fd_set s e.rfds else fd_clr s e.rfds;
    wfds = if w then fd_set s e.wfds else fd_clr s e.wfds;
    efds = fd_set s e.efds;
  }
]

pub has_pointer : ℕ → List (ℕ × ℕ) → Bool
has_pointer p [] = false
has_pointer p (x ∷ xs) = x.1 == p || has_pointer p xs

pub has_uid : (ℕ → Sock) → ℕ → List (ℕ × ℕ) → Bool
has_uid mem u [] = false
has_uid mem u (x ∷ xs) = (mem x.1).uid == u || has_uid mem u xs

-- Valid(p) && Valid(p -> UniqueIdentifier())
pub valid : ℕ → SocketHandler → Bool
valid p h = has_pointer p h.sockets && has_uid h.env.mem (socket h p).uid h.sockets

pub get_count : SocketHandler → ℕ
get_count h = length h.sockets + length h.env.add + length h.delete_list

-- Socket::Close: the descriptor leaves the sets of select and is given back.
pub close : ℕ → Env → Env
close p e = elim (e.mem p).fd [
  | none ↦ e
  | some s ↦ update p (λ x. record x { fd = none }) (set_fds p false false e)
]

-- What the system answers to TcpSocket::Open: an address that is not valid, no protocol or no socket,
-- where CreateSocket throws, no nonblocking mode, or what connect gave, with the descriptor.
pub data Connect : Type 0 where
  bad_address no_socket no_nonblocking : Connect
  done pending refused : ℕ → Connect

-- StreamSocket::SetConnecting at the time `now`, with SetTimeout.
pub set_connecting : ℕ → Bool → ℕ → Env → Env
set_connecting now true p e =
    let wait = (e.mem p).connect_timeout in
    let begun = λ (s : Sock). record s {
      connecting = true;
      timeout_start = if wait == 0 then 0 else now;
      timeout_limit = wait;
    } in
    if (e.mem p).connecting
    then e
    else record (update p begun e) { check_timeout = e.check_timeout || not (wait == 0) }
set_connecting now false p e =
    if (e.mem p).connecting
    then update p (λ s. record s { connecting = false; timeout_start = 0; timeout_limit = 0 }) e
    else e

-- TcpSocket::Open
pub open_tcp : ℕ → ℕ → Connect → SocketHandler → SocketHandler
open_tcp now p bad_address h = record h { env = set_close now p h.env }
open_tcp now p c h =
    let opening = set_connecting now false p h.env in
    let fails = set_close now p opening in
    let attached =
      λ (s : ℕ). set_connecting now true p (update p (λ x. record x { fd = some s }) opening) in
    let thrown : Bool = elim c [ no_socket ↦ true | other ↦ false ] in
    if leb h.max_count (get_count h) then record h { env = set_close now p h.env } else record h {
      fault = h.fault || thrown;
      env = elim c [
        | bad_address ↦ fails
        | no_socket ↦ fails
        | no_nonblocking ↦ fails
        | done s ↦
            record (update p (λ x. record x { fd = some s; call_on_connect = true }) opening) {
              check_callonconnect = true;
            }
        | pending s ↦ attached s
        | refused s ↦ if (h.env.mem p).reconnect then attached s else fails
      ];
    }

-- The virtual functions of a socket.
pub data Callback : Type 0 where
  on_delete on_connect on_reconnect on_ssl_connect on_disconnect on_read on_write on_exception :
      Callback
  on_timeout on_connect_timeout ssl_negotiate detach_socket : Callback

-- std::map: the entry of a descriptor, and an entry put in.
pub find : ℕ → List (ℕ × ℕ) → Option ℕ
find s [] = none
find s (x ∷ xs) = let rest = find s xs in if x.0 == s then some x.1 else rest

pub put : ℕ → ℕ → List (ℕ × ℕ) → List (ℕ × ℕ)
put s p [] = (s, p) ∷ []
put s p (x ∷ xs) =
    let rest = put s p xs in
    if ltb x.0 s then x ∷ rest else if x.0 == s then (s, p) ∷ xs else (s, p) ∷ x ∷ xs

-- `on` is what a virtual function of a socket does with the handler.
module _ (on : Callback → ℕ → Env → Env) where
  abbrev pub calls : Callback → ℕ → SocketHandler → SocketHandler
  calls c p h = record h { env = on c p h.env }

  pub delete_socket : ℕ → SocketHandler → SocketHandler
  delete_socket p h =
      let h1 = calls on_delete p h in
      let s = socket h1 p in
      let h2 =
        if s.delete_by_handler && not s.erased
        then change p (λ x. record x { erased = true }) h1
        else h1 in
      record h2 { fds_erase = h2.fds_erase ++ (socket h2 p).uid ∷ [] }

  -- AddIncoming for a socket that is put into the map.
  pub enter : ℕ → ℕ → SocketHandler → SocketHandler
  enter s p h =
      if (socket h p).closing
      then (let h1 = delete_socket p (record h { sockets = put s p h.sockets }) in
          record h1 { env = close p h1.env })
      else (let x = socket h p in
          let e = record h.env {
            check_callonconnect = h.env.check_callonconnect || x.call_on_connect;
            check_detach = h.env.check_detach || x.detach;
            check_timeout = h.env.check_timeout || (ltb 0 x.timeout_start && ltb 0 x.timeout_limit);
            check_retry = h.env.check_retry || x.retry;
          } in
          let w = x.tcp && not (x.output_length == 0) in
          record h {
            env =
                if x.stream && x.connecting
                then set_fds p false true e
                else set_fds p (not x.disable_read) w e;
            maxsock = if ltb h.maxsock s then s else h.maxsock;
            sockets = put s p h.sockets;
          })

  -- AddIncoming for one socket of m_add, which has left that list.
  pub incoming : ℕ → SocketHandler → SocketHandler
  incoming p h = elim (socket h p).fd [
    | none ↦ record h { delete_list = h.delete_list ++ p ∷ [] }
    | some s ↦ elim (find s h.sockets) [
      | none ↦ enter s p h
      | some q ↦
          if ltb (socket h q).uid (socket h p).uid
          then enter s p (delete_socket q h)
          else if (socket h p).uid == (socket h q).uid && p == q
          then h
          else record h { delete_list = h.delete_list ++ p ∷ [] }
    ]
  ]
