-- ===== src/Tcp/Client.antt =====
-- src/TcpSocket.cpp, the connection of a client: OnWrite while it is connecting, OnConnectTimeout, and
-- Open as SocketHandler::CheckRetry calls it; no socks4.
pub mod Attempts
use cpp_sockets_library.Prelude.{ℕ, suc, ◌+◌, ◌≡◌, Bool, true, false, ltb, ◌==◌, if◌then◌else◌}

-- GetConnectionRetry: -1, or a number.
pub data Limit : Type 0 where
  forever : Limit
  at_most : ℕ → Limit

-- The flags and the counter of retries of the socket; `failed` counts the calls of OnConnectFailed.
pub record Client : Type 0 where
  pub connecting : Bool
  pub call_on_connect : Bool
  pub closing : Bool
  pub retry : Bool
  pub retries : ℕ
  pub limit : Limit
  pub failed : ℕ

-- `GetConnectionRetry() == -1 || (GetConnectionRetry() && GetConnectionRetries() < GetConnectionRetry())`
unfoldable pub may_retry : Client → Bool
may_retry c = elim c.limit [ forever ↦ true | at_most n ↦ ltb c.retries n ]

-- SetConnecting(false), SetCloseAndDelete(true) and OnConnectFailed, in either order
unfoldable pub give_up : Client → Client
give_up c = record c { connecting = false; closing = true; failed = c.failed + 1 }

-- OnWrite with the error that SoError reports; of a socket that is not connecting it sends.
unfoldable pub on_write : ℕ → Client → Client
on_write err c =
    let done = record c { connecting = false; call_on_connect = true } in
    if c.connecting then (if err == 0 then done else if may_retry c then c else give_up c) else c

-- OnConnectTimeout; `again` is what OnConnectRetry answers.
unfoldable pub on_connect_timeout : Bool → Client → Client
on_connect_timeout again c =
    let more = record c { retries = c.retries + 1 } in
    if may_retry c
    then (if again then record more { retry = true } else give_up more)
    else give_up c

-- What comes of Open: it is refused before it begins, fails, is connected at once, or goes on.
pub data Opened : Type 0 where
  turned_away failed_at_once connected in_progress : Opened

unfoldable pub opened : Opened → Client → Client
opened turned_away c = record c { closing = true }
opened failed_at_once c = record c { connecting = false; closing = true }
opened connected c = record c { connecting = false; call_on_connect = true }
opened in_progress c = record c { connecting = true }

-- CheckRetry
unfoldable pub check_retry : Opened → Client → Client
check_retry o c = let opens = opened o (record c { retry = false }) in if c.retry then opens else c

-- What Select does with the socket: it is ready to write, or CheckTimeout finds its time over and then
-- CheckRetry runs.
pub data Event : Type 0 where
  ready : ℕ → Event
  over : Bool → Opened → Event

unfoldable pub after : Event → Client → Client
after (ready err) c = on_write err c
after (over again o) c = check_retry o (on_connect_timeout again c)

-- The handler goes on with a socket that is connecting and not to be closed.
pub data Reaches (c : Client) : Client → Type 0 where
  here : Reaches c c
  next :
      (e : Event) (d : Client)
      → Reaches c d
      → d.connecting ≡ true
      → d.closing ≡ false
      → Reaches c (after e d)
