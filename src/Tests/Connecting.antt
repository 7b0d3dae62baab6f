-- ===== src/Tests/Connecting.antt =====
-- A client that connects.
use cpp_sockets_library.Prelude.{◌≤◌, ◌≡◌, refl, true, false}
use cpp_sockets_library.Tcp.Client.{
  Client, at_most, may_retry, give_up, on_write, on_connect_timeout, opened, check_retry,
  in_progress, ready, over, after, Reaches, here, next,
}
use cpp_sockets_library.Tcp.Client.Attempts.{IsNew, attempts, attempts-bound}

abbrev new_client : Client
new_client = record {
  connecting = true;
  call_on_connect = false;
  closing = false;
  retry = false;
  retries = 0;
  limit = at_most 2;
  failed = 0;
}

new_client-IsNew : IsNew 2 new_client
new_client-IsNew = record {
  limit = refl;
  connecting = refl;
  flags = (refl, refl);
  counts = (refl, refl);
}

-- An error, two timeouts with a further connect, and a third timeout.
abbrev waiting : Client
waiting = after (ready 111) new_client

abbrev second : Client
second = after (over true in_progress) waiting

abbrev third : Client
third = after (over true in_progress) second

abbrev last : Client
last = after (over true in_progress) third

way : Reaches new_client last
unfolding after on_write on_connect_timeout may_retry opened check_retry give_up
way =
    next (over true in_progress) third
      (next (over true in_progress) second
        (next (over true in_progress) waiting (next (ready 111) new_client here refl refl) refl
          refl)
        refl refl)
      refl refl

attempts-bound_example :
    (attempts way ≤ 3)
    × (last.retries ≤ 2)
    × (last.failed ≤ 1)
    × (1 ≤ last.failed → (last.closing ≡ true) × (last.connecting ≡ false))
attempts-bound_example = attempts-bound 2 new_client last way new_client-IsNew
