-- ===== src/Tcp/Client/Attempts.antt =====
-- How often a client of src/TcpSocket.cpp tries to connect.
use cpp_sockets_library.Prelude.{
  ℕ, suc, ◌+◌, ◌≤◌, ◌<◌, ◌≡◌, ◌⊎◌, refl, sym, ◌∙◌, Bool, true, false, ltb, ◌==◌, if◌then◌else◌,
  arith, Bool-cases, inl, inr,
}
use cpp_sockets_library.Tcp.Client.{
  at_most, Client, may_retry, give_up, on_write, on_connect_timeout, Opened, turned_away,
  failed_at_once, connected, in_progress, opened, check_retry, ready, over, after, Reaches, here,
  next,
}

-- A client whose first connect is in progress.
pub record IsNew (n : ℕ) (c : Client) : Type 0 where
  pub limit : c.limit ≡ at_most n
  pub connecting : c.connecting ≡ true
  pub flags : (c.closing ≡ false) × (c.retry ≡ false)
  pub counts : (c.retries ≡ 0) × (c.failed ≡ 0)

-- How often the time was over.
unfoldable pub attempts : {c d : Client} → Reaches c d → ℕ
attempts here = 0
attempts (next (ready err) d r s t) = attempts r
attempts (next (over again o) d r s t) = suc (attempts r)

-- A client after `k` times.
record Inv (n k : ℕ) (c : Client) : Type 0 where
  limit : c.limit ≡ at_most n
  few : c.retries ≤ n
  settled : c.retry ≡ false
  state :
      ((c.closing ≡ false) × (k ≤ c.retries) × (c.failed ≡ 0))
      ⊎ ((c.closing ≡ true)
          × (k ≤ c.retries + 1)
          × (c.failed ≤ 1)
          × ((c.failed ≡ 0) ⊎ (c.connecting ≡ false)))

may_retry-at_most : (n : ℕ) (c : Client) → c.limit ≡ at_most n → may_retry c ≡ ltb c.retries n
unfolding may_retry
may_retry-at_most n c l = rw (may_retry, l) refl

if-Inv : (n k : ℕ) (b : Bool) (x y : Client) → Inv n k x → Inv n k y → Inv n k (if b then x else y)
if-Inv n k true x y v w = v
if-Inv n k false x y v w = w

-- What holds before the client is to be closed.
Inv-open : (n k : ℕ) (c : Client) → c.closing ≡ false → Inv n k c → (k ≤ c.retries) × (c.failed ≡ 0)
Inv-open n k c o v = elim v.state [
  | inl s ↦ (s.1, s.2)
  | inr s ↦ absurd (let never : true ≡ false = sym s.0 ∙ o in cc)
]

on_write-Inv : (n k err : ℕ) (c : Client) → c.closing ≡ false → Inv n k c → Inv n k (on_write err c)
unfolding on_write give_up
on_write-Inv n k err c o v =
    let (few, none_failed) = Inv-open n k c o v in
    if-Inv n k c.connecting _ c
      (if-Inv n k (err == 0) _ _
        (record {
          limit = v.limit;
          few = v.few;
          settled = v.settled;
          state = inl (o, few, none_failed);
        })
        (if-Inv n k (may_retry c) c _ v (record {
          limit = v.limit;
          few = v.few;
          settled = v.settled;
          state = inr (refl, omega arith, omega arith, inr refl);
        })))
      v

opened-Inv :
    (n k : ℕ) (o : Opened) (c : Client)
    → c.limit ≡ at_most n
    → c.retries ≤ n
    → c.retry ≡ false
    → (c.closing ≡ false) × (k ≤ c.retries) × (c.failed ≡ 0)
    → Inv n k (opened o c)
unfolding opened
opened-Inv n k turned_away c l r s (o, few, z) = record {
  limit = l;
  few = r;
  settled = s;
  state = inr (refl, omega arith, omega arith, inl z);
}
opened-Inv n k failed_at_once c l r s (o, few, z) = record {
  limit = l;
  few = r;
  settled = s;
  state = inr (refl, omega arith, omega arith, inl z);
}
opened-Inv n k connected c l r s v = record { limit = l; few = r; settled = s; state = inl v }
opened-Inv n k in_progress c l r s v = record { limit = l; few = r; settled = s; state = inl v }

over-Inv :
    (n k : ℕ) (again : Bool) (o : Opened) (c : Client)
    → c.closing ≡ false
    → Inv n k c
    → Inv n (suc k) (check_retry o (on_connect_timeout again c))
unfolding check_retry on_connect_timeout give_up
over-Inv n k again o c open_yet v =
    let (few, none_failed) = Inv-open n k c open_yet v in
    elim (Bool-cases (may_retry c)) [
      | inl m ↦
          let more : c.retries < n =
            let t : ltb c.retries n ≡ true = sym (may_retry-at_most n c v.limit) ∙ m in
            ground arith in
          elim (Bool-cases again) [
            | inl a ↦
                rw (m, a)
                  (opened-Inv n (suc k) o (record c { retries = c.retries + 1; retry = false })
                    v.limit (omega arith) refl (open_yet, omega arith, none_failed))
            | inr a ↦
                rw (m, a, v.settled)
                  (record {
                    limit = v.limit;
                    few = omega arith;
                    settled = refl;
                    state = inr (refl, omega arith, omega arith, inr refl);
                  })
          ]
      | inr m ↦
          rw (m, v.settled)
            (record {
              limit = v.limit;
              few = v.few;
              settled = refl;
              state = inr (refl, omega arith, omega arith, inr refl);
            })
    ]

IsNew-Inv : (n : ℕ) (c : Client) → IsNew n c → Inv n 0 c
IsNew-Inv n c v =
    let none = v.counts.0 in
    record {
      limit = v.limit;
      few = omega arith;
      settled = v.flags.1;
      state = inl (v.flags.0, omega arith, v.counts.1);
    }

attempts-Inv : (n : ℕ) (c d : Client) (r : Reaches c d) → IsNew n c → Inv n (attempts r) d
unfolding attempts after
attempts-Inv n c _ here v = IsNew-Inv n c v
attempts-Inv n c _ (next (ready err) d r s t) v =
    on_write-Inv n (attempts r) err d t (attempts-Inv n c d r v)
attempts-Inv n c _ (next (over again o) d r s t) v =
    over-Inv n (attempts r) again o d t (attempts-Inv n c d r v)

-- A client that may retry at most n times, in every order of errors and timeouts while its connect
-- is in progress: its time is over at most n + 1 times, it has retried at most n times, OnConnectFailed
-- has been called at most once, and once it has, the client is to be closed and no longer connecting.
pub attempts-bound :
    (n : ℕ) (c d : Client) (r : Reaches c d)
    → IsNew n c
    → (attempts r ≤ n + 1)
      × (d.retries ≤ n)
      × (d.failed ≤ 1)
      × (1 ≤ d.failed → (d.closing ≡ true) × (d.connecting ≡ false))
attempts-bound n c d r v =
    let w = attempts-Inv n c d r v in
    let few = w.few in
    elim w.state [
      | inl s ↦
          let k = s.1 in let z = s.2 in (omega arith, few, omega arith, λ h. absurd (omega arith))
      | inr s ↦
          let k = s.1 in
          (omega arith, few, s.2, λ h. (s.0, elim s.3 [ inl z ↦ absurd (omega arith) | inr e ↦ e ]))
    ]
