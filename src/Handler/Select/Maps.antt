-- ===== src/Handler/Select/Maps.antt =====
-- The map of sockets of src/SocketHandler.cpp, and how many sockets it has.
use cpp_sockets_library.Prelude.{
  ℕ, suc, ◌<◌, ◌≤◌, ◌≡◌, ◌⊎◌, refl, ap, ◌∙◌, Bool, true, false, not, ◌&&◌, List, [], ◌∷◌, ◌++◌, ltb,
  ◌==◌, length, All, arith, Bool-cases, Option-cases, inl, inr,
}
use cpp_sockets_library.Handler.{
  Env, SocketHandler, socket, update, set_fds, close, find, put, Callback, on_delete, delete_socket,
  enter, incoming,
}
use cpp_sockets_library.Handler.Select.{}

-- The descriptors go up, so each is there once.
abbrev pub IsSorted : List (ℕ × ℕ) → Type 0
IsSorted [] = Unit {0}
IsSorted (x ∷ xs) = All (λ (y : ℕ × ℕ). x.0 < y.0) xs × IsSorted xs

pub record IsMap (h : SocketHandler) : Type 0 where
  pub sorted : IsSorted h.sockets
  pub limited : length h.sockets ≤ h.max_count

All-put {ℓ} :
    (P : ℕ × ℕ → Type ℓ) (s p : ℕ) (xs : List (ℕ × ℕ)) → P (s, p) → All P xs → All P (put s p xs)
unfolding put
All-put P s p [] h v = (h, tt)
All-put P s p (x ∷ xs) h v = elim (Bool-cases (ltb x.0 s)) [
  | inl a ↦ rw a (v.0, All-put P s p xs h v.1)
  | inr a ↦ elim (Bool-cases (x.0 == s)) [ inl b ↦ rw (a, b) (h, v.1) | inr b ↦ rw (a, b) (h, v) ]
]

pub All-map {ℓ κ} :
    {A : Type ℓ} (P Q : A → Type κ) (xs : List A) → ((x : A) → P x → Q x) → All P xs → All Q xs
All-map P Q [] f v = tt
All-map P Q (x ∷ xs) f v = (f x v.0, All-map P Q xs f v.1)

pub put-IsSorted : (s p : ℕ) (xs : List (ℕ × ℕ)) → IsSorted xs → IsSorted (put s p xs)
unfolding put
put-IsSorted s p [] v = (tt, tt)
put-IsSorted s p (x ∷ xs) v = elim (Bool-cases (ltb x.0 s)) [
  | inl a ↦
      rw a (All-put (λ (y : ℕ × ℕ). x.0 < y.0) s p xs (ground arith) v.0, put-IsSorted s p xs v.1)
  | inr a ↦ elim (Bool-cases (x.0 == s)) [
    | inl b ↦ let same : x.0 ≡ s = ground arith in rw (a, b) (rw⁻¹ same v.0, v.1)
    | inr b ↦
        let less : s < x.0 = ground arith in
        rw (a, b)
          (
            (
              less,
              All-map (λ (y : ℕ × ℕ). x.0 < y.0) (λ (y : ℕ × ℕ). s < y.0) xs (λ y h. omega arith)
                  v.0,
            ),
            v,
          )
  ]
]

pub length-put : (s p : ℕ) (xs : List (ℕ × ℕ)) → length (put s p xs) ≤ suc (length xs)
unfolding put
length-put s p [] = omega arith
length-put s p (x ∷ xs) = ground (arith, length-put s p xs)

-- A socket was put into the map, or the map is as it was.
pub record Grown (h h' : SocketHandler) : Type 0 where
  pub map : (h'.sockets ≡ h.sockets) ⊎ ((s : ℕ) × (p : ℕ) × (h'.sockets ≡ put s p h.sockets))
  pub limit : h'.max_count ≡ h.max_count
  pub waiting : h'.env.add ≡ h.env.add

pub set_fds-add : (p : ℕ) (r w : Bool) (e : Env) → (set_fds p r w e).add ≡ e.add
unfolding set_fds
set_fds-add p r w e = elim (Option-cases (e.mem p).fd) [
  | inl h ↦ rw (set_fds, h) refl
  | inr (s, h) ↦ rw (set_fds, h) refl
]

pub close-add : (p : ℕ) (e : Env) → (close p e).add ≡ e.add
unfolding close update
close-add p e = elim (Option-cases (e.mem p).fd) [
  | inl h ↦ rw (close, h) refl
  | inr (s, h) ↦ rw (close, h) (set_fds-add p false false e)
]

-- What DeleteSocket leaves as it is.
pub record Same (h h' : SocketHandler) : Type 0 where
  pub map : h'.sockets ≡ h.sockets
  pub limit : h'.max_count ≡ h.max_count
  pub dropped : h'.delete_list ≡ h.delete_list

module _ (on : Callback → ℕ → Env → Env) where
  pub delete_socket-Same : (p : ℕ) (h : SocketHandler) → Same h (delete_socket on p h)
  unfolding delete_socket
  delete_socket-Same p h =
      let s = (on on_delete p h.env).mem p in
      elim (Bool-cases (s.delete_by_handler && not s.erased)) [
        | inl a ↦ rw a (record { map = refl; limit = refl; dropped = refl })
        | inr a ↦ rw a (record { map = refl; limit = refl; dropped = refl })
      ]

  module _ (quiet : (p : ℕ) (e : Env) → (on on_delete p e).add ≡ e.add) where
    delete_socket-add : (p : ℕ) (h : SocketHandler) → (delete_socket on p h).env.add ≡ h.env.add
    unfolding delete_socket update
    delete_socket-add p h =
        let s = (on on_delete p h.env).mem p in
        elim (Bool-cases (s.delete_by_handler && not s.erased)) [
          | inl a ↦ rw a (quiet p h.env)
          | inr a ↦ rw a (quiet p h.env)
        ]

    enter-Grown : (s p : ℕ) (h : SocketHandler) → Grown h (enter on s p h)
    unfolding enter
    enter-Grown s p h = elim (Bool-cases (socket h p).closing) [
      | inl c ↦
          let h1 = record h { sockets = put s p h.sockets } in
          let same = delete_socket-Same p h1 in
          rw c (record {
            map = inr (s, p, same.map);
            limit = same.limit;
            waiting = close-add p (delete_socket on p h1).env ∙ delete_socket-add p h1;
          })
      | inr c ↦ elim (Bool-cases ((socket h p).stream && (socket h p).connecting)) [
        | inl a ↦
            rw (c, a)
              (record {
                map = inr (s, p, refl);
                limit = refl;
                waiting = set_fds-add p false true _;
              })
        | inr a ↦
            rw (c, a)
              (record { map = inr (s, p, refl); limit = refl; waiting = set_fds-add p _ _ _ })
      ]
    ]

    -- What AddIncoming does with the map for one socket.
    pub incoming-Grown : (p : ℕ) (h : SocketHandler) → Grown h (incoming on p h)
    unfolding incoming
    incoming-Grown p h =
        let unchanged : Grown h (record h { delete_list = h.delete_list ++ p ∷ [] }) = record {
          map = inl refl;
          limit = refl;
          waiting = refl;
        } in
        elim (Option-cases (socket h p).fd) [
          | inl a ↦ rw (incoming, a) unchanged
          | inr (s, a) ↦ elim (Option-cases (find s h.sockets)) [
            | inl b ↦ rw (incoming, a, b) (enter-Grown s p h)
            | inr (q, b) ↦ elim (Bool-cases (ltb (socket h q).uid (socket h p).uid)) [
              | inl c ↦ rw (incoming, a, b, c) (replaced s q)
              | inr c ↦ elim (Bool-cases ((socket h p).uid == (socket h q).uid && p == q)) [
                | inl d ↦
                    rw (incoming, a, b, c, d)
                      (record { map = inl refl; limit = refl; waiting = refl })
                | inr d ↦ rw (incoming, a, b, c, d) unchanged
              ]
            ]
          ]
        ]
      where
        replaced : (s q : ℕ) → Grown h (enter on s p (delete_socket on q h))
        replaced s q =
            let same = delete_socket-Same q h in
            let grown = enter-Grown s p (delete_socket on q h) in
            record {
              map = elim grown.map [
                | inl e ↦ inl (e ∙ same.map)
                | inr (t, r, e) ↦ inr (t, r, e ∙ ap (put t r) same.map)
              ];
              limit = grown.limit ∙ same.limit;
              waiting = grown.waiting ∙ delete_socket-add q h;
            }
