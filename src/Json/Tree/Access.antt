-- ===== src/Json/Tree/Access.antt =====
-- src/Json.cpp: HasValue, operator[], Add, on the members of an object, which are a std::map.
use cpp_sockets_library.Prelude.{
  ◌≡◌, ◌≢◌, ◌⊎◌, refl, sym, ap, ◌∙◌, Bool, true, false, Option, none, some, [], ◌∷◌, if◌then◌else◌,
  Bytes, arith, Bool-cases, inl, inr,
}
use cpp_sockets_library.Json.Tree.{
  Json, null, long, double, text, truth, array, object, no_item, Members, no_member, member,
  push_back, text_less, insert,
}

-- m_object.find(name)
pub find : Bytes → Members → Option Json
find name no_member = none
find name (member k x ms) =
    let rest = find name ms in
    if text_less k name then rest else if text_less name k then none else some x

pub is_some : Option Json → Bool
is_some none = false
is_some (some x) = true

pub has_value : Bytes → Json → Bool
has_value name (object ms) = is_some (find name ms)
has_value name j = false

-- The constant operator[]; an exception is `none`.
pub at : Bytes → Json → Option Json
at name (object ms) = find name ms
at name j = none

-- `j[name] = v`
unfoldable pub assign : Bytes → Json → Json → Option Json
assign name v null = some (object (insert name v no_member))
assign name v (object ms) = some (object (insert name v ms))
assign name v j = none

pub add : Json → Json → Option Json
add v null = some (array (push_back no_item v))
add v (array xs) = some (array (push_back xs v))
add v j = none

text_less-irreflexive : (s : Bytes) → text_less s s ≡ false
unfolding text_less
text_less-irreflexive [] = refl
text_less-irreflexive (c ∷ s) = let rest = text_less-irreflexive s in ground arith

text_less-total : (s t : Bytes) → text_less s t ≡ false → text_less t s ≡ false → s ≡ t
unfolding text_less
text_less-total [] [] h k = refl
text_less-total [] (d ∷ t) h k = cc
text_less-total (c ∷ s) [] h k = cc
text_less-total (c ∷ s) (d ∷ t) h k =
    let same : c ≡ d = ground arith in
    let rest : s ≡ t = text_less-total s t (ground arith) (ground arith) in rw (same, rest) refl

text_less_trans :
    (s t u : Bytes) → text_less s t ≡ true → text_less t u ≡ true → text_less s u ≡ true
unfolding text_less
text_less_trans s t [] h k = cc
text_less_trans s [] (e ∷ u) h k = cc
text_less_trans [] (d ∷ t) (e ∷ u) h k = refl
text_less_trans (c ∷ s) (d ∷ t) (e ∷ u) h k = let rest = text_less_trans s t u in ground arith

text_less-asym : (s t : Bytes) → text_less s t ≡ true → text_less t s ≡ false
text_less-asym s t h = elim (Bool-cases (text_less t s)) [
  | inl k ↦
      let loop = text_less_trans s t s h k in let never = text_less-irreflexive s in absurd (cc)
  | inr k ↦ k
]

find-insert : (k : Bytes) (v : Json) (ms : Members) → find k (insert k v ms) ≡ some v
unfolding find insert
find-insert k v no_member = rw (text_less-irreflexive k) refl
find-insert k v (member h x ms) = elim (Bool-cases (text_less h k)) [
  | inl a ↦ rw (a, a) (find-insert k v ms)
  | inr a ↦ elim (Bool-cases (text_less k h)) [
    | inl b ↦ rw (a, b, text_less-irreflexive k) refl
    | inr b ↦ rw (a, b, a, b) refl
  ]
]

find-head_less :
    (j h : Bytes) (x : Json) (ms : Members) → text_less j h ≡ true → find j (member h x ms) ≡ none
unfolding find
find-head_less j h x ms l = rw (text_less-asym j h l, l) refl

find-insert_other :
    (j k : Bytes) (v : Json) (ms : Members) → j ≢ k → find j (insert k v ms) ≡ find j ms
unfolding find insert
find-insert_other j k v no_member n = elim (Bool-cases (text_less k j)) [
  | inl a ↦ rw a refl
  | inr a ↦ elim (Bool-cases (text_less j k)) [
    | inl b ↦ rw (a, b) refl
    | inr b ↦ absurd (n (text_less-total j k b a))
  ]
]
find-insert_other j k v (member h x ms) n = elim (Bool-cases (text_less h k)) [
  | inl a ↦ rw a (rw (find-insert_other j k v ms n) refl)
  | inr a ↦ elim (Bool-cases (text_less k h)) [
    | inl b ↦ rw (a, b) (before b)
    | inr b ↦ let same : h ≡ k = text_less-total h k a b in rw (a, b) (replaced same)
  ]
]
  where
    before : text_less k h ≡ true → find j (member k v (member h x ms)) ≡ find j (member h x ms)
    before b = elim (Bool-cases (text_less k j)) [
      | inl c ↦ rw c refl
      | inr c ↦ elim (Bool-cases (text_less j k)) [
        | inl d ↦ rw (c, d) (sym (find-head_less j h x ms (text_less_trans j k h d b)))
        | inr d ↦ absurd (n (text_less-total j k d c))
      ]
    ]

    replaced : h ≡ k → find j (member h v ms) ≡ find j (member h x ms)
    replaced same = elim (Bool-cases (text_less h j)) [
      | inl c ↦ rw c refl
      | inr c ↦ elim (Bool-cases (text_less j h)) [
        | inl d ↦ rw (c, d) refl
        | inr d ↦ absurd (n (text_less-total j h d c ∙ same))
      ]
    ]

abbrev Assigned : Bytes → Bytes → Json → Json → Json → Type 0
Assigned name other v j j' =
    (at name j' ≡ some v)
    × (has_value name j' ≡ true)
    × (at other j' ≡ at other j)
    × (has_value other j' ≡ has_value other j)

insert-Assigned :
    (name other : Bytes) (v : Json) (ms : Members)
    → other ≢ name
    → Assigned name other v (object ms) (object (insert name v ms))
unfolding at has_value is_some
insert-Assigned name other v ms n =
    let found = find-insert name v ms in
    let kept = find-insert_other other name v ms n in
    (found, ap is_some found, kept, ap is_some kept)

-- The values whose members operator[] gives: an object, and a value that has no type yet.
unfoldable pub takes_names : Json → Bool
takes_names null = true
takes_names (object ms) = true
takes_names j = false

-- `j[name] = v` throws exactly where j is neither an object nor of no type yet. Else j is then an
-- object that has v under this name, and under any other name what it had before, which is nothing
-- where it had no type.
pub assign-at :
    (name other : Bytes) (v j : Json)
    → other ≢ name
    → ((takes_names j ≡ true)
        × ((j' : Json) × (assign name v j ≡ some j')
            × (at name j' ≡ some v)
            × (has_value name j' ≡ true)
            × (at other j' ≡ at other j)
            × (has_value other j' ≡ has_value other j)))
      ⊎ ((takes_names j ≡ false) × (assign name v j ≡ none))
unfolding assign takes_names
assign-at name other v null n =
    let (found, held, kept, known) = insert-Assigned name other v no_member n in
    inl (
      refl,
      (
        object (insert name v no_member),
        refl,
        found,
        held,
        kept ∙ unfold at find in refl,
        known ∙ unfold has_value is_some find in refl,
      ),
    )
assign-at name other v (object ms) n =
    let (found, held, kept, known) = insert-Assigned name other v ms n in
    inl (refl, (object (insert name v ms), refl, found, held, kept, known))
assign-at name other v (long i) n = inr (refl, refl)
assign-at name other v (double d) n = inr (refl, refl)
assign-at name other v (text s) n = inr (refl, refl)
assign-at name other v (truth b) n = inr (refl, refl)
assign-at name other v (array xs) n = inr (refl, refl)
