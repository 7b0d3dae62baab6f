-- ===== src/Ajp/Cuts.antt =====
-- How the reads of OnRawData of src/AjpBaseSocket.cpp cut the stream.
use cpp_sockets_library.Prelude.{
  ◌≡◌, refl, sym, ap, ◌∙◌, Option, none, some, List, [], ◌∷◌, ◌++◌, Bytes,
}
use cpp_sockets_library.Prelude.Mem.{}
use cpp_sockets_library.Ajp.{AjpBaseSocket, Callback, on_raw_data}
use cpp_sockets_library.Ajp.Bytewise.{IsOpen, push, pushes, on_raw_data-pushes}
use cpp_sockets_library.Ajp.Rounds.{then_calls, then_calls-nil, then_calls-append}

-- Several reads, one after the other.
pub reads : AjpBaseSocket → List Bytes → Option (AjpBaseSocket × List Callback)
reads s [] = some (s, [])
reads s (b ∷ bs) = elim (on_raw_data s b) [
  | none ↦ none
  | some (s1, cs) ↦ then_calls cs (reads s1 bs)
]

unfoldable pub join : List Bytes → Bytes
join [] = []
join (b ∷ bs) = b ++ join bs

abbrev pub goes_on :
    Bytes → Option (AjpBaseSocket × List Callback) → Option (AjpBaseSocket × List Callback)
goes_on rest r = elim r [ none ↦ none | some (s1, cs) ↦ then_calls cs (pushes s1 rest) ]

pub goes_on-then_calls :
    (cs : List Callback) (rest : Bytes) (r : Option (AjpBaseSocket × List Callback))
    → goes_on rest (then_calls cs r) ≡ then_calls cs (goes_on rest r)
goes_on-then_calls cs rest none = refl
goes_on-then_calls cs rest (some (s1, ds)) = sym (then_calls-append cs ds (pushes s1 rest))

pub goes_on-append :
    (xs ys : Bytes) (r : Option (AjpBaseSocket × List Callback))
    → ((s : AjpBaseSocket) → pushes s (xs ++ ys) ≡ goes_on ys (pushes s xs))
    → goes_on (xs ++ ys) r ≡ goes_on ys (goes_on xs r)
goes_on-append xs ys none ih = refl
goes_on-append xs ys (some (s1, cs)) ih =
    ap (then_calls cs) (ih s1) ∙ sym (goes_on-then_calls cs ys (pushes s1 xs))

pub pushes-append :
    (s : AjpBaseSocket) (xs ys : Bytes) → pushes s (xs ++ ys) ≡ goes_on ys (pushes s xs)
unfolding pushes
pushes-append s [] ys = then_calls-nil (pushes s ys)
pushes-append s (x ∷ xs) ys = goes_on-append xs ys (push s x) (λ s1. pushes-append s1 xs ys)

-- The reads that follow the first one, by the hypothesis on them.
abbrev pub Joins : List Bytes → Type 0
Joins bs =
    (s : AjpBaseSocket) (s1 : AjpBaseSocket) (cs : List Callback)
    → IsOpen s
    → pushes s (join bs) ≡ some (s1, cs)
    → reads s bs ≡ some (s1, cs)

pub reads_rest :
    (bs : List Bytes) (s2 : AjpBaseSocket) (ds : List Callback)
    (r : Option (AjpBaseSocket × List Callback)) (s1 : AjpBaseSocket) (cs : List Callback)
    → Joins bs
    → IsOpen s2
    → pushes s2 (join bs) ≡ r
    → then_calls ds r ≡ some (s1, cs)
    → then_calls ds (reads s2 bs) ≡ some (s1, cs)
reads_rest bs s2 ds none s1 cs ih ready d h = absurd cc
reads_rest bs s2 ds (some (s3, es)) s1 cs ih ready d h =
    ap (then_calls ds) (ih s2 s3 es ready d) ∙ h

pub reads_first :
    (b : Bytes) (bs : List Bytes) (s s1 : AjpBaseSocket) (cs : List Callback)
    (r : Option (AjpBaseSocket × List Callback))
    → Joins bs
    → IsOpen s
    → pushes s b ≡ r
    → goes_on (join bs) r ≡ some (s1, cs)
    → reads s (b ∷ bs) ≡ some (s1, cs)
unfolding reads
reads_first b bs s s1 cs none ih v d h = absurd cc
reads_first b bs s s1 cs (some (s2, ds)) ih v d h =
    let (here, ready) = on_raw_data-pushes s b s2 ds v d in
    rw (reads, here) (reads_rest bs s2 ds (pushes s2 (join bs)) s1 cs ih ready refl h)

-- How the bytes were cut into reads does not matter: where the reader of single bytes refuses no
-- packet of the whole stream, the reads together end in its state, with its callbacks in its order.
pub reads-join :
    (s : AjpBaseSocket) (bs : List Bytes) (s1 : AjpBaseSocket) (cs : List Callback)
    → IsOpen s
    → pushes s (join bs) ≡ some (s1, cs)
    → reads s bs ≡ some (s1, cs)
unfolding reads join pushes
reads-join s [] s1 cs v e = e
reads-join s (b ∷ bs) s1 cs v e =
    reads_first b bs s s1 cs (pushes s b) (λ t t1 ds. reads-join t bs t1 ds) v refl
      (sym (pushes-append s b (join bs)) ∙ e)
