-- ===== src/Smtp/Message.antt =====
-- The lines of a message in src/SmtpdSocket.cpp.
use cpp_sockets_library.Prelude.{
  ◌≡◌, refl, ap, ◌∙◌, Bool, true, false, List, [], ◌∷◌, ◌++◌, ◌==◌, if◌then◌else◌, Bytes,
  Bool-cases, inl, inr,
}
use cpp_sockets_library.Prelude.Text.{codes}
use cpp_sockets_library.Utility.Uri.{same}
use cpp_sockets_library.Smtp.{
  Act, on_data, on_data_complete, SmtpdSocket, reply, unstuffed, data_line, on_line, on_lines,
}

-- How a client sends a line of a message: a dot is put before a dot at its start.
pub stuffed : Bytes → Bytes
stuffed [] = []
stuffed (c ∷ t) = if c == b'.' then b'.' ∷ c ∷ t else c ∷ t

pub stuffed_all : List Bytes → List Bytes
stuffed_all [] = []
stuffed_all (l ∷ ls) = stuffed l ∷ stuffed_all ls

-- The calls of OnData for the lines, after those in `older`.
pub heard : List Bytes → List Act → List Act
heard [] older = older
heard (l ∷ ls) older = heard ls (on_data l ∷ older)

unstuffed-stuffed :
    (l : Bytes) → (unstuffed (stuffed l) ≡ l) × (same (stuffed l) (b'.' ∷ []) ≡ false)
unfolding unstuffed stuffed same
unstuffed-stuffed [] = (refl, refl)
unstuffed-stuffed (c ∷ t) = elim (Bool-cases (c == b'.')) [
  | inl dot ↦ (rw dot refl, rw dot refl)
  | inr other ↦ (rw (other, other) refl, rw (other, other) refl)
]

abbrev pub in_message : Bool → Bytes → Bool → List Act → SmtpdSocket
in_message hello line closing log = record {
  hello = hello;
  data_mode = true;
  header = false;
  header_line = line;
  closing = closing;
  log = log;
}

module _ (answers : List Act → Bool) (hello : Bool) (line : Bytes) (closing : Bool) where
  on_line-stuffed :
      (l : Bytes) (log : List Act)
      → on_line answers (stuffed l) (in_message hello line closing log)
        ≡ in_message hello line closing (on_data l ∷ log)
  unfolding on_line data_line
  on_line-stuffed l log = let (text, not_end) = unstuffed-stuffed l in rw (not_end, text) refl

  -- A message of any lines, sent with a dot before each line that starts with one, and ended by a
  -- line with a dot: OnData is called with exactly its lines, in order, and then OnDataComplete, whose
  -- answer is what the client is told; the socket is ready for commands again.
  pub on_lines-stuffed :
      (ls : List Bytes) (log : List Act)
      → let done = record (in_message hello line closing (on_data_complete ∷ heard ls log)) {
        data_mode = false;
      } in
        on_lines answers (stuffed_all ls ++ (b'.' ∷ []) ∷ []) (in_message hello line closing log)
        ≡ (if answers done.log
            then reply (codes "250 OK") done
            else reply (codes "550 Failed") done)
  unfolding on_lines stuffed_all heard on_line data_line same
  on_lines-stuffed [] log = refl
  on_lines-stuffed (l ∷ ls) log =
      ap (on_lines answers (stuffed_all ls ++ (b'.' ∷ []) ∷ [])) (on_line-stuffed l log)
      ∙ on_lines-stuffed ls (on_data l ∷ log)
