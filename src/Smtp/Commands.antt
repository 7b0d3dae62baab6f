-- ===== src/Smtp/Commands.antt =====
-- The order of the calls of src/SmtpdSocket.cpp.
use cpp_sockets_library.Prelude.{
  ◌≡◌, subst, sym, inl, inr, refl, Bool, true, false, not, List, [], ◌∷◌, ltb, if◌then◌else◌,
  length, Bytes, Bool-cases, ltb_false→le,
}
use cpp_sockets_library.Prelude.Text.{codes}
use cpp_sockets_library.Parse.{new_parse, getword, getrest}
use cpp_sockets_library.Utility.Letters.{to_lower, to_upper}
use cpp_sockets_library.Utility.Uri.{same}
use cpp_sockets_library.Smtp.{
  EmailAddress, new_address, name_too_long, domain_too_long, quit, no_hello, Act, on_hello,
  on_mail_from, on_rcpt_to, on_data_complete, on_rset, on_data, on_abort, on_not_supported,
  SmtpdSocket, new_smtpd, act, reply, unstuffed, header_step, data_line, hello_command,
  address_command, command, on_line, on_lines,
}
use cpp_sockets_library.Smtp.Allowed.{
  IsShortAddress, MayFollow, IsAllowed, IsProper, if_false, act-IsProper, reply-IsProper,
  closed-IsProper, answered-IsProper,
}

module _ (answers : List Act → Bool) where
  -- A line of the message where `m_header` is not set.
  abbrev pub text_line : Bytes → SmtpdSocket → SmtpdSocket
  text_line line s =
      if same line (b'.' ∷ [])
      then (let s1 = act on_data_complete (record s { data_mode = false }) in
          if answers s1.log then reply (codes "250 OK") s1 else reply (codes "550 Failed") s1)
      else act (on_data (unstuffed line)) s

  data_line-IsProper :
      (line : Bytes) (s : SmtpdSocket)
      → s.data_mode ≡ true
      → IsProper answers s
      → IsProper answers (data_line answers line s)
  unfolding data_line
  data_line-IsProper line s d v =
      let g = v.in_message d in
      let left : IsProper answers (record s { data_mode = false }) = record {
        no_header = v.no_header;
        greeted = v.greeted;
        in_message = λ h. g;
        allowed = v.allowed;
      } in
      subst (IsProper answers)
        (sym (if_false s.header (header_step line s) (text_line line s) v.no_header))
        (elim (Bool-cases (same line (b'.' ∷ []))) [
          | inl e ↦ rw e (
              answered-IsProper answers (codes "250 OK") (codes "550 Failed")
                (act on_data_complete (record s { data_mode = false }))
                (act-IsProper answers on_data_complete (record s { data_mode = false }) g left))
          | inr e ↦ rw e (act-IsProper answers (on_data (unstuffed line)) s g v)
        ])

  hello_command-IsProper :
      (arg : Bytes) (s : SmtpdSocket)
      → IsProper answers s
      → IsProper answers (hello_command answers arg s)
  unfolding hello_command
  hello_command-IsProper arg s v =
      let asked = act-IsProper answers (on_hello arg) s tt v in
      elim (Bool-cases (answers (on_hello arg ∷ s.log))) [
        | inl a ↦
            rw (hello_command, a)
              (reply-IsProper answers (codes "250 mail.alhem.net")
                (record (act (on_hello arg) s) { hello = true })
                (record {
                  no_header = v.no_header;
                  greeted = λ h. inl a;
                  in_message = λ h. inl a;
                  allowed = asked.allowed;
                }))
        | inr a ↦ rw (hello_command, a) (reply-IsProper answers (codes "550 Failed") _ asked)
      ]

  abbrev address_in : Bytes → EmailAddress
  address_in line =
      new_address (to_lower (getrest (getword (getword (new_parse line (b':' ∷ []) false)))).1)

  address_command-IsProper :
      (f : EmailAddress → Act) (failed line : Bytes) (s : SmtpdSocket)
      → ((addr : EmailAddress) → IsShortAddress answers addr → MayFollow answers (f addr) s.log)
      → IsProper answers s
      → IsProper answers (address_command answers f failed line s)
  unfolding address_command
  address_command-IsProper f failed line s may v =
      let addr = address_in line in
      elim (Bool-cases (ltb 64 (length addr.name))) [
        | inl long ↦
            rw (address_command, long)
              (reply-IsProper answers (codes "500 Name too long.") _
                (act-IsProper answers (on_abort name_too_long) s tt v))
        | inr name ↦ elim (Bool-cases (ltb 64 (length addr.domain))) [
          | inl long ↦
              rw (address_command, name, long)
                (reply-IsProper answers (codes "500 Domain too long.") _
                  (act-IsProper answers (on_abort domain_too_long) s tt v))
          | inr domain ↦
              let short : IsShortAddress answers addr =
                (ltb_false→le _ _ name, ltb_false→le _ _ domain) in
              rw (address_command, name, domain)
                (answered-IsProper answers (codes "250 OK") failed _
                  (act-IsProper answers (f addr) s (may addr short) v))
        ]
      ]

  hello_first :
      (h : Bool) (x y : SmtpdSocket)
      → (h ≡ false → IsProper answers x)
      → (h ≡ true → IsProper answers y)
      → IsProper answers (if not h then x else y)
  hello_first true x y f g = g refl
  hello_first false x y f g = f refl

  -- `else if (cmd == ...)`
  or_else :
      (b : Bool) (x y : SmtpdSocket)
      → IsProper answers x
      → IsProper answers y
      → IsProper answers (if b then x else y)
  or_else true x y v w = v
  or_else false x y v w = w

  -- The commands after a greeting.
  abbrev later_command : Bytes → Bytes → Bytes → SmtpdSocket → SmtpdSocket
  later_command cmd arg line s =
      if same cmd (codes "MAIL")
      then address_command answers on_mail_from (codes "550 Failed") line s
      else if same cmd (codes "RCPT")
      then address_command answers on_rcpt_to (codes "553 Failed") line s
      else if same cmd (codes "DATA")
      then record (reply (codes "354 Enter mail, end with \".\" on a line by itself") s) {
        data_mode = true;
        header = false;
      }
      else if same cmd (codes "RSET")
      then reply (codes "250 OK") (act on_rset (record s { data_mode = false; header = false }))
      else if same cmd (codes "QUIT")
      then record (reply (codes "221 Bye Bye") (act (on_abort quit) s)) { closing = true }
      else if same cmd (codes "NOOP")
      then reply (codes "250 OK") s
      else act (on_not_supported cmd arg) s

  later_command-IsProper :
      (cmd arg line : Bytes) (s : SmtpdSocket)
      → s.hello ≡ true
      → IsProper answers s
      → IsProper answers (later_command cmd arg line s)
  later_command-IsProper cmd arg line s hello v =
      let g = v.greeted hello in
      let told =
        reply-IsProper answers (codes "354 Enter mail, end with \".\" on a line by itself") s v in
      let start : IsProper answers
          (record (reply (codes "354 Enter mail, end with \".\" on a line by itself") s) {
            data_mode = true;
            header = false;
          }) =
        record {
          no_header = refl;
          greeted = told.greeted;
          in_message = λ h. g;
          allowed = told.allowed;
        } in
      let stopped : IsProper answers (record s { data_mode = false; header = false }) = record {
        no_header = refl;
        greeted = v.greeted;
        in_message = λ h. g;
        allowed = v.allowed;
      } in
      or_else (same cmd (codes "MAIL")) _ _
        (address_command-IsProper on_mail_from (codes "550 Failed") line s (λ a short. (g, short))
          v)
        (or_else (same cmd (codes "RCPT")) _ _
          (address_command-IsProper on_rcpt_to (codes "553 Failed") line s (λ a short. (g, short))
            v)
          (or_else (same cmd (codes "DATA")) _ _ start (
            or_else (same cmd (codes "RSET")) _ _
              (reply-IsProper answers (codes "250 OK") _ (act-IsProper answers on_rset _ g stopped))
              (or_else (same cmd (codes "QUIT")) _ _
                (closed-IsProper answers _ (
                  reply-IsProper answers (codes "221 Bye Bye") _
                    (act-IsProper answers (on_abort quit) s tt v)))
                (or_else (same cmd (codes "NOOP")) _ _ (reply-IsProper answers (codes "250 OK") s v)
                  (act-IsProper answers (on_not_supported cmd arg) s tt v))))))

  command-IsProper :
      (cmd arg line : Bytes) (s : SmtpdSocket)
      → IsProper answers s
      → IsProper answers (command answers cmd arg line s)
  unfolding command
  command-IsProper cmd arg line s v =
      let greet = hello_command-IsProper arg s v in
      or_else (same cmd (codes "EHLO")) _ _ greet (
        or_else (same cmd (codes "HELO")) _ _ greet (
          hello_first s.hello _ (later_command cmd arg line s)
            (λ h. closed-IsProper answers _ (act-IsProper answers (on_abort no_hello) s tt v))
            (λ h. later_command-IsProper cmd arg line s h v)))

  on_line-IsProper :
      (line : Bytes) (s : SmtpdSocket)
      → IsProper answers s
      → IsProper answers (on_line answers line s)
  unfolding on_line
  on_line-IsProper line s v =
      let cmd = to_upper (getword (new_parse line [] false)).ord in
      let arg = (getrest (getword (new_parse line [] false))).1 in
      by_mode s.data_mode _ (command answers cmd arg line s) (λ d. data_line-IsProper line s d v)
        (command-IsProper cmd arg line s v)
    where
      by_mode :
          (b : Bool) (x y : SmtpdSocket)
          → (b ≡ true → IsProper answers x)
          → IsProper answers y
          → IsProper answers (if b then x else y)
      by_mode true x y f w = f refl
      by_mode false x y f w = w

  on_lines-IsProper :
      (ls : List Bytes) (s : SmtpdSocket)
      → IsProper answers s
      → IsProper answers (on_lines answers ls s)
  unfolding on_lines
  on_lines-IsProper [] s v = v
  on_lines-IsProper (l ∷ ls) s v =
      on_lines-IsProper ls (on_line answers l s) (on_line-IsProper l s v)

new_smtpd-IsProper : (answers : List Act → Bool) → IsProper answers new_smtpd
unfolding new_smtpd
new_smtpd-IsProper answers = record {
  no_header = refl;
  greeted = λ h. absurd cc;
  in_message = λ h. absurd cc;
  allowed = tt;
}

-- Whatever lines a new socket gets, and whatever the virtual functions answer: OnMailFrom, OnRcptTo,
-- OnData, OnDataComplete and OnRset are called only after an OnHello with a good answer, OnMailFrom
-- and OnRcptTo only with a name and a domain of at most 64 bytes, and OnHeader and OnHeaderComplete
-- are never called.
pub on_lines-IsAllowed :
    (answers : List Act → Bool) (ls : List Bytes)
    → IsAllowed answers (on_lines answers ls new_smtpd).log
on_lines-IsAllowed answers ls =
    let v = on_lines-IsProper answers ls new_smtpd (new_smtpd-IsProper answers) in v.allowed
