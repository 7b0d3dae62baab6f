-- ===== src/Smtp/Allowed.antt =====
-- What the calls of src/SmtpdSocket.cpp may follow, and the states that keep to it.
use cpp_sockets_library.Prelude.{
  ◌≤◌, ◌≡◌, ◌⊎◌, inl, inr, refl, Bool, true, false, List, [], ◌∷◌, if◌then◌else◌, length, Bytes,
  Bool-cases,
}
use cpp_sockets_library.Prelude.Text.{}
use cpp_sockets_library.Parse.{}
use cpp_sockets_library.Utility.Letters.{}
use cpp_sockets_library.Utility.Uri.{}
use cpp_sockets_library.Smtp.{
  EmailAddress, Act, on_hello, on_mail_from, on_rcpt_to, on_header, on_header_complete,
  on_data_complete, on_rset, on_data, on_abort, on_not_supported, sends, SmtpdSocket, act, reply,
}

pub if_false {ℓ} : {A : Type ℓ} (b : Bool) (x y : A) → b ≡ false → (if b then x else y) ≡ y
if_false true x y h = absurd cc
if_false false x y h = refl

module _ (answers : List Act → Bool) where
  -- OnHello was called, and its answer was to go on.
  abbrev pub IsGreeted : List Act → Type 0
  IsGreeted [] = ⊥
  IsGreeted (on_hello d ∷ older) = (answers (on_hello d ∷ older) ≡ true) ⊎ IsGreeted older
  IsGreeted (a ∷ older) = IsGreeted older

  abbrev pub IsShortAddress : EmailAddress → Type 0
  IsShortAddress addr = (length addr.name ≤ 64) × (length addr.domain ≤ 64)

  -- What may be called after the calls `older`.
  abbrev pub MayFollow : Act → List Act → Type 0
  MayFollow (on_mail_from addr) older = IsGreeted older × IsShortAddress addr
  MayFollow (on_rcpt_to addr) older = IsGreeted older × IsShortAddress addr
  MayFollow on_data_complete older = IsGreeted older
  MayFollow on_rset older = IsGreeted older
  MayFollow (on_data d) older = IsGreeted older
  MayFollow (on_header k v) older = ⊥
  MayFollow on_header_complete older = ⊥
  MayFollow a older = Unit {0}

  abbrev pub IsAllowed : List Act → Type 0
  IsAllowed [] = Unit {0}
  IsAllowed (a ∷ older) = MayFollow a older × IsAllowed older

  pub record IsProper (s : SmtpdSocket) : Type 0 where
    pub no_header : s.header ≡ false
    pub greeted : s.hello ≡ true → IsGreeted s.log
    pub in_message : s.data_mode ≡ true → IsGreeted s.log
    pub allowed : IsAllowed s.log

  pub still : (a : Act) (older : List Act) → IsGreeted older → IsGreeted (a ∷ older)
  still (on_hello d) older h = inr h
  still (on_mail_from addr) older h = h
  still (on_rcpt_to addr) older h = h
  still (on_header k v) older h = h
  still on_header_complete older h = h
  still on_data_complete older h = h
  still on_rset older h = h
  still (on_data d) older h = h
  still (on_abort r) older h = h
  still (on_not_supported c g) older h = h
  still (sends t) older h = h

  pub act-IsProper :
      (a : Act) (s : SmtpdSocket) → MayFollow a s.log → IsProper s → IsProper (act a s)
  act-IsProper a s may v = record {
    no_header = v.no_header;
    greeted = λ h. still a s.log (v.greeted h);
    in_message = λ h. still a s.log (v.in_message h);
    allowed = (may, v.allowed);
  }

  pub reply-IsProper : (t : Bytes) (s : SmtpdSocket) → IsProper s → IsProper (reply t s)
  reply-IsProper t s v = act-IsProper _ s tt v

  pub closed-IsProper : (s : SmtpdSocket) → IsProper s → IsProper (record s { closing = true })
  closed-IsProper s v = record {
    no_header = v.no_header;
    greeted = v.greeted;
    in_message = v.in_message;
    allowed = v.allowed;
  }

  pub answered-IsProper :
      (good bad : Bytes) (s : SmtpdSocket)
      → IsProper s
      → IsProper (if answers s.log then reply good s else reply bad s)
  answered-IsProper good bad s v = elim (Bool-cases (answers s.log)) [
    | inl a ↦ rw a (reply-IsProper good s v)
    | inr a ↦ rw a (reply-IsProper bad s v)
  ]
