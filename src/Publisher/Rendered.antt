-- ===== src/Publisher/Rendered.antt =====
-- What the recipient of a code reads.
use authenticator.Common.{
  ℕ, ◌+◌, ◌≡◌, refl, ◌⊎◌, inl, inr, [], ◌∷◌, ◌++◌, Text, codes, Free, false, is_empty, arith,
}
use authenticator.Effect.{good}
use authenticator.Domain.{
  DeliveryMethod, phone, email, no_method, other_method, MessageType, otp_address, otp_resend,
  otp_login, otp_signup,
}
use authenticator.Publisher.{
  Posting, contains, replace, subjects, template, fill, set_message_fields,
}

-- A line of a mail begins with a line feed and three tabulators, and the last has two.
abbrev margin : Text
margin = 10 ∷ 9 ∷ 9 ∷ 9 ∷ []

abbrev last_line : Text
last_line = 10 ∷ 9 ∷ 9 ∷ []

abbrev instruction : Text → Text
instruction s = codes "</strong></span>" ++ (margin ++ (s ++ last_line))

-- What a message says before its code.
abbrev lead : MessageType → DeliveryMethod → Text
lead otp_login phone = codes "Your login code is "
lead otp_signup phone = codes "Your signup code is "
lead otp_resend phone = codes "Youre new code is "
lead otp_address phone = codes "Use the code "
lead otp_resend email =
    margin ++ (codes "<span>Here's your new code</span>" ++ (margin ++ codes "<p>Code: <strong>"))
lead _ _ = margin ++ codes "<span>Code: <strong>"

-- What it says after its code.
abbrev trail : MessageType → DeliveryMethod → Text
trail otp_address phone = codes " to verify your new contact address"
trail otp_login email = instruction (codes "<p>Enter the code above to login</p>")
trail otp_signup email = instruction (codes "<p>Enter the code above to signup</p>")
trail otp_resend email = codes "</strong></p>" ++ last_line
trail otp_address email =
    instruction (codes "<p>Enter the code above to verify your new contact address</p>")
trail _ _ = []

abbrev pub reads : MessageType → DeliveryMethod → Text → Text
reads t d code = lead t d ++ (code ++ trail t d)

-- A text without braces.
abbrev pub Braceless : Text → Type 0
Braceless s = Free b'{' s × Free b'}' s

contains-append :
    (b : ℕ) (c s : Text) → Free b c → contains (b ∷ b ∷ []) (c ++ s) ≡ contains (b ∷ b ∷ []) s
unfolding contains
contains-append b [] s h = refl
contains-append b (x ∷ c) s (ne, h) = ground (arith, contains-append b c s h)

-- The templates have the code where it is read.
fill-template :
    (t : MessageType) (d : DeliveryMethod) (code : Text)
    → (d ≡ phone) ⊎ (d ≡ email)
    → fill ((codes "code", code) ∷ []) (template t d) ≡ reads t d code
unfolding fill replace template
fill-template otp_login phone code h = refl
fill-template otp_signup phone code h = refl
fill-template otp_resend phone code h = refl
fill-template otp_address phone code h = refl
fill-template otp_login email code h = refl
fill-template otp_signup email code h = refl
fill-template otp_resend email code h = refl
fill-template otp_address email code h = refl
fill-template t no_method code h = elim h [ inl e ↦ cc | inr e ↦ cc ]
fill-template t (other_method m) code h = elim h [ inl e ↦ cc | inr e ↦ cc ]

contains_open-reads :
    (t : MessageType) (d : DeliveryMethod) (code : Text)
    → (d ≡ phone) ⊎ (d ≡ email)
    → Free b'{' code
    → contains (codes "{{") (reads t d code) ≡ false
unfolding contains
contains_open-reads otp_login phone code m h = contains-append _ code _ h
contains_open-reads otp_signup phone code m h = contains-append _ code _ h
contains_open-reads otp_resend phone code m h = contains-append _ code _ h
contains_open-reads otp_address phone code m h = contains-append _ code _ h
contains_open-reads otp_login email code m h = contains-append _ code _ h
contains_open-reads otp_signup email code m h = contains-append _ code _ h
contains_open-reads otp_resend email code m h = contains-append _ code _ h
contains_open-reads otp_address email code m h = contains-append _ code _ h
contains_open-reads t no_method code m h = elim m [ inl e ↦ cc | inr e ↦ cc ]
contains_open-reads t (other_method m) code n h = elim n [ inl e ↦ cc | inr e ↦ cc ]

contains_close-reads :
    (t : MessageType) (d : DeliveryMethod) (code : Text)
    → (d ≡ phone) ⊎ (d ≡ email)
    → Free b'}' code
    → contains (codes "}}") (reads t d code) ≡ false
unfolding contains
contains_close-reads otp_login phone code m h = contains-append _ code _ h
contains_close-reads otp_signup phone code m h = contains-append _ code _ h
contains_close-reads otp_resend phone code m h = contains-append _ code _ h
contains_close-reads otp_address phone code m h = contains-append _ code _ h
contains_close-reads otp_login email code m h = contains-append _ code _ h
contains_close-reads otp_signup email code m h = contains-append _ code _ h
contains_close-reads otp_resend email code m h = contains-append _ code _ h
contains_close-reads otp_address email code m h = contains-append _ code _ h
contains_close-reads t no_method code m h = elim m [ inl e ↦ cc | inr e ↦ cc ]
contains_close-reads t (other_method m) code n h = elim n [ inl e ↦ cc | inr e ↦ cc ]

is_empty-template :
    (t : MessageType) (d : DeliveryMethod)
    → (d ≡ phone) ⊎ (d ≡ email)
    → is_empty (template t d) ≡ false
unfolding template
is_empty-template otp_login phone h = refl
is_empty-template otp_login email h = refl
is_empty-template otp_signup phone h = refl
is_empty-template otp_signup email h = refl
is_empty-template otp_resend phone h = refl
is_empty-template otp_resend email h = refl
is_empty-template otp_address phone h = refl
is_empty-template otp_address email h = refl
is_empty-template t no_method h = elim h [ inl e ↦ cc | inr e ↦ cc ]
is_empty-template t (other_method m) h = elim h [ inl e ↦ cc | inr e ↦ cc ]

-- A message by phone or email, whose only variable is a code without braces and whose content is not
-- set, is accepted: its content is the text for its type and method with the code in its place, its
-- subject is the one for its type, and it expires when the publisher's time from now is over.
pub renders_code :
    (now expire_after : ℕ) (m : Posting) (code : Text)
    → m.content ≡ []
    → m.vars ≡ (codes "code", code) ∷ []
    → (m.delivery ≡ phone) ⊎ (m.delivery ≡ email)
    → Braceless code
    → set_message_fields now expire_after m
      ≡ good (record m {
        content = reads m.type m.delivery code;
        subject = subjects m.type;
        expires_at = now + expire_after;
      })
unfolding set_message_fields
renders_code now expire_after m code blank only method (open_free, close_free) =
    rw
      (
        blank,
        is_empty-template m.type m.delivery method,
        only,
        fill-template m.type m.delivery code method,
        contains_open-reads m.type m.delivery code method open_free,
        contains_close-reads m.type m.delivery code method close_free,
      )
      refl
