-- ===== src/Publisher/CodeMessages.antt =====
-- The messages that carry the codes of tokens.
use authenticator.Common.{
  ℕ, ◌+◌, ◌≤◌, ◌≡◌, refl, ◌⊎◌, inl, inr, false, List, [], ◌∷◌, Text, codes, All, Free, arith, Bool,
  ltb, none, some, if◌then◌else◌,
}
use authenticator.Effect.{ok, good}
use authenticator.Effect.Ensures.{Ensures, Ensures-wrapped, Ensures-pure}
use authenticator.Domain.{
  User, Token, TokenState, DeliveryMethod, phone, email, is_no_method, MessageType,
}
use authenticator.System.{System}
use authenticator.MessageQueue.{Queue, publish, ready_at, send}
use authenticator.Crypto.{sample_of}
use authenticator.Crypto.Sample.{IsIn, random_string-IsIn}
use authenticator.Otp.{otp_code}
use authenticator.Token.Create.{TokenOption, configure_all, new_configuration, create}
use authenticator.Token.Create.Carried.{create-Created}
use authenticator.Token.Create.Delivery.{gen_otp_and_hash-method}
use authenticator.Publisher.{Posting, to_posting, subjects, set_message_fields}
use authenticator.Publisher.Rendered.{reads, renders_code}

digits_below : (c : ℕ) → IsIn (codes "0123456") c → c ≤ 54
digits_below c h = ground arith

Free-digits : (b : ℕ) (s : Text) → 55 ≤ b → All (IsIn (codes "0123456")) s → Free b s
Free-digits b [] h all = tt
Free-digits b (c ∷ s) h (digit, all) =
    ((λ same. omega (arith, digits_below c digit)), Free-digits b s h all)

method_given : (m : DeliveryMethod) → (m ≡ phone) ⊎ (m ≡ email) → is_no_method m ≡ false
method_given m (inl e) = rw e refl
method_given m (inr e) = rw e refl

module _ {W : Type 0} (sys : System W) where
  otp_code-digits :
      (address : Text) (m : DeliveryMethod) (w : W)
      → Ensures (otp_code sys address m w) (λ p _. All (IsIn (codes "0123456")) p.0)
  unfolding otp_code sample_of
  otp_code-digits address m w = Ensures-wrapped _ _ _ λ c v drawn.
      Ensures-wrapped _ _ _ λ h v' hashed.
        Ensures-pure (λ p _. All (IsIn (codes "0123456")) p.0) (c, h) v'
          (random_string-IsIn sys.ext sys.otp_conf.code_length (codes "0123456" ∷ []) w
            (omega arith) c v drawn)

  -- The message about a token's code, as the handlers make it.
  abbrev pub code_message : MessageType → DeliveryMethod → Token → Text → Posting
  code_message type m t address =
      to_posting (record { type = type; delivery = m; code = t.code; address = address })

  -- The template for type and method, filled with the code, and the subject for the type.
  code-set :
      (user : User) (state : TokenState) (options : List TokenOption) (t : Token)
      (type : MessageType) (address : Text) (now expire_after : ℕ) (w w' : W)
      → ((configure_all options new_configuration).delivery_method ≡ phone)
        ⊎ ((configure_all options new_configuration).delivery_method ≡ email)
      → create sys user state options w ≡ ok t w'
      → set_message_fields now expire_after
          (code_message type (configure_all options new_configuration).delivery_method t address)
        ≡ good
            (record (code_message type
              (configure_all options new_configuration).delivery_method
              t
              address) {
                content =
                    reads type (configure_all options new_configuration).delivery_method t.code;
                subject = subjects type;
                expires_at = now + expire_after;
              })
  code-set user state options t type address now expire_after w w' method created =
      let conf = configure_all options new_configuration in
      let c = create-Created sys user state options t w w' created in
      let (nonempty, sent) =
        gen_otp_and_hash-method sys conf user c.w₂ (t.code, t.code_hash) c.w₃
          (method_given conf.delivery_method method) c.otp in
      let digits = otp_code-digits _ conf.delivery_method c.w₂ (t.code, t.code_hash) c.w₃ sent in
      renders_code now expire_after (code_message type conf.delivery_method t address) t.code refl
        refl method
        (Free-digits _ t.code (omega arith) digits, Free-digits _ t.code (omega arith) digits)

  -- The message about a code as it waits in the queue.
  abbrev pub queued_code : MessageType → DeliveryMethod → Token → Text → ℕ → Posting
  queued_code type m t address expires_at = record (code_message type m t address) {
    content = reads type m t.code;
    subject = subjects type;
    expires_at = expires_at;
    delivery_attempts = 1;
  }

  -- A message of any type about the code of a token that was created with a method, phone or email, is
  -- refused exactly if its address fails the publisher's validator. If it is not refused, it is added
  -- to the queue, to be offered at once, as its first attempt: the template for type and method is
  -- filled with the code, the subject is that of the type, and the message expires after the
  -- publisher's time.
  pub created_code_renders :
      (user : User) (state : TokenState) (options : List TokenOption) (t : Token)
      (type : MessageType) (address : Text) (valid : DeliveryMethod → Text → Bool)
      (expire_after jitter : ℕ) (q : Queue) (w w' : W)
      → ((configure_all options new_configuration).delivery_method ≡ phone)
        ⊎ ((configure_all options new_configuration).delivery_method ≡ email)
      → create sys user state options w ≡ ok t w'
      → send valid expire_after q jitter
          (code_message type (configure_all options new_configuration).delivery_method t address)
        ≡ (if valid (configure_all options new_configuration).delivery_method address
            then some (record q {
              waiting =
                  (
                    queued_code type
                        (configure_all options new_configuration).delivery_method
                        t
                        address
                        (q.clock + expire_after),
                    q.clock,
                  )
                  ∷ q.waiting;
            })
            else none)
  unfolding send publish ready_at
  created_code_renders user state options t type address valid expire_after jitter q w w' method
        created =
      let set =
        code-set user state options t type address q.clock expire_after w w' method created in
      let lasting : ltb (q.clock + expire_after) q.clock ≡ false = ground arith in
      rw set (rw lasting refl)
