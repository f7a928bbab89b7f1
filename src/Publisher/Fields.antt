-- ===== src/Publisher/Fields.antt =====
-- What the publisher leaves of a message.
use authenticator.Common.{
  ℕ, ◌+◌, ◌≡◌, Bool, true, false, Text, codes, ap, ◌⊎◌, inl, inr, ◌||◌, is_empty, if◌then◌else◌,
}
use authenticator.Effect.{Result, good}
use authenticator.Publisher.{
  Posting, contains, filled, from_template, with_content, set_message_fields,
}

-- The attempts and the expiry of one message are those of another.
abbrev pub SameTimes : Posting → Posting → Type 0
SameTimes m m' = (m'.delivery_attempts ≡ m.delivery_attempts) × (m'.expires_at ≡ m.expires_at)

chosen-eq-good :
    {A : Type 0} (b : Bool) (x y : Result A) {a : A}
    → (if b then x else y) ≡ good a
    → (x ≡ good a) ⊎ (y ≡ good a)
chosen-eq-good true x y h = inl h
chosen-eq-good false x y h = inr h

good-injective : {A : Type 0} {a b : A} → good a ≡ good b → b ≡ a
good-injective h = cc

filled-SameTimes : (m m' : Posting) (s : Text) → filled m s ≡ good m' → SameTimes m m'
filled-SameTimes m m' s h =
    elim (chosen-eq-good (contains (codes "{{") s || contains (codes "}}") s) _ _ h) [
      | inl e ↦ cc
      | inr e ↦ (
        ap (λ n. n.delivery_attempts) (good-injective e),
        ap (λ n. n.expires_at) (good-injective e),
      )
    ]

from_template-SameTimes : (m m' : Posting) (s : Text) → from_template m s ≡ good m' → SameTimes m m'
from_template-SameTimes m m' s h = elim (chosen-eq-good (is_empty s) _ _ h) [
  | inl e ↦ cc
  | inr e ↦ filled-SameTimes m m' _ e
]

with_content-SameTimes : (m m' : Posting) → with_content m ≡ good m' → SameTimes m m'
with_content-SameTimes m m' h = elim (chosen-eq-good (is_empty m.content) _ _ h) [
  | inl e ↦ from_template-SameTimes m m' _ e
  | inr e ↦
      (ap (λ n. n.delivery_attempts) (good-injective e), ap (λ n. n.expires_at) (good-injective e))
]

pub set_message_fields-SameTimes :
    (now expire_after : ℕ) (m m' : Posting)
    → set_message_fields now expire_after m ≡ good m'
    → SameTimes (record m { expires_at = now + expire_after }) m'
unfolding set_message_fields
set_message_fields-SameTimes now expire_after m m' h = with_content-SameTimes _ m' h
