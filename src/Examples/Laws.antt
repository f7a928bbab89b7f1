-- ===== src/Examples/Laws.antt =====
-- The world of the examples satisfies what the theorems assume of libraries.
use authenticator.Common.{
  ℕ, zero, suc, ◌+◌, ◌≤◌, ◌<◌, ◌≡◌, ◌≢◌, refl, sym, ◌∙◌, ap, arith, Bool, true, Option, none, some,
  Text, text_eq, text_eq_refl, length, Free, le→leb, ltb, ◌⊎◌, subst, if◌then◌else◌,
}
use authenticator.Errors.{redis_nil}
use authenticator.Effect.{Outcome, ok, fail, panic, Result, good, bad}
use authenticator.Domain.{DeliveryMethod, Token, to_claims, unix}
use authenticator.External.{RedisValue, hmac, ParsedJwt}
use authenticator.External.Laws.{
  IsMonotone, IsBase64, HasOtpJson, IsCipher, RedisModel, IsJwt, HasRefreshJson, Advances,
}
use authenticator.Repository.{Entity}
use authenticator.Repository.Atomic.{IsAtomic}
use authenticator.Token.Revocation.{StorageAdvances}
use authenticator.Http.RateLimit.Bound.{CounterModel}
use authenticator.Examples.Codec.{
  to_text, from_text, from_text-to_text, otp_hash_codec, refresh_token_codec, token_codec,
}
use authenticator.Examples.World.{
  World, put, count, found, ones, jwt_codec, checked, externals, storage, system, committed,
  looked_up,
}

-- A step that returns, and leaves the world as it is.
same_world :
    {A : Type 0} {a b : A} {w w' : World}
    → ◌≡◌ {A = Outcome World A} (ok a w) (ok b w')
    → w.clock ≤ w'.clock
same_world h = let e = world_of h in rw e (omega arith)
  where
    world_of :
        {A : Type 0} {a b : A} {w w' : World}
        → ◌≡◌ {A = Outcome World A} (ok a w) (ok b w')
        → w ≡ w'
    world_of h = cc

found-keeps :
    (w w' : World) (o : Option (RedisValue × ℕ)) (x : RedisValue) → found w o ≡ ok x w' → w ≡ w'
found-keeps w w' none x h = cc
found-keeps w w' (some e) x h = ground arith

found-misses : (w w' : World) (o : Option (RedisValue × ℕ)) → found w o ≡ fail redis_nil w' → w ≡ w'
found-misses w w' none h = cc
found-misses w w' (some e) h = ground arith

pub monotone : IsMonotone externals
monotone = record {
  tick_advances = λ w. omega arith;
  rand_advances = λ n a w w' h. same_world h;
  totp_advances = λ c s a w w' h. same_world h;
  miss_advances = λ k w w' h. rw (found-misses w w' (w.store k) h) (omega arith);
  get_advances = λ k x w w' h. rw (found-keeps w w' (w.store k) x h) (omega arith);
  set_advances = λ k v ttl u w w' h. same_world h;
}

pub base64 : IsBase64 externals
base64 = record {
  url_decode-encode = λ s. refl;
  decode-encode = λ s. refl;
  encode_grows = λ s. omega arith;
}

from_some : {A : Type 0} {a b : A} → some a ≡ some b → a ≡ b
from_some h = cc

pub otp_json : (address : Text) (m : DeliveryMethod) → HasOtpJson externals address m
otp_json address m c e b h = rw (← from_some h) (from_text-to_text otp_hash_codec _)

pub refresh_json : HasRefreshJson externals
refresh_json r b printable h = rw (← from_some h) (from_text-to_text refresh_token_codec _)

length-ones : (n : ℕ) → length (ones n) ≡ n
length-ones zero = refl
length-ones (suc n) = ap suc (length-ones n)

ones-Free : (n : ℕ) → Free b':' (ones n)
ones-Free zero = tt
ones-Free (suc n) = (λ h. absurd (omega arith), ones-Free n)

value_of :
    {A : Type 0} {a b : A} {w w' : World} → ◌≡◌ {A = Outcome World A} (ok a w) (ok b w') → a ≡ b
value_of h = cc

pub cipher : IsCipher externals
cipher = record {
  cfb_decrypt-encrypt = λ key iv s. refl;
  rand_length = λ n bs w w' h. ap length (sym (value_of h)) ∙ length-ones n;
  atoi-itoa = λ n. ap some (length-ones n);
  itoa-Free = ones-Free;
}

found_in_time : (w : World) (v : RedisValue) (d : ℕ) → w.clock < d → found w (some (v, d)) ≡ ok v w
found_in_time w v d h = ground arith

put-here : {A : Type 0} (k : Text) (a : A) (f : Text → A) → put k a f k ≡ a
put-here k a f = rw (text_eq_refl k) refl

stored-value :
    (w w' : World) (v x : RedisValue) (d : ℕ)
    → w.store ≡ w.store
    → w.clock < d
    → found w (some (v, d)) ≡ ok x w'
    → x ≡ v
stored-value w w' v x d _ h e = sym (value_of (sym (found_in_time w v d h) ∙ e))

checked-store :
    (w w' : World) (o : Option (Text × Token)) (key : Result Text) (p : ParsedJwt)
    → checked w o key ≡ ok p w'
    → w ≡ w'
checked-store w w' none key p h = cc
checked-store w w' (some q) (bad e) p h = cc
checked-store w w' (some q) (good s) p h = ground arith

same : {A : Type 0} {a b : A} {w w' : World} → ◌≡◌ {A = Outcome World A} (ok a w) (ok b w') → w ≡ w'
same h = cc

pub redis : RedisModel externals
redis = record {
  Holds = λ k v d w. w.store k ≡ some (v, d);
  Quiet = λ k w w'. w.store k ≡ w'.store k;
  Quiet-Holds = λ k v d w w' h q. sym q ∙ h;
  Absent = λ k w. w.store k ≡ none;
  Quiet-Absent = λ k w w' h q. sym q ∙ h;
  absent_misses = λ k w h. (w, ap (found w) h);
  tick_quiet = λ k w. refl;
  totp_quiet = λ k c s b w w' h. ap (λ u. u.store k) (same h);
  miss_quiet = λ k j w w' h. ap (λ u. u.store k) (found-misses w w' (w.store j) h);
  jwt_quiet = λ k s key p w w' h.
      ap (λ u. u.store k) (checked-store w w' (from_text jwt_codec s) (key hmac) p h);
  set-Holds = λ k v ttl u w w' h e.
      ap (λ u. u.store k) (sym (same e)) ∙ put-here k (some (v, w.clock + ttl)) w.store;
  get_value =
      λ k v x d w w' holds h e. stored-value w w' v x d refl h (ap (found w) (sym holds) ∙ e);
  get_hits = λ k v d w w' holds h e. hits w w' v d h (ap (found w) (sym holds) ∙ e);
}
  where
    hits :
        (w w' : World) (v : RedisValue) (d : ℕ)
        → w.clock < d
        → found w (some (v, d)) ≢ fail redis_nil w'
    hits w w' v d h e = absurd (clash (sym (found_in_time w v d h) ∙ e))
      where
        clash : ok v w ≡ fail redis_nil w' → ⊥
        clash e = cc

-- What the model says of two worlds whose stores agree, and of one without a key.
pub quiet : (k : Text) (w w' : World) → w.store k ≡ w'.store k → redis.Quiet k w w'
unfolding redis
quiet k w w' h = h

pub absent : (k : Text) (w : World) → w.store k ≡ none → redis.Absent k w
unfolding redis
absent k w h = h

-- From one world to another no counter reaches its deadline: the one that is there in the first is gone
-- already or still there, and the one in the second is still there.
abbrev pub Undisturbed : Text → World → World → Type 0
Undisturbed k w w' =
    (((w.counts k).1 ≤ w.clock) ⊎ (w'.clock < (w.counts k).1)) × (w'.clock < (w'.counts k).1)

live_on :
    (c d now : ℕ)
    → (d ≤ now) ⊎ (suc now < d)
    → (if ltb (suc now) d then c else 0) ≡ (if ltb now d then c else 0)
live_on c d now h = ground arith

shown : (c d now : ℕ) → now < d → (if ltb now d then c else 0) ≡ c
shown c d now h = ground arith

bumped : Text → ℕ → World → World
bumped k e w = record w { counts = put k (suc (count k w), w.clock + e) w.counts }

counted :
    (k : Text) (e : ℕ) (w : World)
    → Undisturbed k w (bumped k e (externals.tick w))
    → (suc (count k (externals.tick w)) ≡ count k w + 1)
      × (count k (bumped k e (externals.tick w)) ≡ suc (count k (externals.tick w)))
unfolding bumped
counted k e w (old, new) =
    let here = put-here k (suc (count k (externals.tick w)), suc w.clock + e) w.counts in
    (
      omega (arith, live_on (w.counts k).0 (w.counts k).1 w.clock old),
      rw here (shown _ _ (suc w.clock) (rw here at new)),
    )

pub counter : CounterModel system
unfolding bumped
counter = record {
  count = count;
  Lives = Undisturbed;
  incr_counts = λ k e n w w' h lives.
      let (next, left) = counted k e w (subst (Undisturbed k w) (sym (same h)) lives) in
      (sym (value_of h) ∙ next, subst (λ u. count k u ≡ n) (same h) (left ∙ value_of h));
}

pub lives : (k : Text) (w w' : World) → Undisturbed k w w' → counter.Lives k w w'
unfolding counter
lives k w w' h = h

checked-accepts :
    (w : World) (secret : Text) (t : Token)
    → t.issued_at ≤ unix w.clock
    → unix w.clock ≤ t.expires_at
    → checked w (some (secret, t)) (good secret)
      ≡ ok (record { claims = some (to_text token_codec t); valid = true }) w
checked-accepts w secret t issued h =
    rw
      (
        text_eq_refl secret,
        le→leb t.issued_at (unix w.clock) issued,
        le→leb (unix w.clock) t.expires_at h,
      )
      refl

pub jwt : (t : Token) → IsJwt externals t
jwt t secret s key w signed is issued h = (
  to_text token_codec (to_claims t),
  to_text token_codec (to_claims t),
  w,
  ap (λ x. checked w (from_text jwt_codec x) (key hmac)) (sym (from_some signed))
      ∙ ap (λ o. checked w o (key hmac)) (from_text-to_text jwt_codec (secret, to_claims t))
      ∙ ap (checked w (some (secret, to_claims t))) is
      ∙ checked-accepts w secret (to_claims t) issued h,
  refl,
  from_text-to_text token_codec (to_claims t),
)

pub ulid : Advances externals externals.ulid_new
ulid s w w' h = same_world h

committed-ran :
    (w w' : World) (o : Outcome World Entity) (e : Entity) → committed w o ≡ ok e w' → o ≡ ok e w'
committed-ran w w' (fail e₁ v) e h = cc
committed-ran w w' (panic v) e h = cc
committed-ran w w' (ok e₁ v) e h = h

pub atomic : IsAtomic storage
atomic = record { atomic_ran = λ c op e w w' h. (w, w', committed-ran w w' (op w) e h) }

looked_up-keeps :
    {A : Type 0} (w w' : World) (o : Option A) (p : A → Bool) (a : A)
    → looked_up w o p ≡ ok a w'
    → w ≡ w'
looked_up-keeps w w' none p a h = cc
looked_up-keeps w w' (some b) p a h = ground arith

pub storage_advances : StorageAdvances system
storage_advances = record {
  lookup_advances = λ c id l w w' h.
      rw (looked_up-keeps w w' w.login (λ l. text_eq l.token_id id) l h) (omega arith);
  begin_advances = λ c n w w' h. same_world h;
  lock_advances = λ c id l w w' h.
      rw (looked_up-keeps w w' w.login (λ l. text_eq l.token_id id) l h) (omega arith);
  update_advances = λ c l a w w' h. same_world h;
  atomic_advances = λ tx op advances e w w' h. advances e w w' (committed-ran w w' (op w) e h);
}
