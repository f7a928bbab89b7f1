-- ===== src/Token/Revocation.antt =====
-- Revoking a token, and invalidating the codes of older tokens, against later validations.
use authenticator.Common.{
  ◌*◌, ap, ℕ, ◌+◌, ◌≤◌, ◌<◌, ◌≡◌, ◌⊎◌, inl, inr, true, false, List, some, Text, is_empty, ltb,
  arith, Bool-cases, ltb_false→le,
}
use authenticator.Errors.{redis_nil}
use authenticator.Effect.{ok, fail, Exec, pure, ◌>>=◌}
use authenticator.Effect.Ensures.{Ensures, Ensures-bind, Ensures-pure, Ensures-wrapped}
use authenticator.Domain.{User, Token, TokenState, is_no_method, second, LoginHistory}
use authenticator.External.{flag, number, RedisValue, as_int64}
use authenticator.External.Laws.{Advances, IsMonotone, RedisModel}
use authenticator.Repository.{Entity, login_entity}
use authenticator.System.{System}
use authenticator.Token.Create.{
  TokenOption, configure_all, new_configuration, invalidation_key, invalidate_old_tokens, create,
}
use authenticator.Token.Create.Carried.{create-Created}
use authenticator.Token.Validate.{revocation_key, validate}
use authenticator.Token.Validate.Sound.{Invalidation, validate-Validated}
use authenticator.Token.Refresh.{revoke}

module _ {W : Type 0} (sys : System W) where
  Invalidation-advances :
      (t : Token) (w w' : W)
      → IsMonotone sys.ext
      → Invalidation sys t w w'
      → sys.ext.clock w ≤ sys.ext.clock w'
  Invalidation-advances t w w' monotone (inl (codeless, same)) =
      omega (arith, ap sys.ext.clock same)
  Invalidation-advances t w w' monotone (inr (inl missed)) = monotone.miss_advances _ w w' missed
  Invalidation-advances t w w' monotone (inr (inr (r, found, _))) =
      monotone.get_advances _ r w w' found

  -- The calls to storage that a revocation makes take time.
  pub record StorageAdvances : Type 0 where
    pub lookup_advances :
        (client : ℕ) (id : Text) → Advances sys.ext (sys.repos.login_by_token_id client id)
    pub begin_advances : (client : ℕ) → Advances sys.ext (sys.repos.new_with_transaction client)
    pub lock_advances :
        (client : ℕ) (id : Text) → Advances sys.ext (sys.repos.login_get_for_update client id)
    pub update_advances :
        (client : ℕ) (lh : LoginHistory) → Advances sys.ext (sys.repos.login_update client lh)
    -- A transaction around an operation that gives no time back.
    pub atomic_advances :
        (tx : ℕ) (op : Exec W Entity)
        → Advances sys.ext op
        → Advances sys.ext (sys.repos.with_atomic tx op)

  -- What a revocation does in its transaction.
  revoking-Advances :
      (tx : ℕ) (id : Text)
      → StorageAdvances
      → Advances sys.ext (
          sys.repos.login_get_for_update tx id >>= λ lh.
          sys.repos.login_update tx (record lh { is_revoked = true }) >>= λ lh'.
          pure (login_entity lh'))
  revoking-Advances tx id storage e w w' returned =
      let x : Ensures
          ((sys.repos.login_get_for_update tx id >>= λ lh.
              sys.repos.login_update tx (record lh { is_revoked = true }) >>= λ lh'.
              pure (login_entity lh'))
            w)
          (λ _ v. sys.ext.clock w ≤ sys.ext.clock v) =
        Ensures-bind _ _ λ lh v locked. Ensures-bind _ _ λ lh' v' updated.
          Ensures-pure (λ _ u. sys.ext.clock w ≤ sys.ext.clock u) _ v'
            (omega (
              arith,
              storage.lock_advances _ _ _ _ _ locked,
              storage.update_advances _ _ _ _ _ updated,
            )) in
      x e w' returned

  -- A revocation ends by storing its flag, not before it began.
  abbrev Stored : Text → W → W → Type 0
  Stored id w w' =
      (v : W) × (sys.ext.clock w ≤ sys.ext.clock v)
      × (sys.ext.redis_set (revocation_key id) flag sys.token_conf.token_expiry v ≡ ok tt w')

  revoke-Stored :
      (id : Text) (w w' : W) → StorageAdvances → revoke sys id w ≡ ok tt w' → Stored id w w'
  unfolding revoke
  revoke-Stored id w w' storage returned =
      let stores : Ensures (revoke sys id w) (λ _ v. Stored id w v) =
        Ensures-wrapped _ _ _ λ lh v found. Ensures-wrapped _ _ _ λ tx v' began.
          Ensures-wrapped _ _ _ λ entity u' committed. λ u v'' set. (
            u',
            omega (
              arith,
              storage.lookup_advances _ _ _ _ _ found,
              storage.begin_advances _ _ _ _ began,
              storage.atomic_advances _ _ (revoking-Advances tx id storage) _ _ _ committed,
            ),
            set,
          ) in
      stores tt w' returned

  module _ (monotone : IsMonotone sys.ext) (redis : RedisModel sys.ext) where
    -- A flag or a number that Redis holds cannot be missed before its deadline.
    misses_late :
        (key : Text) (x : RedisValue) (d : ℕ) (v v' : W)
        → redis.Holds key x d v
        → sys.ext.redis_get key v ≡ fail redis_nil v'
        → d ≤ sys.ext.clock v
    misses_late key x d v v' held missed = elim (Bool-cases (ltb (sys.ext.clock v) d)) [
      | inl early ↦ absurd (redis.get_hits key x d v v' held (ground arith) missed)
      | inr late ↦ ltb_false→le _ _ late
    ]

    -- Suppose a token was revoked, and its key in Redis was left alone until a validation. If the
    -- validation accepts a token of that ID, then the lifetime of a token has passed between the
    -- beginning of the revocation and the end of the validation.
    pub revoked_token_refused :
        (signed_token client_id : Text) (t : Token) (w w' v v' : W)
        → StorageAdvances
        → 0 < sys.token_conf.token_expiry
        → revoke sys t.id w ≡ ok tt w'
        → redis.Quiet (revocation_key t.id) w' v
        → validate sys signed_token client_id v ≡ ok t v'
        → sys.ext.clock w + sys.token_conf.token_expiry ≤ sys.ext.clock v'
    revoked_token_refused signed_token client_id t w w' v v' storage lasting revoked quiet
          accepted =
        let (stored, since, set) = revoke-Stored t.id w w' storage revoked in
        let p = validate-Validated sys signed_token client_id t v v' accepted in
        let key = revocation_key t.id in
        let d = sys.ext.clock stored + sys.token_conf.token_expiry in
        let held =
          redis.Quiet-Holds key flag d _ _
            (redis.Quiet-Holds key flag d _ _
              (redis.set-Holds key flag sys.token_conf.token_expiry tt stored w' lasting set) quiet)
            (redis.jwt_quiet key _ _ _ _ _ p.unpacked.parses) in
        omega (
          arith,
          misses_late key flag d _ _ held p.current.unrevoked,
          monotone.miss_advances _ _ _ p.current.unrevoked,
          Invalidation-advances t _ _ monotone p.current.valid,
        )

    -- A token that was created for a new address on the basis of an older one stored its own time.
    created_stores :
        (user : User) (state : TokenState) (options : List TokenOption) (old t : Token) (w w' : W)
        → (configure_all options new_configuration).refreshable_token ≡ some old
        → is_no_method (configure_all options new_configuration).delivery_method ≡ false
        → is_empty (configure_all options new_configuration).delivery_address ≡ false
        → create sys user state options w ≡ ok t w'
        → (v : W) × (t.issued_at * second ≤ sys.ext.clock v)
          × (sys.ext.redis_set
                (invalidation_key t.id)
                (number t.issued_at)
                sys.token_conf.token_expiry
                v
              ≡ ok tt w')
    unfolding invalidate_old_tokens
    created_stores user state options old t w w' based chosen asked created =
        let c = create-Created sys user state options t w w' created in
        (
          sys.ext.tick (sys.ext.tick c.w₄),
          omega (arith, c.issued, monotone.tick_advances (sys.ext.tick c.w₄)),
          rw (based, chosen, asked) at c.invalidates,
        )

    -- Suppose a code was created for an address that was asked for, on the basis of an older token,
    -- and the key in Redis was left alone until a validation. If the validation accepts a token of
    -- the same ID that holds a code and was issued in an earlier second, then the lifetime of a
    -- token has passed since the new token was issued.
    pub old_code_refused :
        (user : User) (state : TokenState) (options : List TokenOption) (old t : Token)
        (signed_token client_id : Text) (s : Token) (w w' v v' : W)
        → 0 < sys.token_conf.token_expiry
        → (configure_all options new_configuration).refreshable_token ≡ some old
        → is_no_method (configure_all options new_configuration).delivery_method ≡ false
        → is_empty (configure_all options new_configuration).delivery_address ≡ false
        → create sys user state options w ≡ ok t w'
        → redis.Quiet (invalidation_key t.id) w' v
        → validate sys signed_token client_id v ≡ ok s v'
        → s.id ≡ t.id
        → is_empty s.code_hash ≡ false
        → s.issued_at < t.issued_at
        → t.issued_at * second + sys.token_conf.token_expiry ≤ sys.ext.clock v'
    old_code_refused user state options old t signed client s w w' v v' lasting based chosen asked
          created quiet accepted same coded older =
        let (stored, since, set) =
          created_stores user state options old t w w' based chosen asked created in
        let p = validate-Validated sys signed client s v v' accepted in
        let key = invalidation_key t.id in
        let x = number t.issued_at in
        let d = sys.ext.clock stored + sys.token_conf.token_expiry in
        let held =
          redis.Quiet-Holds key x d _ _
            (redis.Quiet-Holds key x d _ _
              (redis.Quiet-Holds key x d _ _
                (redis.set-Holds key x sys.token_conf.token_expiry tt stored w' lasting set) quiet)
              (redis.jwt_quiet key _ _ _ _ _ p.unpacked.parses))
            (redis.miss_quiet key _ _ _ p.current.unrevoked) in
        let late : d ≤ sys.ext.clock p.current.checked =
          elim (the_check s t _ _ same coded p.current.valid) [
            | inl missed ↦ misses_late key x d _ _ held missed
            | inr (r, found, recent) ↦ elim (Bool-cases (ltb (sys.ext.clock p.current.checked) d)) [
              | inl early ↦
                  let e = redis.get_value key x r d _ _ held (ground arith) found in
                  absurd (omega (arith, ap as_int64 e))
              | inr late ↦ ltb_false→le _ _ late
            ]
          ] in
        omega (arith, late, Invalidation-advances s _ _ monotone p.current.valid)
      where
        the_check :
            (s t : Token) (u u' : W)
            → s.id ≡ t.id
            → is_empty s.code_hash ≡ false
            → Invalidation sys s u u'
            → (sys.ext.redis_get (invalidation_key t.id) u ≡ fail redis_nil u')
              ⊎ ((r : RedisValue) × (sys.ext.redis_get (invalidation_key t.id) u ≡ ok r u')
                  × (as_int64 r ≤ s.issued_at))
        the_check s t u u' same coded (inl (codeless, _)) = absurd (cc)
        the_check s t u u' same coded (inr check) = rw same at check
