-- ===== src/Effect.antt =====
-- A Go function that reads or changes the outside world: it returns a value, returns an error, or
-- panics. What it did before an error stays done, so each outcome holds the world it left.
pub mod Ensures
use authenticator.Common.{
  String, ◌≡◌, refl, Bool, true, false, Option, none, some, ◌⊎◌, inl, inr, arith,
}
use authenticator.Errors.{Err, wrap}

pub data Outcome (W A : Type 0) : Type 0 where
  ok : A → W → Outcome W A
  fail : Err → W → Outcome W A
  panic : W → Outcome W A

abbrev pub Exec : Type 0 → Type 0 → Type 0
Exec W A = W → Outcome W A

-- A value beside an error, where the code looks at `err` itself.
pub data Result (A : Type 0) : Type 0 where
  good : A → Result A
  bad : Err → Result A

module _ {W A : Type 0} where
  abbrev pub pure : A → Exec W A
  pure a w = ok a w

  abbrev pub raise : Err → Exec W A
  raise e w = fail e w

  abbrev pub crash : Exec W A
  crash w = panic w

  unfoldable pub from_option : Err → Option A → Exec W A
  from_option e none = raise e
  from_option e (some a) = pure a

  unfoldable pub from_result : Result A → Exec W A
  from_result (good a) = pure a
  from_result (bad e) = raise e

  abbrev attempt_outcome : Outcome W A → Outcome W (Result A)
  attempt_outcome (ok a w) = ok (good a) w
  attempt_outcome (fail e w) = ok (bad e) w
  attempt_outcome (panic w) = panic w

  -- `x, err := m`, with `err` kept.
  unfoldable pub attempt : Exec W A → Exec W (Result A)
  attempt m w = attempt_outcome (m w)

  abbrev map_err_outcome : (Err → Err) → Outcome W A → Outcome W A
  map_err_outcome f (ok a w) = ok a w
  map_err_outcome f (fail e w) = fail (f e) w
  map_err_outcome f (panic w) = panic w

  unfoldable pub map_err : (Err → Err) → Exec W A → Exec W A
  map_err f m w = map_err_outcome f (m w)

  -- `fmt.Errorf("msg: %w", err)`.
  abbrev pub wrapped : String → Exec W A → Exec W A
  wrapped msg = map_err (wrap msg)

  -- `fmt.Errorf("%v: %w", err, other)`: the cause is only printed.
  abbrev pub recast : Err → Exec W A → Exec W A
  recast e' = map_err (λ _. wrap "%v" e')

-- `if !b { return err }`.
unfoldable pub guard : {W : Type 0} → Bool → Err → Exec W (Unit {0})
guard true e w = ok tt w
guard false e w = fail e w

module _ {W A B : Type 0} where
  abbrev continue : Outcome W A → (A → Exec W B) → Outcome W B
  continue (ok a w) f = f a w
  continue (fail e w) f = fail e w
  continue (panic w) f = panic w

  infixl 5 ◌>>=◌ ◌>>◌
  -- Opening this opens the other actions of this module too.
  unfoldable pub ◌>>=◌ : Exec W A → (A → Exec W B) → Exec W B
  unfolding from_option from_result attempt map_err guard
  ◌>>=◌ m f w = continue (m w) f

  abbrev pub ◌>>◌ : Exec W A → Exec W B → Exec W B
  m >> k = m >>= λ _. k

-- How a sequence of steps returns: each step has returned.
module _ {W A B : Type 0} where
  pub >>=-eq-ok :
      (m : Exec W A) (f : A → Exec W B) {w w' : W} {b : B}
      → (m >>= f) w ≡ ok b w'
      → (a : A) × (v : W) × (m w ≡ ok a v) × (f a v ≡ ok b w')
  unfolding ◌>>=◌
  >>=-eq-ok m f {w} {w'} {b} h = split (m w) h
    where
      split :
          (o : Outcome W A)
          → continue o f ≡ ok b w'
          → (a : A) × (v : W) × (o ≡ ok a v) × (f a v ≡ ok b w')
      split (ok a v) e = (a, v, refl, e)
      split (fail e v) h = cc
      split (panic v) h = cc

module _ {W : Type 0} where
  pub guard-eq-ok :
      (b : Bool) (e : Err) {w w' : W} {u : Unit {0}} → guard b e w ≡ ok u w' → (b ≡ true) × (w ≡ w')
  unfolding guard
  guard-eq-ok true e h = (refl, cc)
  guard-eq-ok false e h = cc

  pub guard->>= :
      {B : Type 0} (b : Bool) (e : Err) (k : Exec W B) {w w' : W} {x : B}
      → (guard b e >> k) w ≡ ok x w'
      → (b ≡ true) × (k w ≡ ok x w')
  unfolding ◌>>=◌
  guard->>= true e k h = (refl, h)
  guard->>= false e k h = cc

module _ {W A : Type 0} where
  pub map_err-eq-ok :
      (f : Err → Err) (m : Exec W A) {w w' : W} {a : A} → map_err f m w ≡ ok a w' → m w ≡ ok a w'
  unfolding map_err
  map_err-eq-ok f m {w} {w'} {a} h = split (m w) h
    where
      split : (o : Outcome W A) → map_err_outcome f o ≡ ok a w' → o ≡ ok a w'
      split (ok a v) e = e
      split (fail e v) h = cc
      split (panic v) h = cc

  pub from_option-eq-ok :
      (e : Err) (o : Option A) {w w' : W} {a : A}
      → from_option e o w ≡ ok a w'
      → (o ≡ some a) × (w ≡ w')
  unfolding from_option
  from_option-eq-ok e none h = cc
  from_option-eq-ok e (some x) h = (cc, cc)

  pub from_result-eq-ok :
      (r : Result A) {w w' : W} {a : A} → from_result r w ≡ ok a w' → (r ≡ good a) × (w ≡ w')
  unfolding from_result
  from_result-eq-ok (bad e) h = cc
  from_result-eq-ok (good x) h = (cc, cc)

  -- `attempt` returns what the step returned, or the error that it returned.
  pub attempt-eq-ok :
      (m : Exec W A) {w w' : W} {r : Result A}
      → attempt m w ≡ ok r w'
      → ((a : A) × (r ≡ good a) × (m w ≡ ok a w')) ⊎ ((e : Err) × (r ≡ bad e) × (m w ≡ fail e w'))
  unfolding attempt
  attempt-eq-ok m {w} {w'} {r} h = split (m w) h
    where
      split :
          (o : Outcome W A)
          → attempt_outcome o ≡ ok r w'
          → ((a : A) × (r ≡ good a) × (o ≡ ok a w')) ⊎ ((e : Err) × (r ≡ bad e) × (o ≡ fail e w'))
      split (ok a v) h = inl (a, cc, cc)
      split (fail e v) h = inr (e, cc, cc)
      split (panic v) h = cc
