-- ===== src/Effect/Ensures.antt =====
-- What holds whenever a step returns, with one rule for each way to put steps together.
use authenticator.Common.{◌≡◌, refl, sym, subst, Bool, true, false, Option, some, ◌⊎◌, inl, inr}
use authenticator.Errors.{Err}
use authenticator.Effect.{
  Outcome, ok, fail, Exec, Result, good, bad, pure, from_option, from_result, attempt, map_err,
  guard, ◌>>=◌, ◌>>◌, >>=-eq-ok, guard-eq-ok, map_err-eq-ok, from_option-eq-ok, from_result-eq-ok,
  attempt-eq-ok,
}

-- If the outcome is a value and a world, they satisfy `Q`.
abbrev pub Ensures : {W A : Type 0} → Outcome W A → (A → W → Type 0) → Type 0
Ensures {W} {A} o Q = (a : A) (w : W) → o ≡ ok a w → Q a w

pub Ensures-pure :
    {W A : Type 0} (Q : A → W → Type 0) (a : A) (w : W) → Q a w → Ensures (pure a w) Q
Ensures-pure {W} {A} Q a w q b v h = subst At h q
  where
    At : Outcome W A → Type 0
    At (ok a w) = Q a w
    At _ = Unit

module _ {W A : Type 0} {Q : A → W → Type 0} where
  pub Ensures-map_err :
      (f : Err → Err) (m : Exec W A) {w : W} → Ensures (m w) Q → Ensures (map_err f m w) Q
  Ensures-map_err f m k a v h = k a v (map_err-eq-ok f m h)

module _ {W A B : Type 0} {Q : B → W → Type 0} where
  pub Ensures-bind :
      (m : Exec W A) (f : A → Exec W B) {w : W}
      → ((a : A) (v : W) → m w ≡ ok a v → Ensures (f a v) Q)
      → Ensures ((m >>= f) w) Q
  Ensures-bind m f k b w' h = let (a, v, p, q) = >>=-eq-ok m f h in k a v p b w' q

  pub Ensures-wrapped :
      (g : Err → Err) (m : Exec W A) (f : A → Exec W B) {w : W}
      → ((a : A) (v : W) → m w ≡ ok a v → Ensures (f a v) Q)
      → Ensures ((map_err g m >>= f) w) Q
  Ensures-wrapped g m f k = Ensures-bind (map_err g m) f (λ a v p. k a v (map_err-eq-ok g m p))

  pub Ensures-result :
      (r : Result A) (f : A → Exec W B) {w : W}
      → ((a : A) → r ≡ good a → Ensures (f a w) Q)
      → Ensures ((from_result r >>= f) w) Q
  Ensures-result r f k = Ensures-bind (from_result r) f (λ a v p.
      let (found, same) = from_result-eq-ok r p in subst (λ u. Ensures (f a u) Q) same (k a found))

  pub Ensures-wrapped_result :
      (g : Err → Err) (r : Result A) (f : A → Exec W B) {w : W}
      → ((a : A) → r ≡ good a → Ensures (f a w) Q)
      → Ensures ((map_err g (from_result r) >>= f) w) Q
  Ensures-wrapped_result g r f k = Ensures-wrapped g (from_result r) f (λ a v p.
      let (found, same) = from_result-eq-ok r p in subst (λ u. Ensures (f a u) Q) same (k a found))

  pub Ensures-option :
      (e : Err) (o : Option A) (f : A → Exec W B) {w : W}
      → ((a : A) → o ≡ some a → Ensures (f a w) Q)
      → Ensures ((from_option e o >>= f) w) Q
  Ensures-option e o f k = Ensures-bind (from_option e o) f (λ a v p.
      let (found, same) = from_option-eq-ok e o p in
      subst (λ u. Ensures (f a u) Q) same (k a found))

module _ {W A B : Type 0} {Q : B → W → Type 0} where
  -- An error that the code looks at: the step returned, or it failed.
  pub Ensures-attempt :
      (m : Exec W A) (f : Result A → Exec W B) {w : W}
      → ((a : A) (v : W) → m w ≡ ok a v → Ensures (f (good a) v) Q)
      → ((e : Err) (v : W) → m w ≡ fail e v → Ensures (f (bad e) v) Q)
      → Ensures ((attempt m >>= f) w) Q
  Ensures-attempt m f {w} returned failed =
      Ensures-bind (attempt m) f (λ r v p. split r v (attempt-eq-ok m p))
    where
      split :
          (r : Result A) (v : W)
          → ((a : A) × (r ≡ good a) × (m w ≡ ok a v)) ⊎ ((e : Err) × (r ≡ bad e) × (m w ≡ fail e v))
          → Ensures (f r v) Q
      split r v (inl (a, same, h)) = subst (λ x. Ensures (f x v) Q) (sym same) (returned a v h)
      split r v (inr (e, same, h)) = subst (λ x. Ensures (f x v) Q) (sym same) (failed e v h)

module _ {W B : Type 0} {Q : B → W → Type 0} where
  pub Ensures-guard :
      (b : Bool) (e : Err) (k : Exec W B) {w : W}
      → (b ≡ true → Ensures (k w) Q)
      → Ensures ((guard b e >> k) w) Q
  Ensures-guard b e k {w} h =
      Ensures-bind (guard b e) (λ _. k)
        (λ a v p.
          let (passed, same) = guard-eq-ok b e p in subst (λ u. Ensures (k u) Q) same (h passed))

-- A last guard.
pub Ensures-guard_last :
    {W : Type 0} (Q : Unit {0} → W → Type 0) (b : Bool) (e : Err) {w : W}
    → (b ≡ true → Q tt w)
    → Ensures (guard b e w) Q
unfolding guard
Ensures-guard_last Q true e {w} h = Ensures-pure Q tt w (h refl)
Ensures-guard_last Q false e h = λ a w p. cc
