-- ===== src/Otp/Secrets.antt =====
-- internal/otp/service.go: versioned secrets.
use authenticator.Common.{
  ℕ, ◌≤◌, ◌≡◌, ◌≢◌, refl, sym, ◌∙◌, subst, inl, inr, ◌⊎◌, List, [], ◌∷◌, All, Any, is_empty, leb,
  Bool-cases, true, false, arith,
}
use authenticator.Effect.{good}
use authenticator.System.{Secret}
use authenticator.Otp.{latest_from, latest_secret, no_secret, find_version, secret_by_version}

abbrev pub IsAmong : Secret → List Secret → Type 0
IsAmong s ss = Any (λ t. t ≡ s) ss

abbrev pub DistinctVersions : List Secret → Type 0
DistinctVersions [] = Unit
DistinctVersions (s ∷ ss) = All (λ t. t.version ≢ s.version) ss × DistinctVersions ss

latest_from_newer :
    (best s : Secret) (ss : List Secret)
    → leb best.version s.version ≡ true
    → latest_from best (s ∷ ss) ≡ latest_from s ss
unfolding latest_from
latest_from_newer best s ss h = rw h

latest_from_older :
    (best s : Secret) (ss : List Secret)
    → leb best.version s.version ≡ false
    → latest_from best (s ∷ ss) ≡ latest_from best ss
unfolding latest_from
latest_from_older best s ss h = rw h

latest_from_nil : (best : Secret) → latest_from best [] ≡ best
unfolding latest_from
latest_from_nil best = refl

-- What the loop returns is its start or among the list, and has the highest version.
abbrev IsLatest : Secret → List Secret → Secret → Type 0
IsLatest best ss r =
    (best.version ≤ r.version) × All (λ t. t.version ≤ r.version) ss × ((r ≡ best) ⊎ IsAmong r ss)

IsLatest-newer :
    (best s r : Secret) (ss : List Secret)
    → leb best.version s.version ≡ true
    → IsLatest s ss r
    → IsLatest best (s ∷ ss) r
IsLatest-newer best s r ss h (low, below, inl e) = (ground arith, (low, below), inr (inl (sym e)))
IsLatest-newer best s r ss h (low, below, inr m) = (ground arith, (low, below), inr (inr m))

IsLatest-older :
    (best s r : Secret) (ss : List Secret)
    → leb best.version s.version ≡ false
    → IsLatest best ss r
    → IsLatest best (s ∷ ss) r
IsLatest-older best s r ss h (low, below, inl e) = (low, (ground arith, below), inl e)
IsLatest-older best s r ss h (low, below, inr m) = (low, (ground arith, below), inr (inr m))

latest_from-IsLatest : (best : Secret) (ss : List Secret) → IsLatest best ss (latest_from best ss)
latest_from-IsLatest best [] = rw latest_from_nil (omega arith, tt, inl refl)
latest_from-IsLatest best (s ∷ ss) = elim (Bool-cases (leb best.version s.version)) [
  | inl h ↦
      subst (IsLatest best (s ∷ ss)) (sym (latest_from_newer best s ss h))
        (IsLatest-newer best s _ ss h (latest_from-IsLatest s ss))
  | inr h ↦
      subst (IsLatest best (s ∷ ss)) (sym (latest_from_older best s ss h))
        (IsLatest-older best s _ ss h (latest_from-IsLatest best ss))
]

latest_secret-eq_good :
    (ss : List Secret) {s : Secret}
    → latest_secret ss ≡ good s
    → (latest_from no_secret ss ≡ s) × (is_empty s.key ≡ false)
unfolding latest_secret
latest_secret-eq_good ss h = ground arith

-- The secret that encrypts is one of those configured, and none has a higher version.
pub latest_secret_highest :
    (ss : List Secret) (s : Secret)
    → latest_secret ss ≡ good s
    → IsAmong s ss × All (λ t. t.version ≤ s.version) ss
latest_secret_highest ss s h =
    let (same, keyed) = latest_secret-eq_good ss h in
    go same keyed (latest_from-IsLatest no_secret ss)
  where
    go :
        latest_from no_secret ss ≡ s
        → is_empty s.key ≡ false
        → IsLatest no_secret ss (latest_from no_secret ss)
        → IsAmong s ss × All (λ t. t.version ≤ s.version) ss
    go same keyed (low, below, inl e) = absurd (cc)
    go same keyed (low, below, inr m) = (rw same at m, rw same at below)

find_version_hit : (t : Secret) (ss : List Secret) → find_version t.version (t ∷ ss) ≡ t
unfolding find_version
find_version_hit t ss = ground arith

find_version_miss :
    (v : ℕ) (t : Secret) (ss : List Secret)
    → t.version ≢ v
    → find_version v (t ∷ ss) ≡ find_version v ss
unfolding find_version
find_version_miss v t ss h = ground arith

ne_of_IsAmong :
    (v : ℕ) (ss : List Secret) (s : Secret)
    → All (λ t. t.version ≢ v) ss
    → IsAmong s ss
    → s.version ≢ v
ne_of_IsAmong v (t ∷ ss) s (ne, all) (inl e) = rw e at ne
ne_of_IsAmong v (t ∷ ss) s (ne, all) (inr m) = ne_of_IsAmong v ss s all m
ne_of_IsAmong v [] s all m = absurd m

-- With distinct versions, a version finds its secret.
find_version_of_IsAmong :
    (ss : List Secret) (s : Secret)
    → DistinctVersions ss
    → IsAmong s ss
    → find_version s.version ss ≡ s
find_version_of_IsAmong [] s d m = absurd m
find_version_of_IsAmong (t ∷ ss) s (new, d) (inl e) =
    subst (λ (r : Secret). find_version r.version (t ∷ ss) ≡ r) e (find_version_hit t ss)
find_version_of_IsAmong (t ∷ ss) s (new, d) (inr m) =
    find_version_miss s.version t ss (λ e. ne_of_IsAmong t.version ss s new m (sym e))
    ∙ find_version_of_IsAmong ss s d m

pub secret_by_latest :
    (ss : List Secret) (s : Secret)
    → DistinctVersions ss
    → latest_secret ss ≡ good s
    → secret_by_version ss s.version ≡ good s
unfolding secret_by_version
secret_by_latest ss s d h = rw (
  find_version_of_IsAmong ss s d (latest_secret_highest ss s h).0,
  (latest_secret-eq_good ss h).1,
)
