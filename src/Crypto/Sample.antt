-- ===== src/Crypto/Sample.antt =====
-- internal/crypto: the characters of random strings.
use authenticator.Common.{
  ℕ, subst, ◌%◌, ◌≡◌, ◌<◌, ◌≤◌, Option, none, refl, List, [], ◌∷◌, some, Text, length, get_elem?,
  Any, All, arith, suc, zero, inl, inr, Option, none,
}
use native.Mathlib.Nat.{mod-eq_of_lt}
use authenticator.External.{External}
use authenticator.Effect.{ok, ◌>>=◌}
use authenticator.Effect.Ensures.{Ensures, Ensures-bind}
use authenticator.External.Laws.{IsMonotone, Advances}
use authenticator.Crypto.{
  pick, pick_all, concat, sample_of, bytes, bytes_from_sample, random_string, or_crash,
}

abbrev pub IsIn : Text → ℕ → Type 0
IsIn sample c = Any (λ x. x ≡ c) sample

get_elem?-IsIn :
    (sample : Text) (i : ℕ)
    → i < length sample
    → (c : ℕ) × (get_elem? sample i ≡ some c) × IsIn sample c
get_elem?-IsIn [] i h = elim h [ ]
get_elem?-IsIn (x ∷ xs) zero h = (x, refl, inl refl)
get_elem?-IsIn (x ∷ xs) (suc i) h =
    let (c, found, member) = get_elem?-IsIn xs i (omega arith) in (c, found, inr member)

module _ (sample : Text) (nonempty : 0 < length sample) (short : length sample < 256) where
  pick-IsIn : (b : ℕ) → (c : ℕ) × (pick sample b ≡ some c) × IsIn sample c
  unfolding pick
  pick-IsIn b =
      let same : length sample % 256 ≡ length sample = mod-eq_of_lt short in
      let (c, found, member) = get_elem?-IsIn sample (b % length sample) (omega arith) in
      (c, rw same (ground arith), member)

  -- Any bytes at all index the sample in range, and one character comes out for each.
  pub pick_all-IsIn :
      (bs : List ℕ)
      → (cs : List ℕ) × (pick_all sample bs ≡ some cs)
        × (length cs ≡ length bs)
        × All (IsIn sample) cs
  unfolding pick_all
  pick_all-IsIn [] = ([], refl, refl, tt)
  pick_all-IsIn (b ∷ bs) =
      let (c, found, member) = pick-IsIn b in
      let (cs, rest, size, members) = pick_all-IsIn bs in
      (c ∷ cs, rw (found, rest), omega arith, (member, members))

sample_of_size :
    (samples : List Text)
    → length (concat samples) < 256
    → (0 < length (sample_of samples)) × (length (sample_of samples) < 256)
unfolding sample_of
sample_of_size samples h = ground arith

module _ {W : Type 0} (ext : External W) where
  -- With fewer than 256 characters in its samples, and none standing for the default sample, a
  -- random string is made whenever the system gives random bytes. It has one character for each
  -- byte, and each is a character of the sample.
  pub bytes_from_sample-IsIn :
      (n : ℕ) (samples : List Text) {bs : Text} {w w' : W}
      → length (concat samples) < 256
      → ext.rand_read n w ≡ ok bs w'
      → (cs : Text) × (bytes_from_sample ext n samples w ≡ ok cs w')
        × (length cs ≡ length bs)
        × All (IsIn (sample_of samples)) cs
  unfolding bytes_from_sample ◌>>=◌
  bytes_from_sample-IsIn n samples {bs} h read =
      let (nonempty, short) = sample_of_size samples h in
      let (cs, picked, size, members) = pick_all-IsIn (sample_of samples) nonempty short bs in
      (cs, unfold bytes in rw (read, picked), size, members)

  or_crash_still : (o : Option Text) (w : W) → Ensures (or_crash {W = W} o w) (λ s w'. w ≡ w')
  or_crash_still none w = λ s v h. cc
  or_crash_still (some s) w = λ t v h. cc

  pub random_string-Advances :
      IsMonotone ext → (n : ℕ) (samples : List Text) → Advances ext (random_string ext n samples)
  unfolding random_string bytes_from_sample bytes
  random_string-Advances monotone n samples s w w' returned =
      let takes_time : Ensures (bytes_from_sample ext n samples w)
          (λ s v. ext.clock w ≤ ext.clock v) =
        Ensures-bind _ _ λ bs v read s v' picked.
          rw (← or_crash_still _ v s v' picked) (monotone.rand_advances n bs w v read) in
      takes_time s w' returned

  pub random_string-IsIn :
      (n : ℕ) (samples : List Text) (w : W)
      → length (concat samples) < 256
      → Ensures (random_string ext n samples w) (λ s _. All (IsIn (sample_of samples)) s)
  unfolding random_string bytes_from_sample bytes
  random_string-IsIn n samples w h = Ensures-bind _ _ λ bs v read. λ s v' picked.
      let (nonempty, short) = sample_of_size samples h in
      let (cs, all_picked, size, members) = pick_all-IsIn (sample_of samples) nonempty short bs in
      let same : cs ≡ s = picked_same cs s v v' (rw all_picked at picked) in
      subst (All (IsIn (sample_of samples))) same members
    where
      picked_same : (cs s : Text) (v v' : W) → or_crash {W = W} (some cs) v ≡ ok s v' → cs ≡ s
      picked_same cs s v v' e = cc
