-- ===== src/Crypto.antt =====
-- internal/crypto/crypto.go: random strings from a sample, and hashes.
pub mod Sample
use authenticator.Common.{
  ℕ, ◌%◌, Bool, List, [], ◌∷◌, ◌++◌, String, Option, none, some, Text, codes, length, get_elem?,
  is_empty, ◌==◌, if◌then◌else◌,
}
use authenticator.Effect.{Exec, pure, crash, ◌>>=◌}
use authenticator.External.{External}

abbrev pub default_sample : Text
default_sample =
    codes "!\"#$%&'()*+,-./0123456789:;<=>?@ABCDEFGHIJKLMNOPQRSTUVWXYZ"
    ++ codes "[\\]^_`abcdefghijklmnopqrstuvwxyz{|}~"

-- `strings.Join(samples, "")`.
abbrev pub concat : List Text → Text
concat [] = []
concat (s ∷ ss) = s ++ concat ss

unfoldable pub sample_of : List Text → Text
sample_of samples = if is_empty (concat samples) then default_sample else concat samples

-- `sample[b%byte(len(sample))]`: `byte` keeps the length modulo 256, and a remainder by 0 panics,
-- as does an index out of range.
unfoldable pub pick : Text → ℕ → Option ℕ
pick sample b =
    if length sample % 256 == 0 then none else get_elem? sample (b % (length sample % 256))

abbrev pub prepend : Option ℕ → Option (List ℕ) → Option (List ℕ)
prepend (some c) (some cs) = some (c ∷ cs)
prepend _ _ = none

-- The loop over the bytes; `none` is a panic.
unfoldable pub pick_all : Text → List ℕ → Option (List ℕ)
pick_all sample [] = some []
pick_all sample (b ∷ bs) = prepend (pick sample b) (pick_all sample bs)

abbrev pub or_crash : {W A : Type 0} → Option A → Exec W A
or_crash none = crash
or_crash (some a) = pure a

module _ {W : Type 0} (ext : External W) where
  unfoldable pub bytes : ℕ → Exec W Text
  bytes n = ext.rand_read n

  unfoldable pub bytes_from_sample : ℕ → List Text → Exec W Text
  bytes_from_sample n samples = do
    let sample = sample_of samples
    bs ← bytes n
    or_crash (pick_all sample bs)

  -- `String`.
  unfoldable pub random_string : ℕ → List Text → Exec W Text
  random_string n samples = bytes_from_sample n samples

  unfoldable pub random_string_b64 : ℕ → List Text → Exec W Text
  random_string_b64 n samples = do b ← bytes_from_sample n samples; pure (ext.base64_encode b)

  -- `Hash`; writing to a hash returns no error.
  unfoldable pub hash : Text → Text
  hash s = ext.sha512_hex s
