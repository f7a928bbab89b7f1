-- ===== src/Entropy/Linear.antt =====
-- Reads behind the lock are reads one after the other.
use authenticator.Common.{
  ℕ, ◌≡◌, ◌==◌, refl, sym, subst, false, Option, none, some, List, [], ◌∷◌, inl, inr, Bool-cases,
  arith, eq_sound,
}
use authenticator.Entropy.{
  Phase, idle, called, locked, loaded, stored, Reader, put_task, Step, calls, locks, loads, stores,
  unlocks, Reachable, starts, continues,
}

module _ {S R : Type 0} (read : ℕ → S → R × S) where
  -- What one task after the other reads, the last one first, and the state that it leaves.
  pub data Sequential (s₀ : S) : List (ℕ × R) → S → Type 0 where
    unread : Sequential s₀ [] s₀
    next :
        {log : List (ℕ × R)} {s : S} (ms : ℕ)
        → Sequential s₀ log s
        → Sequential s₀ ((ms, (read ms s).0) ∷ log) (read ms s).1

  -- A task past the lock holds it, and the state that it has loaded is the present one.
  abbrev InOrder : Option ℕ → S → ℕ → Phase S R → Type 0
  InOrder mtx source j idle = Unit
  InOrder mtx source j (called ms) = Unit
  InOrder mtx source j (locked ms) = mtx ≡ some j
  InOrder mtx source j (loaded ms s) = (mtx ≡ some j) × (s ≡ source)
  InOrder mtx source j (stored r) = mtx ≡ some j

  abbrev Orderly : Reader S R → Type 0
  Orderly q = (j : ℕ) → InOrder q.mtx q.source j (q.tasks j)

  -- One task changes, and every other stays in order.
  Orderly-put_task :
      (mtx : Option ℕ) (source : S) (tasks : ℕ → Phase S R) (i : ℕ) (p : Phase S R)
      → InOrder mtx source i p
      → ((j : ℕ) → (j == i) ≡ false → InOrder mtx source j (tasks j))
      → (j : ℕ) → InOrder mtx source j (put_task i p tasks j)
  Orderly-put_task mtx source tasks i p changed others j = elim (Bool-cases (j == i)) [
    | inl same ↦ rw same (subst (λ k. InOrder mtx source k p) (sym (eq_sound j i same)) changed)
    | inr differs ↦ rw differs (others j differs)
  ]

  -- A task that does not hold the lock is in order whatever happens to the lock and the state.
  InOrder-outside :
      (mtx mtx' : Option ℕ) (source source' : S) (j : ℕ) (p : Phase S R)
      → (mtx ≡ some j → ⊥)
      → InOrder mtx source j p
      → InOrder mtx' source' j p
  InOrder-outside mtx mtx' source source' j idle out h = tt
  InOrder-outside mtx mtx' source source' j (called ms) out h = tt
  InOrder-outside mtx mtx' source source' j (locked ms) out h = absurd (out h)
  InOrder-outside mtx mtx' source source' j (loaded ms s) out h = absurd (out h.0)
  InOrder-outside mtx mtx' source source' j (stored r) out h = absurd (out h)

  other_holder : (i j : ℕ) (mtx : Option ℕ) → mtx ≡ some i → (j == i) ≡ false → mtx ≡ some j → ⊥
  other_holder i j mtx a b c = ground arith

  -- The tasks without the lock, when the task that holds it changes.
  others-InOrder :
      (q : Reader S R) (i : ℕ) (mtx' : Option ℕ) (source' : S)
      → Orderly q
      → q.mtx ≡ some i
      → (j : ℕ) → (j == i) ≡ false
      → InOrder mtx' source' j (q.tasks j)
  others-InOrder q i mtx' source' o held j differs =
      InOrder-outside q.mtx mtx' q.source source' j (q.tasks j)
        (other_holder i j q.mtx held differs) (o j)

  in_phase :
      (q : Reader S R) (i : ℕ) (p : Phase S R)
      → Orderly q
      → q.tasks i ≡ p
      → InOrder q.mtx q.source i p
  in_phase q i p o phase = subst (InOrder q.mtx q.source i) phase (o i)

  Orderly-Step : {q q' : Reader S R} → Step read q q' → Orderly q → Orderly q'
  Orderly-Step {q} (calls i ms phase) o =
      Orderly-put_task q.mtx q.source q.tasks i (called ms) tt (λ j differs. o j)
  Orderly-Step {q} (locks i ms phase free) o =
      Orderly-put_task (some i) q.source q.tasks i (locked ms) refl (λ j differs.
        InOrder-outside q.mtx (some i) q.source q.source j (q.tasks j) (λ held. cc) (o j))
  Orderly-Step {q} (loads i ms phase) o =
      Orderly-put_task q.mtx q.source q.tasks i (loaded ms q.source)
        (in_phase q i (locked ms) o phase, refl) (λ j differs. o j)
  Orderly-Step {q} (stores i ms s phase) o =
      let (held, same) = in_phase q i (loaded ms s) o phase in
      Orderly-put_task q.mtx (read ms s).1 q.tasks i (stored (read ms s).0) held
        (others-InOrder q i q.mtx (read ms s).1 o held)
  Orderly-Step {q} (unlocks i r phase) o =
      Orderly-put_task none q.source q.tasks i idle tt
        (others-InOrder q i none q.source o (in_phase q i (stored r) o phase))

  module _ (s₀ : S) where
    Orderly-Reachable : {q : Reader S R} → Reachable read s₀ q → Orderly q
    Orderly-Reachable starts = λ j. tt
    Orderly-Reachable (continues r step) = Orderly-Step step (Orderly-Reachable r)

    Sequential-Step :
        {q q' : Reader S R}
        → Step read q q'
        → Orderly q
        → Sequential s₀ q.reads q.source
        → Sequential s₀ q'.reads q'.source
    Sequential-Step (calls i ms phase) o l = l
    Sequential-Step (locks i ms phase free) o l = l
    Sequential-Step (loads i ms phase) o l = l
    Sequential-Step {q} (stores i ms s phase) o l =
        let (held, same) = in_phase q i (loaded ms s) o phase in
        next ms (subst (Sequential s₀ q.reads) (sym same) l)
    Sequential-Step (unlocks i r phase) o l = l

    -- However tasks call the reader, wait for the lock, and interleave: all reads that were stored
    -- are, with their times, results and order, reads of the library's reader by one task after the
    -- other, and its state is the one that these leave.
    pub reads_are_sequential :
        (q : Reader S R) → Reachable read s₀ q → Sequential s₀ q.reads q.source
    reads_are_sequential q starts = unread
    reads_are_sequential q (continues r step) =
        Sequential-Step step (Orderly-Reachable r) (reads_are_sequential _ r)
