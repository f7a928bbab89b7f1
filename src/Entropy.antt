-- ===== src/Entropy.antt =====
-- internal/entropy: a reader of monotonic entropy that concurrent tasks share behind a lock.
pub mod Linear
use authenticator.Common.{ℕ, ◌≡◌, ◌==◌, Bool, Option, none, some, List, [], ◌∷◌, if◌then◌else◌}

-- Where a task stands in `safeMonotonicReader.MonotonicRead`. The reader of the library is not safe
-- for concurrent use: it loads its state, and later stores the state that a read leaves.
pub data Phase (S R : Type 0) : Type 0 where
  idle : Phase S R
  -- It was called with a time in milliseconds.
  called : ℕ → Phase S R
  locked : ℕ → Phase S R
  loaded : ℕ → S → Phase S R
  stored : R → Phase S R

-- The state of the library's reader, the mutex with the task that holds it, all tasks, and the reads
-- that were stored, the last one first, with their times and results.
pub record Reader (S R : Type 0) : Type 0 where
  pub source : S
  pub mtx : Option ℕ
  pub tasks : ℕ → Phase S R
  pub reads : List (ℕ × R)

abbrev pub put_task : {P : Type 0} → ℕ → P → (ℕ → P) → ℕ → P
put_task i p tasks j = if j == i then p else tasks j

-- `read` is the `MonotonicRead` of the library, with the time and its state.
module _ {S R : Type 0} (read : ℕ → S → R × S) where
  pub data Step (q : Reader S R) : Reader S R → Type 0 where
    calls :
        (i ms : ℕ) → q.tasks i ≡ idle → Step q (record q { tasks = put_task i (called ms) q.tasks })
    locks :
        (i ms : ℕ)
        → q.tasks i ≡ called ms
        → q.mtx ≡ none
        → Step q (record q { mtx = some i; tasks = put_task i (locked ms) q.tasks })
    loads :
        (i ms : ℕ)
        → q.tasks i ≡ locked ms
        → Step q (record q { tasks = put_task i (loaded ms q.source) q.tasks })
    stores :
        (i ms : ℕ) (s : S)
        → q.tasks i ≡ loaded ms s
        → Step q (record q {
          source = (read ms s).1;
          tasks = put_task i (stored (read ms s).0) q.tasks;
          reads = (ms, (read ms s).0) ∷ q.reads;
        })
    -- The result is returned, an error too.
    unlocks :
        (i : ℕ) (r : R)
        → q.tasks i ≡ stored r
        → Step q (record q { mtx = none; tasks = put_task i idle q.tasks })

  module _ (s₀ : S) where
    pub data Reachable : Reader S R → Type 0 where
      starts : Reachable (record { source = s₀; mtx = none; tasks = λ i. idle; reads = [] })
      continues : {q q' : Reader S R} → Reachable q → Step q q' → Reachable q'
