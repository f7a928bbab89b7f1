-- ===== src/Examples/Entropy.antt =====
-- The theorem on the shared reader, on two tasks that call it at the same time.
use authenticator.Common.{ℕ, suc, refl, none, some, [], ◌∷◌}
use authenticator.Entropy.{
  idle, called, locked, loaded, stored, Reader, put_task, calls, locks, loads, stores, unlocks,
  Reachable, starts, continues,
}
use authenticator.Entropy.Linear.{Sequential, reads_are_sequential}

-- A reader that counts.
abbrev count : ℕ → ℕ → ℕ × ℕ
count ms s = (s, suc s)

abbrev at_first : Reader ℕ ℕ
at_first = record { source = 7; mtx = none; tasks = λ i. idle; reads = [] }

abbrev both_called : Reader ℕ ℕ
both_called = record at_first {
  tasks = put_task 1 (called 5) (put_task 0 (called 5) at_first.tasks);
}

abbrev one_read : Reader ℕ ℕ
one_read = record {
  source = 8;
  mtx = none;
  tasks =
      put_task 0 idle
        (put_task 0 (stored 7) (put_task 0 (loaded 5 7) (put_task 0 (locked 5) both_called.tasks)));
  reads = (5, 7) ∷ [];
}

abbrev both_read : Reader ℕ ℕ
both_read = record {
  source = 9;
  mtx = some 1;
  tasks = put_task 1 (stored 8) (put_task 1 (loaded 5 8) (put_task 1 (locked 5) one_read.tasks));
  reads = (5, 8) ∷ (5, 7) ∷ [];
}

have_called : Reachable count 7 both_called
have_called = continues (continues starts (calls 0 5 refl)) (calls 1 5 refl)

first_has_read : Reachable count 7 one_read
first_has_read =
    continues
      (continues (continues (continues have_called (locks 0 5 refl refl)) (loads 0 5 refl))
        (stores 0 5 7 refl))
      (unlocks 0 7 refl)

both_have_read : Reachable count 7 both_read
both_have_read =
    continues (continues (continues first_has_read (locks 1 5 refl refl)) (loads 1 5 refl))
      (stores 1 5 8 refl)

reads_are_sequential_example : Sequential count 7 ((5, 8) ∷ (5, 7) ∷ []) 9
reads_are_sequential_example = reads_are_sequential count 7 both_read both_have_read
