-- ===== src/MessageQueue/Draining.antt =====
-- The work on the messages of a queue comes to an end.
use authenticator.Common.{
  ℕ, zero, suc, sym, subst, ◌∙◌, ◌+◌, ◌*◌, ◌-◌, ◌/◌, ◌≤◌, ◌<◌, ◌≡◌, refl, arith, Bool, false, List,
  [], ◌∷◌, Text, Bool-cases, inl, inr, ◌⊎◌, ◌||◌,
}
use authenticator.Domain.{DeliveryMethod, second, is_phone, is_email}
use authenticator.Publisher.{Posting}
use authenticator.MessageQueue.{
  Queue, is_expired, publish, process, retry, Takes, takes_first, takes_later, Work, receives,
  delivers, fails, Reachable,
}
use authenticator.MessageQueue.Attempts.{
  Invariant, Invariant-taken, Invariant-Work, Invariant-passes, Invariant-Reachable,
}

abbrev pub sum_of : {A : Type 0} → (A → ℕ) → List A → ℕ
sum_of f [] = 0
sum_of f (x ∷ xs) = f x + sum_of f xs

sum_of-Takes :
    {A : Type 0} (f : A → ℕ) {x : A} {xs ys : List A}
    → Takes x xs ys
    → sum_of f xs ≡ f x + sum_of f ys
sum_of-Takes f (takes_first xs) = refl
sum_of-Takes f (takes_later y t) = omega (arith, sum_of-Takes f t)

module _ (expire_after total_workers : ℕ) where
  -- A message is delivered at most so often.
  abbrev pub max_attempts : ℕ
  max_attempts = suc (expire_after / (4 * second))

  -- What workers can still do with a message that one of them delivers, and with one that waits.
  abbrev pub work_left : Posting → ℕ
  work_left m = 2 * (suc max_attempts - m.delivery_attempts)

  abbrev pub budget : Queue → ℕ
  budget q = sum_of (λ p. suc (work_left p.0)) q.waiting + sum_of work_left q.working

  -- A run of the workers, with the number of their steps; time passes as it likes.
  pub data Runs (q : Queue) : ℕ → Queue → Type 0 where
    begins : Runs q 0 q
    rests :
        {n : ℕ} {v : Queue} (t : ℕ) → Runs q n v → v.clock ≤ t → Runs q n (record v { clock = t })
    moves : {n : ℕ} {v v' : Queue} → Runs q n v → Work total_workers v v' → Runs q (suc n) v'

  few_attempts :
      (m : Posting)
      → 4 * second * (m.delivery_attempts - 1) ≤ expire_after
      → m.delivery_attempts ≤ max_attempts
  few_attempts m h = omega (arith, h)

  budget-process : (q : Queue) (m : Posting) → budget (process q m) ≤ budget q + work_left m
  unfolding process
  budget-process q m = elim (Bool-cases (is_expired q m)) [
    | inl late ↦ rw late (omega arith)
    | inr early ↦ rw early (omega arith)
  ]

  budget-retry :
      (q : Queue) (j : ℕ) (m : Posting)
      → m.delivery_attempts ≤ max_attempts
      → budget (retry q j m) < budget q + work_left m
  unfolding retry publish
  budget-retry q j m few = elim (Bool-cases (is_expired q m)) [
    | inl late ↦ rw late (omega arith)
    | inr early ↦ rw early (omega arith)
  ]

  budget-Work :
      {q q' : Queue}
      → Work total_workers q q'
      → Invariant expire_after total_workers q
      → budget q' < budget q
  budget-Work {q} (receives m ready rest opened free t offered) i = omega (
    arith,
    budget-process (record q { waiting = rest }) m,
    sum_of-Takes (λ p. suc (work_left p.0)) t,
  )
  budget-Work {q} (delivers m rest t) i =
      let (active, _) = Invariant-taken expire_after total_workers q m rest t i in
      omega (arith, few_attempts m active.1, sum_of-Takes work_left t)
  budget-Work {q} (fails m j rest provided jitter t) i =
      let (active, _) = Invariant-taken expire_after total_workers q m rest t i in
      omega (
        arith,
        budget-retry (record q { working = rest }) j m (few_attempts m active.1),
        sum_of-Takes work_left t,
      )

  Invariant-Runs :
      {q : Queue} {n : ℕ} {v : Queue}
      → Runs q n v
      → Invariant expire_after total_workers q
      → Invariant expire_after total_workers v
  Invariant-Runs begins i = i
  Invariant-Runs (rests t r later) i =
      Invariant-passes expire_after total_workers _ t later (Invariant-Runs r i)
  Invariant-Runs (moves r w) i = Invariant-Work expire_after total_workers w (Invariant-Runs r i)

  budget-Runs :
      {q : Queue} {n : ℕ} {v : Queue}
      → Runs q n v
      → Invariant expire_after total_workers q
      → n + budget v ≤ budget q
  budget-Runs begins i = omega arith
  budget-Runs (rests t r later) i = budget-Runs r i
  budget-Runs (moves r w) i = omega (arith, budget-Runs r i, budget-Work w (Invariant-Runs r i))

  -- Once no more messages are sent, the workers of a reachable queue take at most as many steps as
  -- its budget, in whatever order they work and however time passes: two for each attempt that a
  -- message has left, and one more for each message that waits.
  pub work_ends :
      (valid : DeliveryMethod → Text → Bool) (q : Queue) (n : ℕ) (v : Queue)
      → Reachable valid expire_after total_workers q
      → Runs q n v
      → n ≤ budget q
  work_ends valid q n v reached r =
      omega (arith, budget-Runs r (Invariant-Reachable expire_after total_workers valid reached))

  -- A step in which no provider accepts a message: what is delivered has no provider.
  abbrev pub NoneAccepted : {q q' : Queue} → Work total_workers q q' → Type 0
  NoneAccepted (receives m ready rest opened free t offered) = Unit
  NoneAccepted (delivers m rest t) = (is_phone m.delivery || is_email m.delivery) ≡ false
  NoneAccepted (fails m j rest provided jitter t) = Unit

  -- A run of the workers in which every delivery by phone or email fails.
  pub data FailingRuns (q : Queue) : ℕ → Queue → Type 0 where
    set_out : FailingRuns q 0 q
    waits :
        {n : ℕ} {v : Queue} (t : ℕ)
        → FailingRuns q n v
        → v.clock ≤ t
        → FailingRuns q n (record v { clock = t })
    tries :
        {n : ℕ} {v v' : Queue}
        → FailingRuns q n v
        → (w : Work total_workers v v') → NoneAccepted w
        → FailingRuns q (suc n) v'

  -- The queue is empty, or there is a time from which on some worker can take a step, though no
  -- provider accepts a message.
  abbrev Progresses : Queue → Type 0
  Progresses q =
      ((q.waiting ≡ []) × (q.working ≡ []))
      ⊎ ((t : ℕ) × ((t' : ℕ)
            → t ≤ t'
            → (v : Queue) × (w : Work total_workers (record q { clock = t' }) v) × NoneAccepted w))

  queue_progress : (q : Queue) → q.closed ≡ false → 1 ≤ total_workers → Progresses q
  queue_progress q opened some_worker = split q.waiting q.working refl refl
    where
      split :
          (waiting : List (Posting × ℕ)) (working : List Posting)
          → q.waiting ≡ waiting
          → q.working ≡ working
          → Progresses q
      split [] [] a b = inl (a, b)
      split waiting (m ∷ rest) a b =
          let t = subst (λ xs. Takes m xs rest) (sym b) (takes_first rest) in
          elim (Bool-cases (is_phone m.delivery || is_email m.delivery)) [
            | inl provided ↦ inr (0, λ t' later. (_, fails m 0 rest provided (omega arith) t, tt))
            | inr without ↦ inr (0, λ t' later. (_, delivers m rest t, without))
          ]
      split ((m, ready) ∷ rest) [] a b = inr (
        ready,
        λ t' later. (
          _,
          receives m ready rest opened (rw b some_worker)
              (subst (λ xs. Takes (m, ready) xs rest) (sym a) (takes_first rest)) later,
          tt,
        ),
      )

  process-closed : (q : Queue) (m : Posting) → (process q m).closed ≡ q.closed
  unfolding process
  process-closed q m = elim (Bool-cases (is_expired q m)) [
    | inl late ↦ rw late refl
    | inr early ↦ rw early refl
  ]

  retry-closed : (q : Queue) (j : ℕ) (m : Posting) → (retry q j m).closed ≡ q.closed
  unfolding retry publish
  retry-closed q j m = elim (Bool-cases (is_expired q m)) [
    | inl late ↦ rw late refl
    | inr early ↦ rw early refl
  ]

  closed-Work : {q q' : Queue} → Work total_workers q q' → q'.closed ≡ q.closed
  closed-Work {q} (receives m ready rest opened free t offered) =
      process-closed (record q { waiting = rest }) m
  closed-Work (delivers m rest t) = refl
  closed-Work {q} (fails m j rest provided jitter t) =
      retry-closed (record q { working = rest }) j m

  -- A run of the workers after which the queue is empty, though every delivery failed.
  abbrev pub Emptied : Queue → Type 0
  Emptied q = (n : ℕ) × (v : Queue) × FailingRuns q n v × (v.waiting ≡ []) × (v.working ≡ [])

  drain_within :
      (k : ℕ) (q v : Queue) (n : ℕ)
      → FailingRuns q n v
      → Invariant expire_after total_workers v
      → v.closed ≡ false
      → 1 ≤ total_workers
      → budget v < k
      → Emptied q
  drain_within zero q v n r i opened some_worker few = absurd (omega (arith, few))
  drain_within (suc k) q v n r i opened some_worker few =
      elim (queue_progress v opened some_worker) [
        | inl (a, b) ↦ (n, v, r, a, b)
        | inr (t, next) ↦
            let (v', w, none_accepted) = next (t + v.clock) (omega arith) in
            let j = Invariant-passes expire_after total_workers v (t + v.clock) (omega arith) i in
            drain_within k q v' (suc n)
              (tries (waits (t + v.clock) r (omega arith)) w none_accepted)
              (Invariant-Work expire_after total_workers w j) (closed-Work w ∙ opened) some_worker
              (omega (arith, few, budget-Work w j))
      ]

  -- As long as the channel is open and there is a worker, a reachable queue can always be emptied, even
  -- if no provider accepts any message: the workers have a run, as time passes, in which every
  -- delivery by phone or email fails, and after which no message waits and none is being delivered.
  pub queue_empties :
      (valid : DeliveryMethod → Text → Bool) (q : Queue)
      → Reachable valid expire_after total_workers q
      → q.closed ≡ false
      → 1 ≤ total_workers
      → Emptied q
  queue_empties valid q reached opened some_worker =
      drain_within (suc (budget q)) q q 0 set_out
        (Invariant-Reachable expire_after total_workers valid reached) opened some_worker
        (omega arith)
