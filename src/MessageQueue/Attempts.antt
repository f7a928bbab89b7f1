-- ===== src/MessageQueue/Attempts.antt =====
-- How often and until when a message is delivered.
use authenticator.Common.{
  ℕ, suc, ◌+◌, ◌*◌, ◌-◌, ◌≤◌, ◌<◌, ◌≡◌, refl, ◌∙◌, arith, Bool, true, false, none, some, List, [],
  ◌∷◌, Text, ltb, length, All, subst, Bool-cases, ltb_false→le, inl, inr, if◌then◌else◌,
}
use authenticator.Effect.{Result, good, bad}
use authenticator.Domain.{DeliveryMethod, second}
use authenticator.Publisher.{Posting, set_message_fields}
use authenticator.Publisher.Fields.{SameTimes, set_message_fields-SameTimes}
use authenticator.MessageQueue.{
  Queue, delay, is_expired, ready_at, publish, publish_result, send, process, retry, Takes,
  takes_first, takes_later, Work, receives, delivers, fails, Step, passes, sends, works, closes,
  panics, Reachable, starts, continues,
}

delay_at_least : (n j : ℕ) → 2 ≤ n → 4 * second ≤ delay n j
unfolding delay
delay_at_least n j h = ground arith

All-Takes :
    {A : Type 0} (P : A → Type 0) {x : A} {xs ys : List A}
    → Takes x xs ys
    → All P xs
    → P x × All P ys
All-Takes P (takes_first xs) (p, ps) = (p, ps)
All-Takes P (takes_later y t) (p, ps) = let (q, qs) = All-Takes P t ps in (q, (p, qs))

length-Takes : {A : Type 0} {x : A} {xs ys : List A} → Takes x xs ys → length xs ≡ suc (length ys)
length-Takes (takes_first xs) = refl
length-Takes (takes_later y t) = omega (arith, length-Takes t)

All-map :
    {A : Type 0} {P Q : A → Type 0} → ((x : A) → P x → Q x) → (xs : List A) → All P xs → All Q xs
All-map f [] h = tt
All-map f (x ∷ xs) (p, ps) = (f x p, All-map f xs ps)

module _ (expire_after total_workers : ℕ) where
  -- The n-th attempt of a message comes at least four seconds for each retry after the message was sent.
  abbrev pub Spaced : Posting → ℕ → Type 0
  Spaced m t =
      (1 ≤ m.delivery_attempts)
      × (m.expires_at + 4 * second * (m.delivery_attempts - 1) ≤ t + expire_after)

  -- A message that a worker delivers has not made too many attempts.
  abbrev pub Active : Posting → ℕ → Type 0
  Active m t = Spaced m t × (4 * second * (m.delivery_attempts - 1) ≤ expire_after)

  -- A delivery begins before its message expires, and after at most so many attempts.
  abbrev pub InTime : Posting × ℕ → Type 0
  InTime p =
      (p.1 ≤ p.0.expires_at)
      × (1 ≤ p.0.delivery_attempts)
      × (4 * second * (p.0.delivery_attempts - 1) ≤ expire_after)

  pub record Invariant (q : Queue) : Type 0 where
    pub waiting : All (λ p. Spaced p.0 p.1) q.waiting
    pub working : All (λ m. Active m q.clock) q.working
    pub begun : All InTime q.begun
    pub workers : length q.working ≤ total_workers

  Spaced-later : (t t' : ℕ) → t ≤ t' → (m : Posting) → Spaced m t → Spaced m t'
  Spaced-later t t' h m (one, far) = (one, omega arith)

  Active-later : (t t' : ℕ) → t ≤ t' → (m : Posting) → Active m t → Active m t'
  Active-later t t' h m (spaced, few) = (Spaced-later t t' h m spaced, few)

  -- A message that is published, as a goroutine then holds it.
  abbrev next : Posting → Posting
  next m = record m { delivery_attempts = suc m.delivery_attempts }

  ready_first :
      (q : Queue) (j : ℕ) (m : Posting)
      → m.delivery_attempts ≡ 0
      → ready_at q (suc m.delivery_attempts) j ≡ q.clock
  unfolding ready_at
  ready_first q j m h = rw h refl

  ready_again : (q : Queue) (j n : ℕ) → 1 ≤ n → q.clock + 4 * second ≤ ready_at q (suc n) j
  unfolding ready_at
  ready_again q j n h = ground (arith, delay_at_least (suc n) j (omega arith))

  Spaced-next_first :
      (q : Queue) (j : ℕ) (m : Posting)
      → m.delivery_attempts ≡ 0
      → m.expires_at ≤ q.clock + expire_after
      → Spaced (next m) (ready_at q (suc m.delivery_attempts) j)
  Spaced-next_first q j m h e = rw (ready_first q j m h) (omega arith, omega arith)

  Spaced-next :
      (q : Queue) (j : ℕ) (m : Posting)
      → Spaced m q.clock
      → Spaced (next m) (ready_at q (suc m.delivery_attempts) j)
  Spaced-next q j m (one, far) =
      (omega arith, omega (arith, far, one, ready_again q j m.delivery_attempts one))

  abbrev with_next : Queue → ℕ → Posting → Queue
  with_next q j m = record q {
    waiting = (next m, ready_at q (suc m.delivery_attempts) j) ∷ q.waiting;
  }

  publish-eq_some :
      (q q' : Queue) (j : ℕ) (m : Posting) → publish q j m ≡ some q' → with_next q j m ≡ q'
  unfolding publish
  publish-eq_some q q' j m h = ground arith

  Invariant-next :
      (q : Queue) (j : ℕ) (m : Posting)
      → Spaced (next m) (ready_at q (suc m.delivery_attempts) j)
      → Invariant q
      → Invariant (with_next q j m)
  Invariant-next q j m spaced i = record {
    waiting = (spaced, i.waiting);
    working = i.working;
    begun = i.begun;
    workers = i.workers;
  }

  Invariant-retry :
      (q : Queue) (j : ℕ) (m : Posting) → Spaced m q.clock → Invariant q → Invariant (retry q j m)
  unfolding retry publish
  Invariant-retry q j m spaced i = elim (Bool-cases (is_expired q m)) [
    | inl late ↦ rw late i
    | inr early ↦ rw early (Invariant-next q j m (Spaced-next q j m spaced) i)
  ]

  InTime-begun : (m : Posting) (t : ℕ) → ltb m.expires_at t ≡ false → Spaced m t → InTime (m, t)
  InTime-begun m t early (one, far) =
      let before = ltb_false→le m.expires_at t early in (before, one, omega (arith, before, far))

  Invariant-process :
      (q : Queue) (m : Posting)
      → length q.working < total_workers
      → Spaced m q.clock
      → Invariant q
      → Invariant (process q m)
  unfolding process
  Invariant-process q m free spaced i = elim (Bool-cases (is_expired q m)) [
    | inl late ↦ rw late i
    | inr early ↦ rw early (record {
      waiting = i.waiting;
      working = ((spaced, (InTime-begun m q.clock early spaced).2), i.working);
      begun = (InTime-begun m q.clock early spaced, i.begun);
      workers = omega arith;
    })
  ]

  pub Invariant-taken :
      (q : Queue) (m : Posting) (rest : List Posting)
      → Takes m q.working rest
      → Invariant q
      → Active m q.clock × Invariant (record q { working = rest })
  Invariant-taken q m rest t i =
      let (spaced, others) = All-Takes (λ m. Active m q.clock) t i.working in
      (
        spaced,
        record {
          waiting = i.waiting;
          working = others;
          begun = i.begun;
          workers = omega (arith, i.workers, length-Takes t);
        },
      )

  -- A message that the publisher accepted, as it is published.
  send-eq_some :
      (valid : DeliveryMethod → Text → Bool) (q q' : Queue) (j : ℕ) (m : Posting)
      → send valid expire_after q j m ≡ some q'
      → (m' : Posting) × SameTimes (record m { expires_at = q.clock + expire_after }) m'
        × (with_next q j m' ≡ q')
  unfolding send
  send-eq_some valid q q' j m h = split (valid m.delivery m.address) h
    where
      published :
          (x : Result Posting)
          → set_message_fields q.clock expire_after m ≡ x
          → publish_result q j x ≡ some q'
          → (m' : Posting) × SameTimes (record m { expires_at = q.clock + expire_after }) m'
            × (with_next q j m' ≡ q')
      published (good m') e h = (
        m',
        set_message_fields-SameTimes q.clock expire_after m m' e,
        publish-eq_some q q' j m' h,
      )
      published (bad e) _ h = cc

      split :
          (b : Bool)
          → (if b then publish_result q j (set_message_fields q.clock expire_after m) else none)
            ≡ some q'
          → (m' : Posting) × SameTimes (record m { expires_at = q.clock + expire_after }) m'
            × (with_next q j m' ≡ q')
      split true h = published (set_message_fields q.clock expire_after m) refl h
      split false h = cc

  pub Invariant-Work : {q q' : Queue} → Work total_workers q q' → Invariant q → Invariant q'
  Invariant-Work {q} (receives m ready rest opened free t offered) i =
      let (spaced, others) = All-Takes (λ p. Spaced p.0 p.1) t i.waiting in
      Invariant-process (record q { waiting = rest }) m free
        (Spaced-later ready q.clock offered m spaced)
        (record { waiting = others; working = i.working; begun = i.begun; workers = i.workers })
  Invariant-Work {q} (delivers m rest t) i = (Invariant-taken q m rest t i).1
  Invariant-Work {q} (fails m j rest provided jitter t) i =
      let (active, j') = Invariant-taken q m rest t i in
      Invariant-retry (record q { working = rest }) j m active.0 j'

  pub Invariant-passes :
      (q : Queue) (t : ℕ) → q.clock ≤ t → Invariant q → Invariant (record q { clock = t })
  Invariant-passes q t later i = record {
    waiting = i.waiting;
    working = All-map (Active-later q.clock t later) q.working i.working;
    begun = i.begun;
    workers = i.workers;
  }

  module _ (valid : DeliveryMethod → Text → Bool) where
    Invariant-Step :
        {q q' : Queue} → Step valid expire_after total_workers q q' → Invariant q → Invariant q'
    Invariant-Step {q} (passes t later) i = Invariant-passes q t later i
    Invariant-Step {q} {q'} (sends m j _ fresh jitter sent) i =
        let (m', (attempts, expiry), same) = send-eq_some valid q q' j m sent in
        subst Invariant same (
          Invariant-next q j m'
            (Spaced-next_first q j m' (attempts ∙ fresh) (omega (arith, expiry))) i)
    Invariant-Step (works w) i = Invariant-Work w i
    Invariant-Step closes i = record {
      waiting = i.waiting;
      working = i.working;
      begun = i.begun;
      workers = i.workers;
    }
    Invariant-Step (panics m ready rest shut t offered) i = record {
      waiting = i.waiting;
      working = i.working;
      begun = i.begun;
      workers = i.workers;
    }

    pub Invariant-Reachable :
        {q : Queue} → Reachable valid expire_after total_workers q → Invariant q
    Invariant-Reachable (starts t) = record {
      waiting = tt;
      working = tt;
      begun = tt;
      workers = omega arith;
    }
    Invariant-Reachable (continues r alive s) = Invariant-Step s (Invariant-Reachable r)

    -- However messages are sent, received, delivered and tried again, however time passes and whenever
    -- the consumer ends: every delivery that was begun was begun no later than its message expired; it
    -- has a positive number, and four seconds for each attempt before it fit into the time after which
    -- messages expire; and no more deliveries are under way than there are workers.
    pub deliveries_bounded :
        (q : Queue)
        → Reachable valid expire_after total_workers q
        → All InTime q.begun × (length q.working ≤ total_workers)
    deliveries_bounded q r = let i = Invariant-Reachable r in (i.begun, i.workers)
