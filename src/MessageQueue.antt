-- ===== src/MessageQueue.antt =====
-- internal/msgrepo, internal/msgconsumer and Send of internal/msgpublisher: the queue of outgoing messages and its workers.
pub mod Attempts
pub mod Draining
use authenticator.Common.{
  ℕ, suc, ◌+◌, ◌*◌, ◌≤◌, ◌<◌, ◌≡◌, Bool, true, false, Option, none, some, List, [], ◌∷◌, Text, ltb,
  ◌==◌, ◌||◌, length, if◌then◌else◌,
}
use authenticator.Effect.{Result, good, bad}
use authenticator.Domain.{DeliveryMethod, is_phone, is_email, second}
use authenticator.Publisher.{Posting, set_message_fields}

-- The goroutines that hold a message until a time, the messages that workers deliver, every delivery
-- that was begun, with its time, and whether the channel was closed and a send on it has panicked.
pub record Queue : Type 0 where
  pub clock : ℕ
  pub waiting : List (Posting × ℕ)
  pub working : List Posting
  pub begun : List (Posting × ℕ)
  pub closed : Bool
  pub crashed : Bool

-- The jitter is a number of milliseconds.
unfoldable pub delay : ℕ → ℕ → ℕ
delay delivery_attempts jitter =
    let countdown = jitter * 1000000 + delivery_attempts * second * 2 in
    if ltb countdown (30 * second) then countdown else 30 * second

-- `time.Now().After(msg.ExpiresAt)`.
abbrev pub is_expired : Queue → Posting → Bool
is_expired q m = ltb m.expires_at q.clock

-- When the goroutine of a message offers it to the channel.
unfoldable pub ready_at : Queue → ℕ → ℕ → ℕ
ready_at q delivery_attempts jitter =
    if delivery_attempts == 1 then q.clock else q.clock + delay delivery_attempts jitter

unfoldable pub publish : Queue → ℕ → Posting → Option Queue
publish q jitter m =
    if is_expired q m
    then none
    else some (record q {
      waiting =
          (
            record m { delivery_attempts = suc m.delivery_attempts },
            ready_at q (suc m.delivery_attempts) jitter,
          )
          ∷ q.waiting;
    })

abbrev publish_result : Queue → ℕ → Result Posting → Option Queue
publish_result q jitter (good m) = publish q jitter m
publish_result q jitter (bad e) = none

-- `Send` of the publisher, where `valid` is the validator of addresses.
unfoldable pub send : (DeliveryMethod → Text → Bool) → ℕ → Queue → ℕ → Posting → Option Queue
send valid expire_after q jitter m =
    if valid m.delivery m.address
    then publish_result q jitter (set_message_fields q.clock expire_after m)
    else none

-- `processMessage` up to the call of the provider.
unfoldable pub process : Queue → Posting → Queue
process q m =
    if is_expired q m
    then q
    else record q { working = m ∷ q.working; begun = (m, q.clock) ∷ q.begun }

abbrev pub or_unchanged : Queue → Option Queue → Queue
or_unchanged q none = q
or_unchanged q (some q') = q'

-- `processMessage` after a failed delivery: a message that cannot be published again is dropped.
unfoldable pub retry : Queue → ℕ → Posting → Queue
retry q jitter m = or_unchanged q (publish q jitter m)

-- One element taken out of a list.
pub data Takes {A : Type 0} (x : A) : List A → List A → Type 0 where
  takes_first : (xs : List A) → Takes x (x ∷ xs) xs
  takes_later : (y : A) {xs ys : List A} → Takes x xs ys → Takes x (y ∷ xs) (y ∷ ys)

module _ (total_workers : ℕ) where
  -- What the workers do, in any order. A method without a provider counts as delivered.
  pub data Work (q : Queue) : Queue → Type 0 where
    -- A worker that is free receives a message that is offered.
    receives :
        (m : Posting) (ready : ℕ) (rest : List (Posting × ℕ))
        → q.closed ≡ false
        → length q.working < total_workers
        → Takes (m, ready) q.waiting rest
        → ready ≤ q.clock
        → Work q (process (record q { waiting = rest }) m)
    delivers :
        (m : Posting) (rest : List Posting)
        → Takes m q.working rest
        → Work q (record q { working = rest })
    fails :
        (m : Posting) (jitter : ℕ) (rest : List Posting)
        → (is_phone m.delivery || is_email m.delivery) ≡ true
        → jitter < 3000
        → Takes m q.working rest
        → Work q (retry (record q { working = rest }) jitter m)

module _ (valid : DeliveryMethod → Text → Bool) (expire_after total_workers : ℕ) where
  -- What happens to the queue.
  pub data Step (q : Queue) : Queue → Type 0 where
    passes : (t : ℕ) → q.clock ≤ t → Step q (record q { clock = t })
    sends :
        (m : Posting) (jitter : ℕ) (q' : Queue)
        → m.delivery_attempts ≡ 0
        → jitter < 3000
        → send valid expire_after q jitter m ≡ some q'
        → Step q q'
    works : {q' : Queue} → Work total_workers q q' → Step q q'
    -- The consumer ends, and the channel is closed.
    closes : Step q (record q { closed = true })
    -- A goroutine offers its message to the closed channel.
    panics :
        (m : Posting) (ready : ℕ) (rest : List (Posting × ℕ))
        → q.closed ≡ true
        → Takes (m, ready) q.waiting rest
        → ready ≤ q.clock
        → Step q (record q { crashed = true })

  pub data Reachable : Queue → Type 0 where
    starts :
        (t : ℕ)
        → Reachable (record {
          clock = t;
          waiting = [];
          working = [];
          begun = [];
          closed = false;
          crashed = false;
        })
    continues : {q q' : Queue} → Reachable q → q.crashed ≡ false → Step q q' → Reachable q'
