-- ===== src/Examples/Deliveries.antt =====
-- The theorems on messages, on one whose first delivery fails and is tried again.
use authenticator.Common.{
  ℕ, ◌*◌, ◌≤◌, refl, arith, true, false, [], ◌∷◌, Text, codes, length, All, Bool,
}
use authenticator.Domain.{DeliveryMethod, email, second, otp_login}
use authenticator.Publisher.{
  Posting, contains, replace, fill, template, subjects, set_message_fields,
}
use authenticator.Publisher.Rendered.{reads}
use authenticator.MessageQueue.{
  Queue, delay, ready_at, publish, send, process, retry, takes_first, passes, sends, works,
  receives, fails, Reachable, starts, continues,
}
use authenticator.MessageQueue.Attempts.{InTime, deliveries_bounded}
use authenticator.MessageQueue.Draining.{budget, begins, moves, work_ends, Emptied, queue_empties}

-- A message as a handler makes it, and as it is published.
abbrev asked : Posting
asked = record {
  type = otp_login;
  subject = [];
  delivery = email;
  vars = (codes "code", codes "123456") ∷ [];
  content = [];
  address = codes "a@b.org";
  expires_at = 0;
  delivery_attempts = 0;
}

abbrev posting : ℕ → Posting
posting n = record asked {
  subject = subjects otp_login;
  content = reads otp_login email (codes "123456");
  expires_at = 600 * second;
  delivery_attempts = n;
}

abbrev any_address : DeliveryMethod → Text → Bool
any_address _ address = true

abbrev sent : Queue
sent = record {
  clock = 0;
  waiting = (posting 1, 0) ∷ [];
  working = [];
  begun = [];
  closed = false;
  crashed = false;
}

was_sent : Reachable any_address (600 * second) 2 sent
unfolding send set_message_fields template fill replace contains publish ready_at
was_sent = continues (starts 0) refl (sends asked 500 sent refl (omega arith) refl)

abbrev tried : Queue
tried = process (record sent { waiting = [] }) (posting 1)

was_tried : Reachable any_address (600 * second) 2 tried
was_tried =
    continues was_sent refl
      (works (receives (posting 1) 0 [] refl (omega arith) (takes_first []) (omega arith)))

-- The second attempt, after 4.5 seconds.
abbrev again : Queue
again = record {
  clock = 5 * second;
  waiting = (posting 2, 4500000000) ∷ [];
  working = [];
  begun = (posting 1, 0) ∷ [];
  closed = false;
  crashed = false;
}

waits_again : Reachable any_address (600 * second) 2 again
unfolding process retry publish ready_at delay
waits_again =
    continues
      (continues was_tried refl
        (works (fails (posting 1) 500 [] refl (omega arith) (takes_first []))))
      refl (passes (5 * second) (omega arith))

abbrev retried : Queue
retried = process (record again { waiting = [] }) (posting 2)

was_retried : Reachable any_address (600 * second) 2 retried
was_retried =
    continues waits_again refl
      (works (receives (posting 2) 4500000000 [] refl (omega arith) (takes_first []) (omega arith)))

deliveries_bounded_example :
    All (InTime (600 * second) 2) retried.begun × (length retried.working ≤ 2)
deliveries_bounded_example = deliveries_bounded (600 * second) 2 any_address retried was_retried

work_ends_example : 1 ≤ budget (600 * second) 2 again
work_ends_example = work_ends (600 * second) 2 any_address again 1 retried waits_again (
    moves begins
      (receives (posting 2) 4500000000 [] refl (omega arith) (takes_first []) (omega arith)))

queue_empties_example : Emptied (600 * second) 2 again
queue_empties_example =
    queue_empties (600 * second) 2 any_address again waits_again refl (omega arith)
