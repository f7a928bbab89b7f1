-- ===== src/Postgres/Transactions.antt =====
-- internal/postgres/client.go: what a transaction does, and what the clients share.
use authenticator.Common.{
  ℕ, suc, ◌≤◌, ◌≡◌, ◌≢◌, refl, sym, ap, ◌∙◌, subst, arith, Option, none, some, Bool-cases, inl, inr,
}
use authenticator.Errors.{Err}
use authenticator.Effect.{Outcome, ok, fail, panic, Exec, >>=-eq-ok}
use authenticator.Effect.Ensures.{Ensures, Ensures-bind, Ensures-wrapped, Ensures-pure}
use authenticator.External.{External}
use authenticator.External.Laws.{Advances}
use authenticator.Repository.{Entity}
use authenticator.Repository.Atomic.{IsAtomic}
use authenticator.System.{System}
use authenticator.Postgres.{
  Database, Heap, State, put_at, lift, in_tx, tx_or_crash, allocate, forget, forgetting, is_open,
  new_with_transaction, commit_client, rollback_client, finish, with_atomic,
}
use authenticator.Postgres.Records.{manager}

put_at-here : (k : ℕ) (tx : Option ℕ) (f : ℕ → Option ℕ) → put_at k tx f k ≡ tx
put_at-here k tx f = ground arith

put_at-other : (k j : ℕ) (tx : Option ℕ) (f : ℕ → Option ℕ) → j ≢ k → put_at k tx f j ≡ f j
put_at-other k j tx f h = ground arith

outcome-eq-ok :
    {W A : Type 0} {a b : A} {v w : W} → ◌≡◌ {A = Outcome W A} (ok a v) (ok b w) → (a ≡ b) × (v ≡ w)
outcome-eq-ok h = (cc, cc)

module _ {W : Type 0} where
  lift-eq-ok :
      {A : Type 0} (m : Exec W A) {a : A} {d d' : State W}
      → lift m d ≡ ok a d'
      → (m d.0 ≡ ok a d'.0) × (d'.1 ≡ d.1)
  unfolding lift
  lift-eq-ok {A} m {a} {d} {d'} h = split (m d.0) h
    where
      split : (o : Outcome W A) → lift (λ w. o) d ≡ ok a d' → (o ≡ ok a d'.0) × (d'.1 ≡ d.1)
      split (ok b w) h = (cc, cc)
      split (fail e w) h = cc
      split (panic w) h = cc

  tx_or_crash-eq-ok :
      (o : Option ℕ) {d d' : State W} {tx : ℕ}
      → tx_or_crash {W = W} o d ≡ ok tx d'
      → (o ≡ some tx) × (d ≡ d')
  tx_or_crash-eq-ok none h = cc
  tx_or_crash-eq-ok (some t) h = (cc, cc)

  forgetting-eq-ok :
      {A : Type 0} (c : ℕ) (o : Outcome (State W) A) {a : A} {d : State W}
      → forgetting c o ≡ ok a d
      → (u : State W) × (o ≡ ok a u) × (forget c u ≡ d)
  forgetting-eq-ok c (ok b u) h = (u, cc, cc)
  forgetting-eq-ok c (fail e u) h = cc
  forgetting-eq-ok c (panic u) h = cc

  module _ (db : Database W) where
    commit_client-eq-ok :
        (c : ℕ) (e : Entity) (v : State W)
        → Ensures
            (commit_client db c e v)
            (λ e' u. (tx : ℕ) × (e ≡ e') × (v.1.txs c ≡ some tx) × (db.commit tx v.0 ≡ ok tt u.0))
    unfolding commit_client
    commit_client-eq-ok c e v = Ensures-bind _ _ λ o v₁ looked. Ensures-bind _ _ λ tx v₂ present.
        Ensures-wrapped _ _ _ λ u v₃ committed. Ensures-pure _ e v₃ (
          let (there, same) = outcome-eq-ok looked in
          let (is, same₂) = tx_or_crash-eq-ok o present in
          let (done, kept) = lift-eq-ok (db.commit tx) committed in
          (
            tx,
            refl,
            there ∙ is,
            subst (λ (x : State W). db.commit tx x.0 ≡ ok tt v₃.0) (sym (same ∙ same₂)) done,
          ))

    rollback_client-fails :
        (c : ℕ) (err : Err) (v : State W) → Ensures (rollback_client db c err v) (λ _ _. ⊥)
    unfolding rollback_client
    rollback_client-fails c err v =
        Ensures-bind _ _ λ o v₁ looked.
          Ensures-bind _ _ λ tx v₂ present. Ensures-bind _ _ λ r v₃ tried. λ a w h. cc

    abbrev pub Committed : ℕ → Exec (State W) Entity → Entity → State W → State W → Type 0
    Committed c operation e d d' =
        (v : State W) × (tx : ℕ) × (operation d ≡ ok e v)
        × (v.1.txs c ≡ some tx)
        × (db.commit tx v.0 ≡ ok tt d'.0)
        × (d'.1.txs c ≡ none)

    finish-Committed :
        (c : ℕ) (operation : Exec (State W) Entity) (e : Entity) (d u : State W)
        → finish db c (operation d) ≡ ok e u
        → Committed c operation e d (forget c u)
    unfolding finish
    finish-Committed c operation e d u h = split (operation d) refl h
      where
        split :
            (o : Outcome (State W) Entity)
            → operation d ≡ o
            → finish db c o ≡ ok e u
            → Committed c operation e d (forget c u)
        split (ok e₁ v) ran h =
            let (tx, same, there, done) = commit_client-eq-ok c e₁ v e u h in
            (v, tx, ran ∙ ap (λ x. ok x v) same, there, done, put_at-here c none u.1.txs)
        split (fail err v) ran h = absurd (rollback_client-fails c err v e u h)
        split (panic v) ran h = cc

    -- If `WithAtomic` returns an entity, then the operation returned it; the transaction that the client
    -- had at its end was committed, from the world that the operation left; and the client is left
    -- without a transaction.
    pub with_atomic_commits :
        (c : ℕ) (operation : Exec (State W) Entity) (e : Entity) (d d' : State W)
        → with_atomic db c operation d ≡ ok e d'
        → Committed c operation e d d'
    unfolding with_atomic
    with_atomic_commits c operation e d d' returned = elim (Bool-cases (is_open (d.1.txs c))) [
      | inl has_tx ↦
          let (u, finished, same) = forgetting-eq-ok c _ (rw has_tx at returned) in
          subst (Committed c operation e d) same (finish-Committed c operation e d u finished)
      | inr has_none ↦ absurd (refused (rw has_none at returned))
    ]
      where
        refused : {err : Err} → ◌≡◌ {A = Outcome (State W) Entity} (fail err d) (ok e d') → ⊥
        refused h = cc

    -- `WithAtomic` of the Postgres client has run the operation of every entity that it returns.
    manager-IsAtomic : (sys : System (State W)) → IsAtomic (manager db sys)
    manager-IsAtomic sys = record {
      atomic_ran = λ c operation e d d' h.
          let (v, tx, ran, there, done, cleared) = with_atomic_commits c operation e d d' h in
          (d, v, ran);
    }

    -- Nor does it give back any time, if the operation and the commit do not.
    with_atomic-Advances :
        (ext : External (State W)) (clock : W → ℕ) (c : ℕ) (operation : Exec (State W) Entity)
        → ((d : State W) → ext.clock d ≡ clock d.0)
        → ((tx : ℕ) (w w' : W) → db.commit tx w ≡ ok tt w' → clock w ≤ clock w')
        → Advances ext operation
        → Advances ext (with_atomic db c operation)
    with_atomic-Advances ext clock c operation reads commits advances e d d' h =
        let (v, tx, ran, there, done, cleared) = with_atomic_commits c operation e d d' h in
        omega (arith, advances e d v ran, commits tx v.0 d'.0 done, reads v, reads d')

    abbrev grown : ℕ → Heap → Heap
    grown tx h = record { next = suc h.next; txs = put_at h.next (some tx) h.txs; current = h.next }

    new_with_transaction-eq-ok :
        (c a : ℕ) (d d' : State W)
        → new_with_transaction db c d ≡ ok a d'
        → (tx : ℕ) × (db.begin_tx d.0 ≡ ok tx d'.0) × (d'.1 ≡ grown tx d.1) × (a ≡ d.1.next)
    unfolding new_with_transaction
    new_with_transaction-eq-ok c a d d' h =
        let (tx, u, begun, allocated) = >>=-eq-ok (lift db.begin_tx) allocate h in
        let (began, kept) = lift-eq-ok db.begin_tx begun in
        let (a_is, d'_is) = outcome-eq-ok allocated in
        (
          tx,
          subst (λ v. db.begin_tx d.0 ≡ ok tx v) (ap (λ (x : State W). x.0) d'_is) began,
          sym (ap (λ (x : State W). x.1) d'_is) ∙ ap (grown tx) kept,
          sym a_is ∙ ap (λ (x : Heap). x.next) kept,
        )

    abbrev pub RunTogether :
        {A : Type 0} → (Option ℕ → Exec W A) → ℕ → ℕ → State W → State W → State W → Type 0
    RunTogether statement a b d d₁ d₂ =
        (t₁ : ℕ) × (t₂ : ℕ) × (db.begin_tx d.0 ≡ ok t₁ d₁.0)
        × (db.begin_tx d₁.0 ≡ ok t₂ d₂.0)
        × (d₂.1.txs a ≡ some t₁)
        × (d₂.1.txs b ≡ some t₂)
        × (in_tx statement d₂ ≡ lift (statement (some t₂)) d₂)

    -- Two requests that start a transaction one after the other, without an operation in between, get
    -- clients with transactions of their own. But every statement, whichever of the two clients it is called
    -- through, is then run in the second transaction.
    pub shared_repositories :
        {A : Type 0} (statement : Option ℕ → Exec W A) (c c' a b : ℕ) (d d₁ d₂ : State W)
        → new_with_transaction db c d ≡ ok a d₁
        → new_with_transaction db c' d₁ ≡ ok b d₂
        → RunTogether statement a b d d₁ d₂
    unfolding in_tx
    shared_repositories statement c c' a b d d₁ d₂ first second =
        let (t₁, begun₁, heap₁, a_is) = new_with_transaction-eq-ok c a d d₁ first in
        let (t₂, begun₂, heap₂, b_is) = new_with_transaction-eq-ok c' b d₁ d₂ second in
        let next₁ : d₁.1.next ≡ suc d.1.next = ap (λ (h : Heap). h.next) heap₁ in
        (
          t₁,
          t₂,
          begun₁,
          begun₂,
          ap (λ (h : Heap). h.txs a) heap₂
              ∙ put_at-other d₁.1.next a (some t₂) d₁.1.txs
                  (λ same. absurd (omega (arith, same, a_is, next₁)))
              ∙ ap (λ (h : Heap). h.txs a) heap₁
              ∙ ap (λ k. put_at d.1.next (some t₁) d.1.txs k) a_is
              ∙ put_at-here d.1.next (some t₁) d.1.txs,
          ap (λ (h : Heap). h.txs b) heap₂
              ∙ ap (λ k. put_at d₁.1.next (some t₂) d₁.1.txs k) b_is
              ∙ put_at-here d₁.1.next (some t₂) d₁.1.txs,
          ap (λ tx. lift (statement tx) d₂)
              (ap (λ (h : Heap). h.txs h.current) heap₂ ∙ put_at-here d₁.1.next (some t₂) d₁.1.txs),
        )
