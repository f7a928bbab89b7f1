-- ===== src/Repository/Atomic.antt =====
-- Operations that run inside `WithAtomic`.
use authenticator.Common.{ℕ, ◌≡◌}
use authenticator.Effect.{ok, Exec}
use authenticator.Effect.Ensures.{Ensures}
use authenticator.Domain.{User}
use authenticator.Repository.{
  Entity, user_entity, device_entity, login_entity, RepositoryManager, as_user,
}

module _ {W : Type 0} (repos : RepositoryManager W) where
  -- A transaction that is committed has run its operation, which returned the entity.
  pub record IsAtomic : Type 0 where
    pub atomic_ran :
        (client : ℕ) (operation : Exec W Entity) (e : Entity) (w w' : W)
        → repos.with_atomic client operation w ≡ ok e w'
        → (u : W) × (v : W) × (operation u ≡ ok e v)

  pub Ensures-atomic :
      {P : Entity → Type 0} (client : ℕ) (operation : Exec W Entity)
      → IsAtomic
      → ((u : W) → Ensures (operation u) (λ e _. P e))
      → {w : W} → Ensures (repos.with_atomic client operation w) (λ e _. P e)
  Ensures-atomic client operation atomic k {w} e w' h =
      let (u, v, ran) = atomic.atomic_ran client operation e w w' h in k u e v ran

pub as_user-eq-ok :
    {W : Type 0} (e : Entity) (v : W) {v' : W} {user : User}
    → as_user e v ≡ ok user v'
    → e ≡ user_entity user
as_user-eq-ok (user_entity u) v h = cc
as_user-eq-ok (device_entity d) v h = cc
as_user-eq-ok (login_entity l) v h = cc

pub entity-injective : {a b : User} → user_entity a ≡ user_entity b → a ≡ b
entity-injective h = cc
