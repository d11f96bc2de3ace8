-- ===== src/Store/Keys.antt =====
-- The keys of internal/idempotency/store.go once they are taken, and the events of internal/outbox/store.go.
use mynance.Base.{arith, ℕ, ◌≡◌, refl, true, List, ◌∷◌, Bytes, =ᵇ_refl}
use mynance.Shared.{◌>>=◌, guard, Post}
use mynance.Store.{
  io, new_uuid, Env, Payload, Db, insert_outbox, Scope, scope_order, scope_trade, scope_withdraw,
  IdempotencyKey, Uuid, key_used, same_scope,
}

same_scope_refl : (s : Scope) → same_scope s s ≡ true
unfolding same_scope
same_scope_refl scope_order = refl
same_scope_refl scope_trade = refl
same_scope_refl scope_withdraw = refl

pub key_used_first :
    (id : Uuid) (key : Bytes) (scope : Scope) (keys : List IdempotencyKey)
    → key_used key scope (record { id = id; key = key; scope = scope } ∷ keys) ≡ true
unfolding key_used
key_used_first id key scope keys = rw (=ᵇ_refl key, same_scope_refl scope) refl

-- An event in the outbox changes no other table.
pub insert_outbox-Post :
    (env : Env) (i k : ℕ) (p : Payload) (db : Db)
    → Post (λ x. (x.orders ≡ db.orders) × (x.ledger ≡ db.ledger)) (insert_outbox env i k p db)
unfolding insert_outbox ◌>>=◌ io new_uuid guard Post
insert_outbox-Post env i k p db = ground arith
