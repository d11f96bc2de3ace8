-- ===== src/Withdrawal/Debit.antt =====
-- What `Withdraw` of internal/withdrawal/service.go does to the books.
use Prim.Native.Nat.{Ordering}
use mynance.Base.{true_not_false, ◌≡◌, ◌≢◌, ◌∙◌, sym, ap, true, false, ◌∷◌, Bytes, arith}
use mynance.Base.Int.{ℤ, pos, ◌+ℤ◌, ◌≤ℤ◌, neg_ℤ, +ℤ_parts, neg_ℤ_parts}
use mynance.Numeric.{Numeric, column, loaded, cmp, zero_numeric}
use mynance.Numeric.Product.{column_nonneg}
use mynance.Numeric.Units.{column-neg, column_le}
use mynance.Shared.{ok, ◌>>=◌, guard, Post, Post-at, Post-bind, Post-map}
use mynance.Store.{Uuid, Env, io, new_uuid, Db, scope_withdraw, key_used, insert_key, insert_outbox}
use mynance.Store.Balance.{Adds, row-Adds, Adds-nonneg, Adds-anti}
use mynance.Store.Keys.{key_used_first}
use mynance.Store.Ledger.{balance, ledger_row, insert_entry, sum_by_user_asset}
use mynance.Order.{exceeds}
use mynance.Order.Place.{exceeds-false, enough}
use mynance.Asset.{Catalog}
use mynance.Withdrawal.{
  WithdrawCommand, WithdrawResult, Cleared, check_withdraw, withdraw_tx, withdraw, debit_entry,
  insert_withdrawal,
}

-- A withdrawal that went through, and what it did to the books.
pub record Debited (seen db : Db) (cmd : WithdrawCommand) (d : WithdrawResult) : Type 0 where
  pub positive : cmp cmd.amount zero_numeric ≡ Ordering.gt
  pub covered : column cmd.amount ≤ℤ balance cmd.user_id cmd.asset seen.ledger
  pub debited : Adds cmd.user_id cmd.asset (neg_ℤ (column cmd.amount)) db.ledger d.db.ledger
  pub stored : d.db.withdrawals ≡ d.withdrawal ∷ db.withdrawals
  pub keyed : key_used cmd.idempotency_key scope_withdraw d.db.idempotency_keys ≡ true
  pub fresh_key : key_used cmd.idempotency_key scope_withdraw db.idempotency_keys ≡ false

record Written (env : Env) (db : Db) (cmd : WithdrawCommand) (c : Cleared) (d : WithdrawResult)
    : Type 0 where
  booked : d.db.ledger ≡ ledger_row (debit_entry (env.fresh 2) (env.fresh 1) cmd c) ∷ db.ledger
  kept : d.db.withdrawals ≡ d.withdrawal ∷ db.withdrawals
  used : key_used cmd.idempotency_key scope_withdraw d.db.idempotency_keys ≡ true
  unused : key_used cmd.idempotency_key scope_withdraw db.idempotency_keys ≡ false

withdraw_tx-Written :
    (env : Env) (db : Db) (cmd : WithdrawCommand) (c : Cleared)
    → Post (Written env db cmd c) (withdraw_tx env db cmd c)
unfolding withdraw_tx Post ◌>>=◌ guard io new_uuid insert_key insert_withdrawal insert_entry
    insert_outbox
withdraw_tx-Written env db cmd c =
    ground
      (arith, key_used_first (env.fresh 0) cmd.idempotency_key scope_withdraw db.idempotency_keys)

abbrev Admitted : Db → WithdrawCommand → Cleared → Type 0
Admitted seen cmd c =
    (exceeds cmd.amount zero_numeric ≡ true)
    × (exceeds cmd.amount (loaded (balance cmd.user_id cmd.asset seen.ledger)) ≡ false)

check_withdraw-Admitted :
    (env : Env) (catalog : Catalog) (seen : Db) (cmd : WithdrawCommand)
    → Post (Admitted seen cmd) (check_withdraw env catalog seen cmd)
unfolding check_withdraw Post ◌>>=◌ guard sum_by_user_asset io
check_withdraw-Admitted env catalog seen cmd = ground arith

exceeds-true : (a b : Numeric) → exceeds a b ≡ true → cmp a b ≡ Ordering.gt
exceeds-true a b h = ground arith

withdraw-Post :
    (env : Env) (catalog : Catalog) (seen db : Db) (cmd : WithdrawCommand)
    → Post (Debited seen db cmd) (withdraw env catalog seen db cmd)
unfolding withdraw
withdraw-Post env catalog seen db cmd = Post-bind _ (check_withdraw env catalog seen cmd) _ (λ c h.
    let q = Post-at (Admitted seen cmd) (check_withdraw-Admitted env catalog seen cmd) h in
    Post-map _ (Debited seen db cmd) _
      (λ d w. record {
        positive = exceeds-true _ _ q.0;
        covered = column_le cmd.amount _ (exceeds-false _ _ q.1);
        debited =
            row-Adds (ledger_row (debit_entry (env.fresh 2) (env.fresh 1) cmd c))
              (neg_ℤ (column cmd.amount)) db.ledger d.db.ledger w.booked (column-neg cmd.amount);
        stored = w.kept;
        keyed = w.used;
        fresh_key = w.unused;
      })
      (withdraw_tx-Written env db cmd c))

-- `Withdraw` returns only for an amount above zero that is at most the balance that was read, under a
-- key that no withdrawal has used. It then books exactly minus the amount on that user and asset, moves
-- no other balance, stores the withdrawal that it returns and uses up the key.
pub withdraw-Debited :
    (env : Env) (catalog : Catalog) (seen db : Db) (cmd : WithdrawCommand) (d : WithdrawResult)
    → withdraw env catalog seen db cmd ≡ ok d
    → Debited seen db cmd d
withdraw-Debited env catalog seen db cmd d e =
    Post-at (Debited seen db cmd) (withdraw-Post env catalog seen db cmd) e

lowered : (x b : ℤ) → pos 0 ≤ℤ x → neg_ℤ x +ℤ b ≤ℤ b
lowered x b h = omega (arith, +ℤ_parts (neg_ℤ x) b, neg_ℤ_parts x)

-- If no other request commits between reading the balance and the transaction, then after a
-- withdrawal that returns every balance that was not negative is still not negative, and has not
-- risen.
pub withdraw-nonneg :
    (env : Env) (catalog : Catalog) (db : Db) (cmd : WithdrawCommand) (d : WithdrawResult)
    → withdraw env catalog db db cmd ≡ ok d
    → (u : Uuid) (a : Bytes) → pos 0 ≤ℤ balance u a db.ledger
    → (pos 0 ≤ℤ balance u a d.db.ledger) × (balance u a d.db.ledger ≤ℤ balance u a db.ledger)
withdraw-nonneg env catalog db cmd d e u a was =
    let w = withdraw-Debited env catalog db db cmd d e in
    (
      Adds-nonneg cmd.user_id cmd.asset (neg_ℤ (column cmd.amount)) db.ledger d.db.ledger w.debited
          (enough _ _ w.covered) u a was,
      Adds-anti cmd.user_id cmd.asset (neg_ℤ (column cmd.amount)) db.ledger d.db.ledger w.debited
          (lowered (column cmd.amount) (balance cmd.user_id cmd.asset db.ledger)
            (column_nonneg cmd.amount w.positive))
          u a,
    )

-- A key withdraws once: after `Withdraw` has returned, no call with the same key returns against the
-- database that it left.
pub withdraw-once :
    (env env' : Env) (catalog : Catalog) (seen seen' db : Db) (cmd cmd' : WithdrawCommand)
    (d d' : WithdrawResult)
    → withdraw env catalog seen db cmd ≡ ok d
    → cmd'.idempotency_key ≡ cmd.idempotency_key
    → withdraw env' catalog seen' d.db cmd' ≢ ok d'
withdraw-once env env' catalog seen seen' db cmd cmd' d d' e same e' =
    let first = withdraw-Debited env catalog seen db cmd d e in
    let again = withdraw-Debited env' catalog seen' d.db cmd' d' e' in
    true_not_false (
      sym first.keyed
      ∙ sym (ap (λ (k : Bytes). key_used k scope_withdraw d.db.idempotency_keys) same)
      ∙ again.fresh_key)
