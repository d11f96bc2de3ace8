-- ===== src/Http/Others.antt =====
-- What the services behind the handlers of internal/deposit/, internal/withdrawal/ and internal/wallet/
-- leave of the balances of other users.
use mynance.Base.{Bytes, ◌≡◌, ◌≢◌, refl, ap, ◌∙◌, arith, inl, inr, List}
use mynance.Base.Int.{ℤ}
use mynance.Shared.{
  ok, Result-cases, Post-bind, Post-self, Post, Post-at, guard, ◌>>=◌ as result_bind,
}
use mynance.Store.{Uuid, Env, Db, LedgerRow, io, new_uuid}
use mynance.Store.Balance.{Adds}
use mynance.Store.Ledger.{balance}
use mynance.Deposit.{simulate, Processor, real, sandbox, process_deposit, IntakeCommand, Committed}
use mynance.Deposit.Simulate.{simulate-CreditsOnce, CreditsOnce}
use mynance.Withdrawal.{
  WithdrawCommand, WithdrawResult, withdraw, process_withdraw, simulate_withdraw, sandbox_key,
}
use mynance.Withdrawal.Debit.{withdraw-Debited}
use mynance.Wallet.{Holding}
use mynance.Wallet.Held.{Held}
use mynance.Asset.{Catalog}
use mynance.User.{delete_user}
use mynance.Http.Funds.{deposit_reply, withdraw_by}

pub Adds-other :
    (user : Uuid) (asset : Bytes) (x : ℤ) (before after : List LedgerRow)
    → Adds user asset x before after
    → (u : Uuid) (a : Bytes) → u ≢ user
    → balance u a after ≡ balance u a before
Adds-other user asset x before after h u a n = ground (arith, h u a, λ (e : u ≡ user). n e)

pub delete_user-ledger :
    (env : Env) (db : Db) (id : Uuid) → Post (λ x. x.ledger ≡ db.ledger) (delete_user env db id)
unfolding delete_user result_bind io guard Post
delete_user-ledger env db id = ground arith

sandbox_key-user :
    (text : Uuid → Bytes) (env : Env) (cmd : WithdrawCommand)
    → Post (λ c. c.user_id ≡ cmd.user_id) (sandbox_key text env cmd)
unfolding sandbox_key result_bind new_uuid io guard Post
sandbox_key-user text env cmd = ground arith

module _ (u : Uuid) (a : Bytes) (db : Db) where
  withdraw-Keeps :
      (env : Env) (catalog : Catalog) (cmd : WithdrawCommand) (d : WithdrawResult)
      → u ≢ cmd.user_id
      → withdraw env catalog db db cmd ≡ ok d
      → balance u a d.db.ledger ≡ balance u a db.ledger
  withdraw-Keeps env catalog cmd d n e =
      Adds-other cmd.user_id cmd.asset _ db.ledger d.db.ledger
        (withdraw-Debited env catalog db db cmd d e).debited u a n

  pub withdraw_by-Keeps :
      (processor : Processor) (text : Uuid → Bytes) (env : Env) (catalog : Catalog)
      (cmd : WithdrawCommand)
      → u ≢ cmd.user_id
      → Post
          (λ d. balance u a d.db.ledger ≡ balance u a db.ledger)
          (withdraw_by processor text env catalog db cmd)
  unfolding withdraw_by process_withdraw simulate_withdraw
  withdraw_by-Keeps real text env catalog cmd n =
      Post-bind _ _ _ (λ _ _. Post-self _ _ (λ d e. withdraw-Keeps env catalog cmd d n e))
  withdraw_by-Keeps sandbox text env catalog cmd n = Post-bind _ _ _ (λ _ _.
      Post-bind _ _ _ (λ keyed k.
        let same : keyed.user_id ≡ cmd.user_id =
          Post-at (λ (c : WithdrawCommand). c.user_id ≡ cmd.user_id) (sandbox_key-user text env cmd)
            k in
        Post-self _ _ (λ d e. withdraw-Keeps env catalog keyed d (λ h. n (h ∙ same)) e)))

  credits-Keeps :
      (user : Uuid) (cmd : IntakeCommand) (c : Committed)
      → u ≢ user
      → CreditsOnce db user cmd c
      → balance u a c.db.ledger ≡ balance u a db.ledger
  credits-Keeps user cmd c n (inl (d, e, adds)) =
      Adds-other user cmd.asset _ db.ledger c.db.ledger adds u a n
  credits-Keeps user cmd c n (inr (x, e, kept)) = ap (balance u a) kept

  pub process_deposit-Keeps :
      (processor : Processor) (text : Uuid → Bytes) (env intake_env confirm_env : Env) (user : Uuid)
      (cmd : IntakeCommand)
      → u ≢ user
      → balance u a
          (process_deposit processor text env intake_env confirm_env db user cmd).db.ledger
        ≡ balance u a db.ledger
  unfolding process_deposit
  process_deposit-Keeps real text env intake_env confirm_env user cmd n = refl
  process_deposit-Keeps sandbox text env intake_env confirm_env user cmd n =
      credits-Keeps user cmd (simulate text env intake_env confirm_env db user cmd) n
        (simulate-CreditsOnce text env intake_env confirm_env db user cmd)

  pub Held-Keeps :
      (user : Uuid) (asset : Bytes) (network : Uuid) (h : Holding)
      → Held db db user asset network h
      → balance u a h.db.ledger ≡ balance u a db.ledger
  Held-Keeps user asset network h (inl (found, same)) = ap (λ (x : Db). balance u a x.ledger) same
  Held-Keeps user asset network h (inr (none_seen, added)) = ap (balance u a) added.ledger_kept

  pub deposit_reply-db : (c : Committed) → (deposit_reply c).db ≡ c.db
  deposit_reply-db c = elim (Result-cases c.result) [
    | inl (d, e) ↦ rw e refl
    | inr (x, e) ↦ rw e refl
  ]
