-- ===== src/Deposit/Simulate.antt =====
-- What `Intake` and `Simulate` of internal/deposit/service.go leave in the database.
use mynance.Base.{
  ℕ, ◌≡◌, ◌∙◌, sym, ap, subst, refl, true, List, ◌∷◌, some, some_inj, ◌⊎◌, inl, inr, ◌==◌, Bytes,
  ◌=ᵇ◌, arith, ==_refl,
}
use mynance.Numeric.{column}
use mynance.Shared.{
  Error, Result, Result-cases, ok, err, ◌>>=◌, guard, guard-ok, Post, Post-at, Post-bind, Post-ok,
  Post-map,
}
use mynance.Store.{Uuid, Env, Db, Deposit, DepositRow, LedgerRow, io, new_uuid, WalletAddress}
use mynance.Store.Balance.{Adds}
use mynance.Deposit.{
  IntakeCommand, find_wallet, get_wallet, find_deposit, deposit_row, create_deposit, Outcome,
  new_deposit, intake, confirm, Committed, then_confirm, check_simulated, sandbox_hash, simulate,
}
use mynance.Deposit.Confirm.{confirm-Decided}

-- A deposit that was taken in: it is PENDING, belongs to the owner of the address, and moved no money.
pub record Taken (db : Db) (cmd : IntakeCommand) (d : Outcome) : Type 0 where
  pub wallet : WalletAddress
  pub owned : find_wallet cmd.address db.wallets ≡ some wallet
  pub same_asset : (wallet.asset =ᵇ cmd.asset) ≡ true
  pub returned : d.deposit ≡ new_deposit d.deposit.id wallet cmd
  pub stored : find_deposit d.deposit.id d.db.deposits ≡ some (deposit_row d.deposit)
  pub ledger_kept : d.db.ledger ≡ db.ledger

get_wallet-ok :
    (env : Env) (k : ℕ) (address : Bytes) (db : Db) (w : WalletAddress)
    → get_wallet env k address db ≡ ok w
    → find_wallet address db.wallets ≡ some w
unfolding get_wallet ◌>>=◌ io guard
get_wallet-ok env k address db w h = ground arith

create_deposit-Post :
    (env : Env) (k : ℕ) (d : Deposit) (db : Db)
    → Post
        (λ x. (x.deposits ≡ deposit_row d ∷ db.deposits) × (x.ledger ≡ db.ledger))
        (create_deposit env k d db)
unfolding create_deposit ◌>>=◌ io guard Post
create_deposit-Post env k d db = ground arith

first_deposit :
    (row : DepositRow) (rows : List DepositRow) → find_deposit row.id (row ∷ rows) ≡ some row
unfolding find_deposit
first_deposit row rows = rw (==_refl row.id) refl

intake-Post : (env : Env) (db : Db) (cmd : IntakeCommand) → Post (Taken db cmd) (intake env db cmd)
unfolding intake
intake-Post env db cmd = Post-bind _ _ _ (λ w got. Post-bind _ _ _ (λ _ same.
    Post-bind _ _ _ (λ _ _. Post-bind _ _ _ (λ id _. Post-bind _ _ _ (λ created c.
      Post-bind _ _ _ (λ _ _.
        let made =
          Post-at
            (λ (x : Db).
              (x.deposits ≡ deposit_row (new_deposit id w cmd) ∷ db.deposits)
              × (x.ledger ≡ db.ledger))
            (create_deposit-Post env 0 (new_deposit id w cmd) db) c in
        Post-ok _ _ (record {
          wallet = w;
          owned = get_wallet-ok env 0 cmd.address db w got;
          same_asset = guard-ok _ _ same;
          returned = refl;
          stored =
              ap (find_deposit id) made.0
              ∙ first_deposit (deposit_row (new_deposit id w cmd)) db.deposits;
          ledger_kept = made.1;
        })))))))

-- `Intake` returns only if the address is a known wallet's of that asset. The deposit that it returns
-- is PENDING, belongs to the wallet's owner, is stored under its identifier, and credits nobody.
pub intake-Taken :
    (env : Env) (db : Db) (cmd : IntakeCommand) (d : Outcome)
    → intake env db cmd ≡ ok d
    → Taken db cmd d
intake-Taken env db cmd d e = Post-at (Taken db cmd) (intake-Post env db cmd) e

-- What a simulated deposit may leave: the credit of a returned deposit, or no credit at all.
abbrev pub CreditsOnce : Db → Uuid → IntakeCommand → Committed → Type 0
CreditsOnce db user cmd c =
    ((d : Deposit) × (c.result ≡ ok d)
      × Adds user cmd.asset (column cmd.amount) db.ledger c.db.ledger)
    ⊎ ((e : Error) × (c.result ≡ err e) × (c.db.ledger ≡ db.ledger))

credit_taken :
    (env : Env) (db : Db) (cmd : IntakeCommand) (wallet : WalletAddress) (taken done : Outcome)
    → Taken db cmd taken
    → find_wallet cmd.address db.wallets ≡ some wallet
    → confirm env taken.db taken.deposit.id ≡ ok done
    → Adds wallet.user_id cmd.asset (column cmd.amount) db.ledger done.db.ledger
credit_taken env db cmd wallet taken done h w e =
    let c = confirm-Decided env taken.db taken.deposit.id done e in
    let row : c.row ≡ deposit_row (new_deposit taken.deposit.id h.wallet cmd) =
      some_inj (sym c.found ∙ h.stored) ∙ ap deposit_row h.returned in
    subst
      (λ (l : List LedgerRow). Adds wallet.user_id cmd.asset (column cmd.amount) l done.db.ledger)
      h.ledger_kept
      (subst
        (λ (x : WalletAddress).
          Adds x.user_id cmd.asset (column cmd.amount) taken.db.ledger done.db.ledger)
        (some_inj (sym h.owned ∙ w))
        (subst (λ (r : DepositRow). Adds r.user_id r.asset r.amount taken.db.ledger done.db.ledger)
          row c.credited))

==_sound : (a b : ℕ) → (a == b) ≡ true → a ≡ b
==_sound a b h = ground arith

-- The request of the calling user, with the hash filled in.
own_request :
    (db : Db) (user : Uuid) (cmd f : IntakeCommand) (wallet : WalletAddress) (c : Committed)
    → wallet.user_id ≡ user
    → f.asset ≡ cmd.asset
    → f.amount ≡ cmd.amount
    → CreditsOnce db wallet.user_id f c
    → CreditsOnce db user cmd c
own_request db user cmd f wallet c mine asset amount (inl (d, e, adds)) =
    inl (d, e, rw (sym mine, sym asset, sym amount) adds)
own_request db user cmd f wallet c mine asset amount (inr (x, e, kept)) = inr (x, e, kept)

then_confirm-CreditsOnce :
    (env : Env) (db : Db) (cmd : IntakeCommand) (wallet : WalletAddress) (r : Result Outcome)
    → Post (Taken db cmd) r
    → find_wallet cmd.address db.wallets ≡ some wallet
    → CreditsOnce db wallet.user_id cmd (then_confirm env db r)
unfolding then_confirm Post
then_confirm-CreditsOnce env db cmd wallet (err e) h w = inr (e, refl, refl)
then_confirm-CreditsOnce env db cmd wallet (ok taken) h w =
    elim (Result-cases (confirm env taken.db taken.deposit.id)) [
      | inl (done, e) ↦
          rw (e, then_confirm)
            (inl (done.deposit, refl, credit_taken env db cmd wallet taken done h w e))
      | inr (x, e) ↦ rw (e, then_confirm) (inr (x, refl, h.ledger_kept))
    ]

sandbox_hash-Post :
    (uuid_text : Uuid → Bytes) (env : Env) (cmd : IntakeCommand)
    → Post
        (λ f. (f.address ≡ cmd.address) × (f.asset ≡ cmd.asset) × (f.amount ≡ cmd.amount))
        (sandbox_hash uuid_text env cmd)
unfolding sandbox_hash ◌>>=◌ new_uuid io guard Post
sandbox_hash-Post uuid_text env cmd = ground arith

abbrev Own : Db → Uuid → IntakeCommand → IntakeCommand → Type 0
Own db user cmd f =
    (wallet : WalletAddress) × (find_wallet f.address db.wallets ≡ some wallet)
    × (wallet.user_id ≡ user)
    × (f.asset ≡ cmd.asset)
    × (f.amount ≡ cmd.amount)

check_simulated-Own :
    (uuid_text : Uuid → Bytes) (env : Env) (db : Db) (user : Uuid) (cmd : IntakeCommand)
    → Post (Own db user cmd) (check_simulated uuid_text env db user cmd)
unfolding check_simulated
check_simulated-Own uuid_text env db user cmd = Post-bind _ _ _ (λ w got. Post-bind _ _ _ (λ _ mine.
    Post-bind _ _ _ (λ _ _.
      Post-map _ (Own db user cmd) _
        (λ f h. (
          w,
          ap (λ (a : Bytes). find_wallet a db.wallets) h.0
              ∙ get_wallet-ok env 0 cmd.address db w got,
          ==_sound w.user_id user (guard-ok _ _ mine),
          h.1,
          h.2,
        ))
        (sandbox_hash-Post uuid_text env cmd))))

-- `Simulate`, whatever fails in it, either returns a deposit, having credited exactly the amount of the
-- request to the calling user in its asset and moved no other balance, or returns an error and has
-- credited nobody.
pub simulate-CreditsOnce :
    (uuid_text : Uuid → Bytes) (env intake_env confirm_env : Env) (db : Db) (user : Uuid)
    (cmd : IntakeCommand)
    → CreditsOnce db user cmd (simulate uuid_text env intake_env confirm_env db user cmd)
unfolding simulate
simulate-CreditsOnce uuid_text env intake_env confirm_env db user cmd =
    elim (Result-cases (check_simulated uuid_text env db user cmd)) [
      | inr (x, e) ↦ rw (e, simulate) (inr (x, refl, refl))
      | inl (f, e) ↦
          let (wallet, owned, mine, asset, amount) =
            Post-at (Own db user cmd) (check_simulated-Own uuid_text env db user cmd) e in
          rw (e, simulate)
            (own_request db user cmd f wallet (then_confirm confirm_env db (intake intake_env db f))
              mine asset amount
              (then_confirm-CreditsOnce confirm_env db f wallet (intake intake_env db f)
                (intake-Post intake_env db f) owned))
    ]
