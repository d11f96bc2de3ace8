-- ===== src/Tests/Funds.antt =====
-- Deposits, withdrawals, the shown market data and the outbox on concrete inputs.
use mynance.Base.{
  ◌≢◌, false, ◌+◌, ◌-◌, ◌≡◌, refl, true, List, [], ◌∷◌, none, some, bytes, ◌=ᵇ◌, arith, ltb,
  if◌then◌else◌, take,
}
use mynance.Base.Int.{pos, ◌≤ℤ◌, ◌*ℤ◌, ◌+ℤ◌, neg_ℤ}
use mynance.Numeric.{
  column, loaded, cmp, cmp_ℤ, to_rat, from_rat, round, round_abs, scaled, neg, zero_numeric,
}
use mynance.Shared.{ok, ◌>>=◌, guard}
use mynance.Store.{
  Db, io, new_uuid, insert_key, key_used, insert_outbox, account_id, find_account, OutboxEvent,
  order_cancelled, cancelled, pending_event, confirmed,
}
use mynance.Store.Ledger.{insert_entry, balance, sum_by_user_asset}
use mynance.Deposit.{
  IntakeCommand, Outcome, find_wallet, get_wallet, find_deposit, update_deposit, deposit_known,
  create_deposit, get_deposit, update_deposit_status, intake, confirm, simulate,
}
use mynance.Deposit.Confirm.{Decided, confirm-Decided, decision, decision-once}
use mynance.Deposit.Simulate.{CreditsOnce, simulate-CreditsOnce}
use mynance.Asset.{
  Catalog, find_network, find_network_by_id, get_network, network_id, match_address,
  validate_address,
}
use mynance.Withdrawal.{
  WithdrawCommand, WithdrawResult, withdrawal_known, insert_withdrawal, check_withdraw, withdraw_tx,
  withdraw,
}
use mynance.Withdrawal.Debit.{Debited, withdraw-Debited}
use mynance.MarketData.{
  Float, Notice, matched, max_recent_trades, new_service, notify_all, get_recent_trades,
}
use mynance.MarketData.Recent.{history, notify_all-history}
use mynance.Outbox.{
  batch_size, waiting_events, list_pending, mark_processed, increment_retries, process_events,
  process_batch,
}
use mynance.Outbox.Batch.{Outcome as BatchOutcome, EachRow, process_batch-delivers}
use mynance.Tests.{env, db, usdt, btc_usdt, num}

-- 5 of the quote asset for the wallet of user 1.
abbrev transfer : IntakeCommand
transfer = record { address = bytes "a"; asset = usdt; amount = num (pos 5); tx_hash = bytes "h" }

unfoldable taken : (d : Outcome) × (intake env db transfer ≡ ok d)
unfolding intake ◌>>=◌ guard io new_uuid get_wallet find_wallet create_deposit deposit_known ◌=ᵇ◌
    column to_rat round round_abs scaled ◌*ℤ◌
taken = (_, refl)

confirmed_transfer : (d : Outcome) × (confirm env taken.0.db taken.0.deposit.id ≡ ok d)
unfolding taken confirm ◌>>=◌ guard io new_uuid get_deposit find_deposit update_deposit
    update_deposit_status insert_entry insert_outbox account_id find_account ◌=ᵇ◌ column loaded
    to_rat round round_abs scaled ◌*ℤ◌
confirmed_transfer = (_, refl)

confirm-Decided_example :
    Decided confirmed (λ row. row.amount) taken.0.db taken.0.deposit.id confirmed_transfer.0
confirm-Decided_example =
    confirm-Decided env taken.0.db taken.0.deposit.id confirmed_transfer.0 confirmed_transfer.1

decision-once_example :
    decision false env confirmed_transfer.0.db taken.0.deposit.id ≢ ok confirmed_transfer.0
decision-once_example =
    decision-once true false env env taken.0.db taken.0.deposit.id confirmed_transfer.0
      confirmed_transfer.0 confirmed_transfer.1

simulate-CreditsOnce_example :
    CreditsOnce db 1 transfer (simulate (λ id. bytes "x") env env env db 1 transfer)
simulate-CreditsOnce_example = simulate-CreditsOnce (λ id. bytes "x") env env env db 1 transfer

abbrev catalog : Catalog
catalog = record {
  networks =
      record {
        id = 41;
        asset_symbol = usdt;
        name = bytes "n";
        address_pattern = bytes "p";
        enabled = true;
      }
      ∷ [];
  matches = λ pattern address. some true;
}

abbrev payout : WithdrawCommand
payout = record {
  user_id = 1;
  asset = usdt;
  network_name = bytes "n";
  destination_address = bytes "d";
  amount = num (pos 5);
  idempotency_key = bytes "w";
}

paid : (d : WithdrawResult) × (withdraw env catalog db db payout ≡ ok d)
unfolding withdraw check_withdraw withdraw_tx ◌>>=◌ guard io new_uuid insert_key key_used
    insert_outbox insert_entry insert_withdrawal withdrawal_known account_id find_account balance
    sum_by_user_asset network_id get_network find_network find_network_by_id validate_address
    match_address ◌=ᵇ◌ cmp cmp_ℤ to_rat from_rat round round_abs scaled column neg loaded
    zero_numeric ◌*ℤ◌ ◌+ℤ◌ neg_ℤ
paid = (_, refl)

withdraw-Debited_example : Debited db db payout paid.0
withdraw-Debited_example = withdraw-Debited env catalog db db payout paid.0 paid.1

funds : pos 0 ≤ℤ balance 1 usdt db.ledger
unfolding balance ◌=ᵇ◌ ◌+ℤ◌
funds = omega arith

-- On small patterns, where a difference is dust if it is not above zero.
abbrev float : Float
float = record { plus = λ x y. x + y; minus = λ x y. if ltb y x then some (x - y) else none }

abbrev seen_trades : List Notice
seen_trades =
    matched (record { symbol = btc_usdt; price = 20; quantity = 2; timestamp = 1 })
    ∷ matched (record { symbol = usdt; price = 1; quantity = 1; timestamp = 2 })
    ∷ []

notify_all-history_example :
    get_recent_trades (notify_all float seen_trades new_service) btc_usdt
    ≡ take max_recent_trades (history btc_usdt seen_trades [])
notify_all-history_example = notify_all-history float seen_trades btc_usdt

abbrev event : OutboxEvent
event = record {
  id = 61;
  payload = order_cancelled 51 1 cancelled;
  status = pending_event;
  retries = 0;
}

abbrev waiting_db : Db
waiting_db = record db { outbox = event ∷ [] }

published : (d : Db) × (process_batch env (λ e. true) waiting_db ≡ ok d)
unfolding process_batch list_pending waiting_events process_events mark_processed increment_retries
    ◌>>=◌ guard io
published = (_, refl)

process_batch-delivers_example :
    EachRow
      (BatchOutcome (λ e. true) (take batch_size (waiting_events waiting_db.outbox)))
      waiting_db.outbox
      published.0.outbox
process_batch-delivers_example =
    process_batch-delivers env (λ e. true) waiting_db published.0 published.1
