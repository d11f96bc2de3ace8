-- ===== src/Tests.antt =====
-- Concrete inputs on which the theorems are applied, and runs of the services on them.
mod Books
mod Funds
mod Orders
mod Partner
mod Exchange
mod Start
mod Feed
mod Hub
mod Users
mod Web
mod Trades
use mynance.Base.{◌+◌, Bool, true, false, List, [], ◌∷◌, Option, some, Bytes, bytes}
use mynance.Base.Int.{ℤ, pos, negsuc}
use mynance.Book.{buy, sell}
use mynance.Numeric.{Numeric}
use mynance.Store.{
  Uuid, Env, Db, Account, LedgerRow, OrderRow, deposit_entry, deposit_ref, open_status,
  WalletAddress,
}

-- Every call succeeds, and the identifiers are 100, 101 and so on.
abbrev pub env : Env
env = record { fails = λ call. false; fresh = λ k. 100 + k }

abbrev pub btc : Bytes
btc = bytes "B"

abbrev pub usdt : Bytes
usdt = bytes "U"

abbrev pub btc_usdt : Bytes
btc_usdt = bytes "B-U"

-- A whole number, as `Parse` makes it.
abbrev pub num : ℤ → Numeric
num n = record { valid = true; int = some n; exp = pos 0 }

-- Users 1 and 2, each with an account in both assets.
abbrev accounts : List Account
accounts =
    record { id = 11; user_id = 1; asset = btc }
    ∷ record { id = 12; user_id = 1; asset = usdt }
    ∷ record { id = 21; user_id = 2; asset = btc }
    ∷ record { id = 22; user_id = 2; asset = usdt }
    ∷ []

abbrev credit : Uuid → Bytes → ℤ → LedgerRow
credit user asset amount = record {
  id = user;
  user_id = user;
  account_id = 0;
  asset = asset;
  amount = amount;
  entry_type = deposit_entry;
  ref_type = deposit_ref;
  ref_id = 0;
}

-- User 1 has 1000 of the quote asset and user 2 has 10 of the base asset.
abbrev ledger : List LedgerRow
ledger = credit 1 usdt (pos 10_000_000_000_000) ∷ credit 2 btc (pos 100_000_000_000) ∷ []

abbrev wallet : WalletAddress
wallet = record { id = 31; user_id = 1; asset = usdt; network_id = 41; address = bytes "a" }

-- An order to buy 3 and an order to sell 2, both at 20.
abbrev order_rows : List OrderRow
order_rows =
    record {
      id = 51;
      user_id = 1;
      symbol = btc_usdt;
      side = buy;
      price = pos 200_000_000_000;
      quantity = pos 30_000_000_000;
      filled_quantity = pos 0;
      status = open_status;
    }
    ∷ record {
      id = 52;
      user_id = 2;
      symbol = btc_usdt;
      side = sell;
      price = pos 200_000_000_000;
      quantity = pos 20_000_000_000;
      filled_quantity = pos 0;
      status = open_status;
    }
    ∷ []

abbrev pub db : Db
db = record {
  users = [];
  accounts = accounts;
  orders = order_rows;
  trades = [];
  ledger = ledger;
  idempotency_keys = [];
  outbox = [];
  wallets = wallet ∷ [];
  deposits = [];
  withdrawals = [];
}
