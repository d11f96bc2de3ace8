-- ===== src/Order.antt =====
-- Placing and cancelling orders: internal/order/service.go and internal/order/domain.go. The two
-- states that `place_order` takes are the database when the balance is read and the database when the
-- transaction runs: they differ if another request commits in between.
pub mod Symbol
pub mod Place
pub mod Accept
pub mod Release
pub mod Cancel
pub mod Roundtrip
use Prim.Native.Nat.{Ordering}
use mynance.Base.{
  ℕ, Bool, true, false, List, [], ◌∷◌, Option, none, some, Bytes, ◌=ᵇ◌, ◌==◌, ◌&&◌, ◌||◌,
  if◌then◌else◌, not, is_empty,
}
use mynance.Book.{Side, buy, sell, other}
use mynance.Numeric.{Numeric, zero_numeric, mul, sub, neg, cmp}
use mynance.Shared.{
  invalid_state_transition, insufficient_funds, validation, internal, Result, ok, err, ◌>>=◌, ◌>>◌,
  guard,
}
use mynance.Store.{
  Uuid, nil_uuid, Env, io, new_uuid, Call, begin, commit, Db, Order, Status, open_status, partial,
  filled, cancelled, LedgerEntry, reserve, release, order_ref, scope_order, Payload, order_placed,
  order_cancelled, insert_key, insert_outbox, account_id,
}
use mynance.Store.Ledger.{insert_entry, sum_by_user_asset}
use mynance.Store.Orders.{create_order, get_order, update_status}

unfoldable pub is_terminal : Status → Bool
is_terminal open_status = false
is_terminal partial = false
is_terminal filled = true
is_terminal cancelled = true

unfoldable pub is_cancellable : Status → Bool
is_cancellable open_status = true
is_cancellable partial = true
is_cancellable filled = false
is_cancellable cancelled = false

-- `strings.Split`: always at least one part.
unfoldable pub split : ℕ → Bytes → List Bytes
split sep [] = [] ∷ []
split sep (c ∷ cs) =
    let parts = split sep cs in
    if c == sep then [] ∷ parts else (elim parts [ [] ↦ (c ∷ []) ∷ [] | p ∷ ps ↦ (c ∷ p) ∷ ps ])

pub record Pair : Type 0 where
  pub base : Bytes
  pub quote : Bytes

pair_of : List Bytes → Result Pair
pair_of [] = err internal
pair_of (base ∷ []) = err internal
pair_of (base ∷ quote ∷ []) =
    if is_empty base || is_empty quote
    then err internal
    else ok (record { base = base; quote = quote })
pair_of (base ∷ quote ∷ more ∷ rest) = err internal

-- `SplitSymbol`
unfoldable pub split_symbol : Bytes → Result Pair
unfolding split pair_of
split_symbol symbol = pair_of (split b'-' symbol)

pub record PlaceOrderCommand : Type 0 where
  pub user_id : Uuid
  pub symbol : Bytes
  pub side : Side
  pub price : Numeric
  pub quantity : Numeric
  pub idempotency_key : Bytes

unfoldable pub listed : Bytes → List Bytes → Bool
listed symbol [] = false
listed symbol (m ∷ ms) = if m =ᵇ symbol then true else listed symbol ms

pub record Reserve : Type 0 where
  pub asset : Bytes
  pub amount : Numeric

-- The asset and the amount that an order of this side takes: `price * quantity` of the quote asset,
-- or `quantity` of the base asset.
unfoldable pub reserve_of : Side → Pair → Numeric → Numeric → Result Reserve
reserve_of buy pair price quantity = ok (record { asset = pair.quote; amount = mul price quantity })
reserve_of sell pair price quantity = ok (record { asset = pair.base; amount = quantity })
reserve_of (other s) pair price quantity = err internal

pub record Checked : Type 0 where
  pub reserve : Reserve
  pub account_id : Uuid

abbrev pub exceeds : Numeric → Numeric → Bool
exceeds a b = elim (cmp a b) [ Ordering.gt ↦ true | _ ↦ false ]

-- `PlaceOrder` up to the start of its transaction.
unfoldable pub check_order : Env → List Bytes → Db → PlaceOrderCommand → Result Checked
check_order env markets db cmd = do
  guard (not (cmd.user_id == nil_uuid)) validation
  guard (is_empty markets || listed cmd.symbol markets) validation
  pair ← split_symbol cmd.symbol
  r ← reserve_of cmd.side pair cmd.price cmd.quantity
  account ← account_id env 0 cmd.user_id r.asset db
  balance ← sum_by_user_asset env 1 cmd.user_id r.asset db
  guard (not (exceeds r.amount balance)) insufficient_funds
  ok (record { reserve = r; account_id = account })

-- What the services tell the engine after a commit; a refusal is only logged.
pub data EngineCall : Type 0 where
  submit_place : Order → EngineCall
  submit_cancel : Uuid → Bytes → EngineCall

pub record Done : Type 0 where
  pub order : Order
  pub db : Db
  pub call : EngineCall

abbrev pub new_order : Uuid → PlaceOrderCommand → Order
new_order id cmd = record {
  id = id;
  user_id = cmd.user_id;
  symbol = cmd.symbol;
  side = cmd.side;
  price = cmd.price;
  quantity = cmd.quantity;
  filled_quantity = zero_numeric;
  status = open_status;
}

abbrev pub reserve_entry : Uuid → Uuid → PlaceOrderCommand → Checked → LedgerEntry
reserve_entry id order_id cmd c = record {
  id = id;
  user_id = cmd.user_id;
  account_id = c.account_id;
  asset = c.reserve.asset;
  amount = neg c.reserve.amount;
  entry_type = reserve;
  ref_type = order_ref;
  ref_id = order_id;
}

-- The transaction of `PlaceOrder`.
unfoldable pub place_tx : Env → Db → PlaceOrderCommand → Checked → Result Done
place_tx env db cmd c = do
  io env begin
  keyed ← insert_key env 0 0 cmd.idempotency_key scope_order db
  order_id ← new_uuid env 1
  created ← create_order env 1 (new_order order_id cmd) keyed
  entry_id ← new_uuid env 2
  booked ← insert_entry env 2 (reserve_entry entry_id order_id cmd c) created
  told ← insert_outbox env 3 3 (order_placed (new_order order_id cmd)) booked
  io env commit
  ok (record {
    order = new_order order_id cmd;
    db = told;
    call = submit_place (new_order order_id cmd);
  })

-- `PlaceOrder`, its balance read in the first state.
unfoldable pub place_order : Env → List Bytes → Db → Db → PlaceOrderCommand → Result Done
place_order env markets seen db cmd = do c ← check_order env markets seen cmd; place_tx env db cmd c

abbrev pub release_entry : Uuid → Uuid → Order → Bytes → Numeric → LedgerEntry
release_entry id account o asset amount = record {
  id = id;
  user_id = o.user_id;
  account_id = account;
  asset = asset;
  amount = amount;
  entry_type = release;
  ref_type = order_ref;
  ref_id = o.id;
}

-- Book what was not filled, if it is positive.
unfoldable pub release_rest : Env → Db → Order → Bytes → Numeric → Result Db
release_rest env db o asset unreserved =
    if exceeds unreserved zero_numeric
    then (do
      account ← account_id env 2 o.user_id asset db
      entry_id ← new_uuid env 0
      insert_entry env 0 (release_entry entry_id account o asset unreserved) db)
    else ok db

-- `CancelOrder`: the status is tested before the transaction and again on the locked row.
unfoldable pub cancel_order : Env → Db → Db → Uuid → Result Done
unfolding release_rest
cancel_order env seen db id = do
  existing ← get_order env 0 id seen
  guard (is_cancellable existing.status) invalid_state_transition
  io env begin
  o ← get_order env 1 id db
  guard (is_cancellable o.status) invalid_state_transition
  pair ← split_symbol o.symbol
  total ← reserve_of o.side pair o.price o.quantity
  filled_part ← reserve_of o.side pair o.price o.filled_quantity
  let unreserved = sub total.amount filled_part.amount
  released ← release_rest env db o total.asset unreserved
  done ← update_status env 1 o.id cancelled released
  told ← insert_outbox env 1 2 (order_cancelled o.id o.user_id cancelled) done
  io env commit
  ok (record {
    order = record o { status = cancelled };
    db = told;
    call = submit_cancel o.id o.symbol;
  })
