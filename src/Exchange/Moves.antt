-- ===== src/Exchange/Moves.antt =====
-- An abstract exchange, which knows orders by their identifier and balances by user and asset, and
-- nothing of keys, accounts, events or the order of rows; and what each request is in it.
use mynance.Base.{
  ◌≡◌, ◌≢◌, ◌∙◌, ap, Option, none, some, Bytes, ◌=ᵇ◌, ◌==◌, ◌&&◌, if◌then◌else◌, true, false, inl,
  inr, arith, List, [], ◌∷◌, ◌++◌,
}
use mynance.Base.Int.{ℤ, pos, ◌+ℤ◌, ◌-ℤ◌, neg_ℤ}
use mynance.Numeric.{column, mul, loaded, cmp, zero_numeric}
use Prim.Native.Nat.{Ordering}
use mynance.Book.{buy, sell}
use mynance.Shared.{ok, Post-at}
use mynance.Store.{Uuid, Db, Order, OrderRow, Status, open_status, cancelled, DepositRow, pending}
use mynance.Deposit.{find_deposit}
use mynance.Withdrawal.{WithdrawCommand}
use mynance.Store.Ledger.{balance}
use mynance.Store.Orders.{find_order, order_row, with_status}
use mynance.Order.{
  PlaceOrderCommand, Pair, Reserve, new_order, split_symbol, reserve_of, is_terminal,
  is_cancellable,
}
use mynance.Order.Place.{reserve_for, place_order-Books, find_later}
use mynance.Order.Release.{surplus}
use mynance.Order.Cancel.{cancel_order-Cancelling}
use mynance.Trade.{ExecuteTradeCommand}
use mynance.Trade.Entries.{trade_share}
use mynance.Trade.Fills.{after_fill}
use mynance.Trade.Settle.{execute_trade-Settling}
use mynance.Deposit.Confirm.{confirm-Decided}
use mynance.Withdrawal.Debit.{withdraw-Debited}
use mynance.User.Signup.{create_user-Welcomed}
use mynance.Wallet.Held.{get_or_create_address-HeldFor}
use mynance.Settlement.Partner.{Stored, persist_market_order-Stored}
use mynance.Exchange.{
  Step, placed, dropped, traded, stored, announced, credited, denied, withdrawn, addressed, opened,
  closed, joined, left, Reach, here, next,
}
use mynance.Exchange.Frame.{
  Idle, Funding, intake-Idle, confirm-Funding, reject-Idle, create_account-Idle,
  delete_account-Idle, delete_user-Idle, withdraw-orders,
}

pub record View : Type 0 where
  pub orders : Uuid → Option OrderRow
  pub balances : Uuid → Bytes → ℤ

abbrev pub view : Db → View
view db = record { orders = λ id. find_order id db.orders; balances = λ u a. balance u a db.ledger }

abbrev pub SameOrders : View → View → Type 0
SameOrders v w = (id : Uuid) → w.orders id ≡ v.orders id

abbrev pub SameBalances : View → View → Type 0
SameBalances v w = (u : Uuid) (a : Bytes) → w.balances u a ≡ v.balances u a

-- The amount joins one balance, and no other balance moves.
abbrev pub Joins : Uuid → Bytes → ℤ → View → View → Type 0
Joins user asset amount v w =
    (u : Uuid) (a : Bytes)
    → w.balances u a
      ≡ (if (user == u) && (asset =ᵇ a) then amount +ℤ v.balances u a else v.balances u a)

-- The order of that identifier becomes this one, and no other order changes.
abbrev pub Becomes : Uuid → OrderRow → View → View → Type 0
Becomes id row v w =
    (w.orders id ≡ some row) × ((other : Uuid) → other ≢ id → w.orders other ≡ v.orders other)

-- What a request asks of the abstract exchange; a deposit that is confirmed is the one stored.
pub data Request : Type 0 where
  place : PlaceOrderCommand → Request
  cancel : Uuid → Request
  trade : ExecuteTradeCommand → Request
  market_order : Uuid → Request
  credit : Option DepositRow → Request
  pay : WithdrawCommand → Request
  other : Request

-- The moves of the abstract exchange, by what was asked.
pub data Move (v w : View) : Request → Type 0 where
  -- a request that is about something else changes nothing that it knows of;
  rests : SameOrders v w → SameBalances v w → Move v w other
  -- the order asked for opens under a new identifier, and what it needs is held;
  holds :
      (id : Uuid) (cmd : PlaceOrderCommand) (r : Reserve)
      → reserve_for cmd ≡ ok r
      → v.orders id ≡ none
      → Becomes id (order_row (new_order id cmd)) v w
      → Joins cmd.user_id r.asset (neg_ℤ (column r.amount)) v w
      → Move v w (place cmd)
  -- an order of the user MARKET opens, and nothing is held;
  enters :
      (market id : Uuid) (row : OrderRow)
      → row.user_id ≡ market
      → (row.status ≡ open_status) × (row.filled_quantity ≡ pos 0)
      → v.orders id ≡ none
      → Becomes id row v w
      → SameBalances v w
      → Move v w (market_order market)
  -- the order named is cancelled, and what it held for its unfilled part is given back;
  releases :
      (id : Uuid) (row : OrderRow) (pair : Pair) (whole filled : Reserve)
      → v.orders id ≡ some row
      → is_terminal row.status ≡ false
      → split_symbol row.symbol ≡ ok pair
      → reserve_of row.side pair (loaded row.price) (loaded row.quantity) ≡ ok whole
      → reserve_of row.side pair (loaded row.price) (loaded row.filled_quantity) ≡ ok filled
      → Becomes id (with_status cancelled row) v w
      → Joins row.user_id whole.asset (surplus (column whole.amount -ℤ column filled.amount)) v w
      → Move v w (cancel id)
  -- the two orders named fill by the same quantity, and the base asset and its cost change hands;
  swaps :
      (cmd : ExecuteTradeCommand) (pair : Pair) (bought sold : OrderRow)
      → split_symbol cmd.symbol ≡ ok pair
      → (v.orders cmd.buy_order_id ≡ some bought) × (v.orders cmd.sell_order_id ≡ some sold)
      → (bought.side ≡ buy) × (sold.side ≡ sell)
      → (is_terminal bought.status ≡ false) × (is_terminal sold.status ≡ false)
      → w.orders cmd.buy_order_id ≡ some (after_fill cmd.quantity bought)
      → w.orders cmd.sell_order_id ≡ some (after_fill cmd.quantity sold)
      → ((id : Uuid) → id ≢ cmd.buy_order_id → id ≢ cmd.sell_order_id → w.orders id ≡ v.orders id)
      → ((u : Uuid) (a : Bytes)
          → w.balances u a
            ≡ trade_share bought.user_id sold.user_id pair
                (column cmd.quantity)
                (column (mul cmd.price cmd.quantity))
                u
                a
              +ℤ v.balances u a)
      → Move v w (trade cmd)
  -- the stored deposit is there and PENDING, and its amount joins the balance of its user;
  credits :
      (row : DepositRow)
      → row.status ≡ pending
      → SameOrders v w
      → Joins row.user_id row.asset row.amount v w
      → Move v w (credit (some row))
  -- the amount asked for is above zero, and is paid out.
  debits :
      (cmd : WithdrawCommand)
      → cmp cmd.amount zero_numeric ≡ Ordering.gt
      → SameOrders v w
      → Joins cmd.user_id cmd.asset (neg_ℤ (column cmd.amount)) v w
      → Move v w (pay cmd)

-- One move for each request, in their order.
pub data Moves (v : View) : List Request → View → Type 0 where
  none_yet : Moves v [] v
  then_move :
      {rs : List Request} {r : Request} {w x : View}
      → Moves v rs w
      → Move w x r
      → Moves v (rs ++ (r ∷ [])) x

unfoldable pub request_of : {db x : Db} → Step db x → Request
request_of (placed env markets seen cmd d e) = place cmd
request_of (dropped env seen id d e) = cancel id
request_of (traded env cmd d e) = trade cmd
request_of (stored f env market side symbol price qty p e) = market_order market
request_of {db} (credited env id d e) = credit (find_deposit id db.deposits)
request_of (withdrawn env catalog seen cmd d e) = pay cmd
request_of _ = other

unfoldable pub requests : {db x : Db} → Reach db x → List Request
requests here = []
requests (next r s) = requests r ++ (request_of s ∷ [])

cancellable_not_terminal : (s : Status) → is_cancellable s ≡ true → is_terminal s ≡ false
unfolding is_cancellable is_terminal
cancellable_not_terminal s h = ground arith

-- A database with the same orders and the same entries.
idle : (db x : Db) → x.orders ≡ db.orders → x.ledger ≡ db.ledger → Move (view db) (view x) other
idle db x o l = rests (λ id. ap (find_order id) o) (λ u a. ap (balance u a) l)

entered :
    (db x : Db) (market id : Uuid) (row : OrderRow)
    → row.user_id ≡ market
    → (row.status ≡ open_status) × (row.filled_quantity ≡ pos 0)
    → row.id ≡ id
    → find_order id db.orders ≡ none
    → find_order id x.orders ≡ some row
    → x.orders ≡ row ∷ db.orders
    → x.ledger ≡ db.ledger
    → Move (view db) (view x) (market_order market)
entered db x market id row owned o same fresh found rows l =
    enters market id row owned o fresh
      (
        found,
        λ other ne.
            ap (find_order other) rows ∙ find_later row db.orders other (λ e. ne (e ∙ same)),
      )
      (λ u a. ap (balance u a) l)

pub Step-Move : {db x : Db} (s : Step db x) → Move (view db) (view x) (request_of s)
unfolding request_of
Step-Move {db} (placed env markets seen cmd d e) =
    let (r, k, b) = place_order-Books env markets seen db cmd d e in
    holds d.order.id cmd r k b.fresh
      (b.stored ∙ ap (λ (o : Order). some (order_row o)) b.ordered, b.others) b.reserved
Step-Move {db} (dropped env seen id d e) =
    let c = cancel_order-Cancelling env seen db id d e in
    releases id c.row c.pair c.whole c.filled c.found (cancellable_not_terminal _ c.live) c.splits
      c.for_whole c.for_filled (c.closed, c.others) c.released
Step-Move {db} (traded env cmd d e) =
    let s = execute_trade-Settling env db cmd d e in
    swaps cmd s.pair s.bought s.sold s.splits (s.buy_found, s.sell_found) s.sides s.live
      s.buy_filled s.sell_filled s.others s.booked.moved
Step-Move {db} (stored f env market side symbol price qty p e) =
    let s =
      Post-at (Stored market side db)
        (persist_market_order-Stored f env market side symbol price qty db) e in
    entered db p.db market p.id s.row s.owned s.opened s.fresh.0 s.fresh.1 s.found s.placed
      s.ledger_kept
Step-Move {db} (announced env cmd d e) =
    let k = Post-at (λ d. Idle db d.db) (intake-Idle env db cmd) e in idle db d.db k.0 k.2
Step-Move {db} (credited env id d e) =
    let k = Post-at (λ d. Funding db d.db) (confirm-Funding env db id) e in
    let c = confirm-Decided env db id d e in
    rw c.found (credits c.row c.was_pending (λ i. ap (find_order i) k.0) c.credited)
Step-Move {db} (denied env id d e) =
    let k = Post-at (λ d. Idle db d.db) (reject-Idle env db id) e in idle db d.db k.0 k.2
Step-Move {db} (withdrawn env catalog seen cmd d e) =
    let w = withdraw-Debited env catalog seen db cmd d e in
    debits cmd w.positive
      (λ i.
        ap (find_order i)
          (Post-at (λ d. d.db.orders ≡ db.orders) (withdraw-orders env catalog seen db cmd) e))
      w.debited
Step-Move {db} (addressed r env rounds catalog seen user asset name h e) =
    let (network, known, held) =
      get_or_create_address-HeldFor r env rounds catalog seen db user asset name h e in
    elim held [
      | inl old ↦ idle db h.db (ap (λ (y : Db). y.orders) old.1) (ap (λ (y : Db). y.ledger) old.1)
      | inr (none_held, new) ↦ idle db h.db new.orders_kept new.ledger_kept
    ]
Step-Move {db} (opened env user asset d e) =
    let k = Post-at (λ d. Idle db d.db) (create_account-Idle env db user asset) e in
    idle db d.db k.0 k.2
Step-Move {db} (closed env id x e) =
    let k = Post-at (Idle db) (delete_account-Idle env db id) e in idle db x k.0 k.2
Step-Move {db} (joined crypto salt env assets cmd d e) =
    let (hash, hashing, w) = create_user-Welcomed crypto salt env assets db cmd d e in
    idle db d.db w.orders_kept w.ledger_kept
Step-Move {db} (left env id x e) =
    let k = Post-at (Idle db) (delete_user-Idle env db id) e in idle db x k.0 k.2

-- Whatever requests commit, and whatever earlier states they have read, the orders and balances of the
-- database go through one move of the abstract exchange for each request, in their order, and it is the move
-- for what that request asked: the order that was placed, the order cancelled, the trade, the order of MARKET,
-- the deposit as it is stored, the withdrawal, or nothing for a request that is about something else.
pub Reach-Moves : {db x : Db} (r : Reach db x) → Moves (view db) (requests r) (view x)
unfolding requests
Reach-Moves here = none_yet
Reach-Moves (next r s) = then_move (Reach-Moves r) (Step-Move s)
