-- ===== src/Trade/Debit.antt =====
-- What placing a buy order (internal/order/service.go) and trading it (internal/trade/service.go) take
-- from the buyer together.
use mynance.Base.{
  ℕ, ◌≡◌, ◌≢◌, ◌∙◌, sym, ap, subst, false, List, Bytes, some, some_inj, ◌==◌, ==_iff, ==_refl, ◌=ᵇ◌,
  =ᵇ_refl, bytes_iff, arith, Bool-cases, inl, inr,
}
use mynance.Base.Int.{ℤ, pos, ◌+ℤ◌, neg_ℤ, +ℤ_parts, eq_of_parts}
use mynance.Book.{Side, buy}
use mynance.Numeric.{column, mul}
use mynance.Shared.{Result, ok, ok_inj, ◌>>=◌}
use mynance.Store.{Uuid, Env, Db, OrderRow}
use mynance.Store.Balance.{Adds-self}
use mynance.Store.Ledger.{balance}
use mynance.Store.Orders.{find_order, order_row}
use mynance.Order.{
  Pair, Reserve, PlaceOrderCommand, Done, reserve_of, place_order, split_symbol, new_order,
}
use mynance.Order.Place.{reserve_for, place_order-Books}
use mynance.Trade.{ExecuteTradeCommand, Settled, execute_trade}
use mynance.Trade.Entries.{trade_share}
use mynance.Trade.Settle.{execute_trade-Settling}

not_same : (a b : ℕ) → a ≢ b → (a == b) ≡ false
not_same a b h = elim (Bool-cases (a == b)) [ inl e ↦ absurd (h ((==_iff a b).0 e)) | inr e ↦ e ]

not_equal : (a b : Bytes) → a ≢ b → (a =ᵇ b) ≡ false
not_equal a b h = elim (Bool-cases (a =ᵇ b)) [
  | inl e ↦ absurd (h ((bytes_iff a b).0 e))
  | inr e ↦ e
]

only_third : (x : ℤ) → pos 0 +ℤ (pos 0 +ℤ (x +ℤ pos 0)) ≡ x
only_third x = eq_of_parts _ _ (
    omega (
      arith,
      +ℤ_parts (pos 0) (pos 0 +ℤ (x +ℤ pos 0)),
      +ℤ_parts (pos 0) (x +ℤ pos 0),
      +ℤ_parts x (pos 0),
    ))

-- The buyer's share of a trade in the quote asset.
trade_share-quote :
    (buyer seller : Uuid) (pair : Pair) (base quote : ℤ)
    → seller ≢ buyer
    → pair.base ≢ pair.quote
    → trade_share buyer seller pair base quote buyer pair.quote ≡ neg_ℤ quote
trade_share-quote buyer seller pair base quote apart ne =
    rw
      (
        not_same seller buyer apart,
        ==_refl buyer,
        =ᵇ_refl pair.quote,
        not_equal pair.base pair.quote ne,
      )
      (only_third (neg_ℤ quote))

quote_reserve :
    (cmd : PlaceOrderCommand) (pair : Pair) (r : Reserve)
    → cmd.side ≡ buy
    → split_symbol cmd.symbol ≡ ok pair
    → reserve_for cmd ≡ ok r
    → r.asset ≡ pair.quote
unfolding ◌>>=◌ reserve_of
quote_reserve cmd pair r side splits k =
    let at_pair : reserve_of cmd.side pair cmd.price cmd.quantity ≡ ok r =
      subst (λ (m : Result Pair). (m >>= λ x. reserve_of cmd.side x cmd.price cmd.quantity) ≡ ok r)
        splits k in
    let at_buy : reserve_of buy pair cmd.price cmd.quantity ≡ ok r =
      subst (λ (s : Side). reserve_of s pair cmd.price cmd.quantity ≡ ok r) side at_pair in
    sym (ap (λ (x : Reserve). x.asset) (ok_inj at_buy))

placed_quote :
    (env : Env) (markets : List Bytes) (seen db : Db) (cmd : PlaceOrderCommand) (d : Done)
    (pair : Pair) (r : Reserve)
    → place_order env markets seen db cmd ≡ ok d
    → cmd.side ≡ buy
    → split_symbol cmd.symbol ≡ ok pair
    → reserve_for cmd ≡ ok r
    → balance cmd.user_id pair.quote d.db.ledger
      ≡ neg_ℤ (column r.amount) +ℤ balance cmd.user_id pair.quote db.ledger
placed_quote env markets seen db cmd d pair r e side splits k =
    let (r', k', books) = place_order-Books env markets seen db cmd d e in
    let same : r' ≡ r = ok_inj (sym k' ∙ k) in
    subst
      (λ (a : Bytes).
        balance cmd.user_id a d.db.ledger
        ≡ neg_ℤ (column r.amount) +ℤ balance cmd.user_id a db.ledger)
      (quote_reserve cmd pair r side splits k)
      (subst
        (λ (x : Reserve).
          balance cmd.user_id x.asset d.db.ledger
          ≡ neg_ℤ (column x.amount) +ℤ balance cmd.user_id x.asset db.ledger)
        same
        (Adds-self cmd.user_id r'.asset (neg_ℤ (column r'.amount)) db.ledger d.db.ledger
          books.reserved))

-- If a buy order is placed and the next request trades it, under its symbol, with another user's
-- sell order, and base and quote differ, then the buyer has paid twice in the quote asset: the
-- reserve that placing the order booked, and on top of it price times quantity of the trade.
pub execute_trade-place_order :
    (env env' : Env) (markets : List Bytes) (seen db : Db) (cmd : PlaceOrderCommand) (d : Done)
    (t : ExecuteTradeCommand) (s : Settled) (pair : Pair) (r : Reserve) (sold : OrderRow)
    → place_order env markets seen db cmd ≡ ok d
    → execute_trade env' d.db t ≡ ok s
    → t.buy_order_id ≡ d.order.id
    → t.symbol ≡ cmd.symbol
    → split_symbol cmd.symbol ≡ ok pair
    → pair.base ≢ pair.quote
    → reserve_for cmd ≡ ok r
    → find_order t.sell_order_id d.db.orders ≡ some sold
    → sold.user_id ≢ cmd.user_id
    → balance cmd.user_id pair.quote s.db.ledger
      ≡ neg_ℤ (column (mul t.price t.quantity))
        +ℤ (neg_ℤ (column r.amount) +ℤ balance cmd.user_id pair.quote db.ledger)
execute_trade-place_order env env' markets seen db cmd d t s pair r sold e e' id symbol splits ne k
      other apart =
    let (r', k', books) = place_order-Books env markets seen db cmd d e in
    let S = execute_trade-Settling env' d.db t s e' in
    let bought : S.bought ≡ order_row (new_order d.order.id cmd) =
      some_inj (sym S.buy_found ∙ ap (λ (i : Uuid). find_order i d.db.orders) id ∙ books.stored)
      ∙ ap order_row books.ordered in
    let buyer : S.bought.user_id ≡ cmd.user_id = ap (λ (x : OrderRow). x.user_id) bought in
    let side : cmd.side ≡ buy = sym (ap (λ (x : OrderRow). x.side) bought) ∙ S.sides.0 in
    let seller : S.sold.user_id ≢ cmd.user_id =
      λ h. apart (ap (λ (x : OrderRow). x.user_id) (some_inj (sym other ∙ S.sell_found)) ∙ h) in
    let same_pair : S.pair ≡ pair = ok_inj (sym S.splits ∙ ap split_symbol symbol ∙ splits) in
    let base = column t.quantity in
    let quote = column (mul t.price t.quantity) in
    let third : trade_share S.bought.user_id S.sold.user_id S.pair base quote cmd.user_id pair.quote
        ≡ neg_ℤ quote =
      ap (λ (u : Uuid). trade_share u S.sold.user_id S.pair base quote cmd.user_id pair.quote) buyer
      ∙ ap
          (λ (p : Pair). trade_share cmd.user_id S.sold.user_id p base quote cmd.user_id pair.quote)
          same_pair
      ∙ trade_share-quote cmd.user_id S.sold.user_id pair base quote seller ne in
    S.booked.moved cmd.user_id pair.quote
    ∙ ap (λ (x : ℤ). x +ℤ balance cmd.user_id pair.quote d.db.ledger) third
    ∙ ap (λ (x : ℤ). neg_ℤ quote +ℤ x)
        (placed_quote env markets seen db cmd d pair r e side splits k)
