-- ===== src/Tests/Orders.antt =====
-- The orders of internal/order/service.go on concrete inputs.
use mynance.Base.{◌≡◌, refl, false, [], none, some, bytes, ◌=ᵇ◌, arith}
use mynance.Base.Int.{pos, negsuc, ◌≤ℤ◌, ◌<ℤ◌, ◌*ℤ◌, ◌+ℤ◌, ◌-ℤ◌, neg_ℤ}
use mynance.Book.{buy}
use mynance.Numeric.{
  column, loaded, cmp, cmp_ℤ, mul, to_rat, from_rat, round, round_abs, scaled, neg, sub,
  zero_numeric,
}
use mynance.Shared.{ok, ◌>>=◌, guard}
use mynance.Store.{
  io, new_uuid, insert_key, key_used, insert_outbox, account_id, find_account, scope_order,
}
use mynance.Store.Ledger.{insert_entry, balance, sum_by_user_asset}
use mynance.Store.Orders.{
  update_row, update_order, create_order, find_order, get_order, update_status,
}
use mynance.Order.{
  exceeds, release_rest, Reserve, PlaceOrderCommand, Done, split_symbol, split, listed, reserve_of,
  check_order, place_tx, place_order, cancel_order, is_cancellable,
}
use mynance.Order.Accept.{place_order-negative, place_order-accepts}
use mynance.Order.Cancel.{Cancelling, cancel_order-Cancelling}
use mynance.Order.Place.{Books, reserve_for, place_order-Books}
use mynance.Order.Roundtrip.{IsExact, cancel_order-place_order}
use mynance.Tests.{env, db, usdt, btc_usdt, num}

-- User 1 buys 3 at 20.
abbrev bid : PlaceOrderCommand
bid = record {
  user_id = 1;
  symbol = btc_usdt;
  side = buy;
  price = num (pos 20);
  quantity = num (pos 3);
  idempotency_key = bytes "k";
}

unfoldable placed : (d : Done) × (place_order env [] db db bid ≡ ok d)
unfolding place_order check_order place_tx ◌>>=◌ guard io new_uuid insert_key key_used insert_outbox
    account_id find_account insert_entry balance sum_by_user_asset create_order find_order
    split_symbol split listed reserve_of ◌=ᵇ◌ cmp cmp_ℤ mul to_rat from_rat round round_abs scaled
    column neg loaded ◌*ℤ◌ ◌+ℤ◌ neg_ℤ
placed = (_, refl)

place_order-Books_example : (r : Reserve) × (reserve_for bid ≡ ok r) × Books db db bid r placed.0
place_order-Books_example = place_order-Books env [] db db bid placed.0 placed.1

abbrev reserve : Reserve
reserve = record { asset = usdt; amount = mul (num (pos 20)) (num (pos 3)) }

reserved : reserve_for bid ≡ ok reserve
unfolding split_symbol split reserve_of ◌>>=◌
reserved = refl

affordable : exceeds reserve.amount (loaded (balance 1 usdt db.ledger)) ≡ false
unfolding place_order check_order place_tx ◌>>=◌ guard io new_uuid insert_key key_used insert_outbox
    account_id find_account insert_entry balance sum_by_user_asset create_order find_order
    split_symbol split listed reserve_of ◌=ᵇ◌ cmp cmp_ℤ mul to_rat from_rat round round_abs scaled
    column neg loaded ◌*ℤ◌ ◌+ℤ◌ neg_ℤ
affordable = refl

has_account : find_account 1 usdt db.accounts ≡ some (record { id = 12; user_id = 1; asset = usdt })
unfolding find_account ◌=ᵇ◌
has_account = refl

unused_key : key_used (bytes "k") scope_order db.idempotency_keys ≡ false
unfolding key_used
unused_key = refl

unused_id : find_order 101 db.orders ≡ none
unfolding find_order
unused_id = refl

place_order-accepts_example : (d : Done) × place_order env [] db db bid ≡ ok d
place_order-accepts_example =
    place_order-accepts env [] db db bid reserve (record { id = 12; user_id = 1; asset = usdt })
      (λ call. refl) refl refl reserved has_account affordable unused_key unused_id

-- The same at a price below zero.
abbrev negative_bid : PlaceOrderCommand
negative_bid = record bid { price = num (negsuc 19) }

placed_negative : (d : Done) × (place_order env [] db db negative_bid ≡ ok d)
unfolding place_order check_order place_tx ◌>>=◌ guard io new_uuid insert_key key_used insert_outbox
    account_id find_account insert_entry balance sum_by_user_asset create_order find_order
    split_symbol split listed reserve_of ◌=ᵇ◌ cmp cmp_ℤ mul to_rat from_rat round round_abs scaled
    column neg loaded ◌*ℤ◌ ◌+ℤ◌ neg_ℤ
placed_negative = (_, refl)

abbrev negative_reserve : Reserve
negative_reserve = record { asset = usdt; amount = mul (num (negsuc 19)) (num (pos 3)) }

reserved_negative : reserve_for negative_bid ≡ ok negative_reserve
unfolding split_symbol split reserve_of ◌>>=◌
reserved_negative = refl

below_zero : column negative_reserve.amount <ℤ pos 0
unfolding place_order check_order place_tx ◌>>=◌ guard io new_uuid insert_key key_used insert_outbox
    account_id find_account insert_entry balance sum_by_user_asset create_order find_order
    split_symbol split listed reserve_of ◌=ᵇ◌ cmp cmp_ℤ mul to_rat from_rat round round_abs scaled
    column neg loaded ◌*ℤ◌ ◌+ℤ◌ neg_ℤ
below_zero = omega arith

place_order-negative_example :
    balance 1 usdt db.ledger <ℤ balance 1 usdt placed_negative.0.db.ledger
place_order-negative_example =
    place_order-negative env [] db db negative_bid placed_negative.0 negative_reserve
      placed_negative.1 reserved_negative below_zero

cancelled_bid : (d : Done) × (cancel_order env placed.0.db placed.0.db placed.0.order.id ≡ ok d)
unfolding placed cancel_order release_rest get_order update_status update_row update_order
    is_cancellable sub zero_numeric ◌-ℤ◌ place_order check_order place_tx ◌>>=◌ guard io new_uuid
    insert_key key_used insert_outbox account_id find_account insert_entry balance sum_by_user_asset
    create_order find_order split_symbol split listed reserve_of ◌=ᵇ◌ cmp cmp_ℤ mul to_rat from_rat
    round round_abs scaled column neg loaded ◌*ℤ◌ ◌+ℤ◌ neg_ℤ
cancelled_bid = (_, refl)

cancel_order-Cancelling_example : Cancelling placed.0.db placed.0.order.id cancelled_bid.0
cancel_order-Cancelling_example =
    cancel_order-Cancelling env placed.0.db placed.0.db placed.0.order.id cancelled_bid.0
      cancelled_bid.1

IsExact-price : IsExact bid.price
unfolding place_order check_order place_tx ◌>>=◌ guard io new_uuid insert_key key_used insert_outbox
    account_id find_account insert_entry balance sum_by_user_asset create_order find_order
    split_symbol split listed reserve_of ◌=ᵇ◌ cmp cmp_ℤ mul to_rat from_rat round round_abs scaled
    column neg loaded ◌*ℤ◌ ◌+ℤ◌ neg_ℤ
IsExact-price = omega arith

IsExact-quantity : IsExact bid.quantity
unfolding place_order check_order place_tx ◌>>=◌ guard io new_uuid insert_key key_used insert_outbox
    account_id find_account insert_entry balance sum_by_user_asset create_order find_order
    split_symbol split listed reserve_of ◌=ᵇ◌ cmp cmp_ℤ mul to_rat from_rat round round_abs scaled
    column neg loaded ◌*ℤ◌ ◌+ℤ◌ neg_ℤ
IsExact-quantity = omega arith

not_negative : pos 0 ≤ℤ column reserve.amount
unfolding place_order check_order place_tx ◌>>=◌ guard io new_uuid insert_key key_used insert_outbox
    account_id find_account insert_entry balance sum_by_user_asset create_order find_order
    split_symbol split listed reserve_of ◌=ᵇ◌ cmp cmp_ℤ mul to_rat from_rat round round_abs scaled
    column neg loaded ◌*ℤ◌ ◌+ℤ◌ neg_ℤ
not_negative = omega arith

cancel_order-place_order_example :
    balance 1 usdt cancelled_bid.0.db.ledger ≡ balance 1 usdt db.ledger
cancel_order-place_order_example =
    cancel_order-place_order env env [] db placed.0.db db bid reserve placed.0 cancelled_bid.0
      IsExact-price IsExact-quantity reserved not_negative placed.1 cancelled_bid.1 1 usdt
