-- ===== src/Order/Release.antt =====
-- What internal/order/service.go releases when an order is cancelled.
use Prim.Native.Nat.{Ordering}
use mynance.Base.{
  ◌≡◌, sym, subst, refl, true, false, Bytes, if◌then◌else◌, arith, Bool-cases, inl, inr,
}
use mynance.Base.Int.{ℤ, pos, negsuc, ltb_ℤ}
use mynance.Book.{Side, buy, sell, other}
use mynance.Numeric.{Numeric, column, loaded, mul, cmp_ℤ, zero_numeric}
use mynance.Numeric.Units.{
  HasUnits, loaded-HasUnits, from_rat-HasUnits, zero-HasUnits, cmp-HasUnits, column-HasUnits,
}
use mynance.Shared.{ok, ok_inj, Post, Post-bind}
use mynance.Store.{Env, new_uuid, Db, Order, account_id}
use mynance.Store.Balance.{Adds, Adds-zero, insert_entry-Post}
use mynance.Store.Ledger.{insert_entry}
use mynance.Order.{Pair, reserve_of, Reserve, exceeds, release_entry, release_rest}

-- `u` if it is positive, and 0 if not.
abbrev pub surplus : ℤ → ℤ
surplus u = if ltb_ℤ (pos 0) u then u else pos 0

gt_zero : (u : ℤ) → (elim (cmp_ℤ u (pos 0)) [ Ordering.gt ↦ true | _ ↦ false ]) ≡ ltb_ℤ (pos 0) u
unfolding cmp_ℤ
gt_zero (pos n) = ground arith
gt_zero (negsuc n) = ground arith

exceeds_zero : (n : Numeric) (u : ℤ) → HasUnits n u → exceeds n zero_numeric ≡ ltb_ℤ (pos 0) u
exceeds_zero n u h = rw (exceeds, cmp-HasUnits n zero_numeric u (pos 0) h zero-HasUnits) (gt_zero u)

pub own_column : (n : Numeric) (u : ℤ) → HasUnits n u → HasUnits n (column n)
own_column n u h = subst (HasUnits n) (sym (column-HasUnits n u h)) h

pub reserve_of-HasUnits :
    (s : Side) (pair : Pair) (p q : ℤ) (r : Reserve)
    → reserve_of s pair (loaded p) (loaded q) ≡ ok r
    → HasUnits r.amount (column r.amount)
unfolding reserve_of mul column
reserve_of-HasUnits buy pair p q r h =
    subst (λ (x : Reserve). HasUnits x.amount (column x.amount)) (ok_inj h)
      (own_column _ _ (from_rat-HasUnits _))
reserve_of-HasUnits sell pair p q r h =
    subst (λ (x : Reserve). HasUnits x.amount (column x.amount)) (ok_inj h)
      (own_column _ _ (loaded-HasUnits q))
reserve_of-HasUnits (other s) pair p q r h = cc

pub release_rest-Post :
    (env : Env) (db : Db) (o : Order) (asset : Bytes) (n : Numeric) (u : ℤ)
    → HasUnits n u
    → Post
        (λ (x : Db). Adds o.user_id asset (surplus u) db.ledger x.ledger × (x.orders ≡ db.orders))
        (release_rest env db o asset n)
unfolding release_rest Post
release_rest-Post env db o asset n u h = elim (Bool-cases (ltb_ℤ (pos 0) u)) [
  | inl e ↦
      rw (exceeds_zero n u h, e)
        (Post-bind _ (account_id env 2 o.user_id asset db) _ (λ account _.
          Post-bind _ (new_uuid env 0) _ (λ id _.
            subst
              (λ x.
                Post
                  (λ (y : Db). Adds o.user_id asset x db.ledger y.ledger × (y.orders ≡ db.orders))
                  (insert_entry env 0 (release_entry id account o asset n) db))
              (column-HasUnits n u h)
              (insert_entry-Post env 0 (release_entry id account o asset n) db))))
  | inr e ↦ rw (exceeds_zero n u h, e) (Adds-zero o.user_id asset db.ledger, refl)
]
