-- ===== src/Trade/Once.antt =====
-- The idempotency key of a trade (internal/trade/service.go), from its insertion to the commit.
use mynance.Base.{
  true_not_false, ℕ, suc, ◌≡◌, ◌≢◌, ◌∙◌, sym, ap, refl, true, false, List, [], ◌∷◌, Bytes, arith,
  Bool-cases, inl, inr,
}
use mynance.Numeric.{Numeric, add}
use mynance.Shared.{Result, ok, ◌>>=◌, guard, Post, Post-at, Post-bind, Post-ok, Post-map}
use mynance.Store.{
  Uuid, Env, Db, Order, Status, Payload, Trade, LedgerEntry, scope_trade, filled, partial, io,
  new_uuid, insert_key, insert_outbox, key_used,
}
use mynance.Store.Keys.{key_used_first}
use mynance.Store.Ledger.{insert_entry}
use mynance.Store.Orders.{increment_filled, update_status, update_row}
use mynance.Order.{Pair}
use mynance.Trade.{
  ExecuteTradeCommand, Settled, create_trade, insert_entries, at_least, is_open, apply_order_fill,
  settle_orders, execute_trade,
}

abbrev pub KeepsKeys : Db → Db → Type 0
KeepsKeys db x = x.idempotency_keys ≡ db.idempotency_keys

create_trade-KeepsKeys :
    (env : Env) (k : ℕ) (t : Trade) (db : Db) → Post (KeepsKeys db) (create_trade env k t db)
unfolding create_trade ◌>>=◌ io guard Post
create_trade-KeepsKeys env k t db = ground arith

pub insert_outbox-KeepsKeys :
    (env : Env) (i k : ℕ) (p : Payload) (db : Db) → Post (KeepsKeys db) (insert_outbox env i k p db)
unfolding insert_outbox ◌>>=◌ io new_uuid guard Post
insert_outbox-KeepsKeys env i k p db = ground arith

pub insert_entry-KeepsKeys :
    (env : Env) (k : ℕ) (e : LedgerEntry) (db : Db) → Post (KeepsKeys db) (insert_entry env k e db)
unfolding insert_entry ◌>>=◌ io guard Post
insert_entry-KeepsKeys env k e db = ground arith

increment_filled-KeepsKeys :
    (env : Env) (k : ℕ) (id : Uuid) (qty : Numeric) (db : Db)
    → Post (KeepsKeys db) (increment_filled env k id qty db)
unfolding increment_filled update_row ◌>>=◌ io guard Post
increment_filled-KeepsKeys env k id qty db = ground arith

pub update_status-KeepsKeys :
    (env : Env) (k : ℕ) (id : Uuid) (s : Status) (db : Db)
    → Post (KeepsKeys db) (update_status env k id s db)
unfolding update_status update_row ◌>>=◌ io guard Post
update_status-KeepsKeys env k id s db = ground arith

-- What keeps the keys first and last keeps them altogether.
pub then-KeepsKeys :
    (first second : Db) (r : Result Db)
    → KeepsKeys first second
    → Post (KeepsKeys second) r
    → Post (KeepsKeys first) r
then-KeepsKeys first second r h = Post-map (KeepsKeys second) (KeepsKeys first) r (λ x k. k ∙ h)

insert_entries-KeepsKeys :
    (env : Env) (call : ℕ) (es : List LedgerEntry) (db : Db)
    → Post (KeepsKeys db) (insert_entries env call es db)
unfolding insert_entries
insert_entries-KeepsKeys env call [] db = Post-ok (KeepsKeys db) db refl
insert_entries-KeepsKeys env call (e ∷ rest) db = Post-bind _ (new_uuid env call) _ (λ id _.
    Post-bind _ (insert_entry env call (record e { id = id }) db) _ (λ booked b.
      then-KeepsKeys db booked _
        (Post-at (KeepsKeys db) (insert_entry-KeepsKeys env call (record e { id = id }) db) b)
        (insert_entries-KeepsKeys env (suc call) rest booked)))

apply_order_fill-KeepsKeys :
    (env : Env) (k : ℕ) (o : Order) (qty : Numeric) (db : Db)
    → Post (KeepsKeys db) (apply_order_fill env k o qty db)
unfolding apply_order_fill
apply_order_fill-KeepsKeys env k o qty db =
    Post-bind _ (increment_filled env k o.id qty db) _ (λ grown g.
      let kept : KeepsKeys db grown =
        Post-at (KeepsKeys db) (increment_filled-KeepsKeys env k o.id qty db) g in
      elim (Bool-cases (at_least (add o.filled_quantity qty) o.quantity)) [
        | inl full ↦
            rw full (
              then-KeepsKeys db grown _ kept
                (update_status-KeepsKeys env (suc k) o.id filled grown))
        | inr more ↦ rw more (elim (Bool-cases (is_open o.status)) [
          | inl first ↦ rw first (
              then-KeepsKeys db grown _ kept
                (update_status-KeepsKeys env (suc k) o.id partial grown))
          | inr later ↦ rw later (Post-ok (KeepsKeys db) grown kept)
        ])
      ])

pub settle_orders-KeepsKeys :
    (env : Env) (keyed : Db) (cmd : ExecuteTradeCommand) (pair : Pair)
    (buy_order sell_order : Order)
    → Post
        (λ (d : Settled). KeepsKeys keyed d.db)
        (settle_orders env keyed cmd pair buy_order sell_order)
unfolding settle_orders
settle_orders-KeepsKeys env keyed cmd pair buy_order sell_order = Post-bind _ _ _ (λ _ _.
    Post-bind _ _ _ (λ _ _. Post-bind _ _ _ (λ _ _. Post-bind _ _ _ (λ accounts _.
      Post-bind _ _ _ (λ trade_id _. Post-bind _ _ _ (λ _ _. Post-bind _ _ _ (λ created c.
        Post-bind _ _ _ (λ booked b. Post-bind _ _ _ (λ buy_done first.
          Post-bind _ _ _ (λ sell_done second. Post-bind _ _ _ (λ told t. Post-bind _ _ _ (λ _ _.
            Post-ok _ _ (
              Post-at (KeepsKeys sell_done) (insert_outbox-KeepsKeys env 6 10 _ sell_done) t
              ∙ Post-at (KeepsKeys buy_done)
                  (apply_order_fill-KeepsKeys env 8 sell_order cmd.quantity buy_done) second
              ∙ Post-at (KeepsKeys booked)
                  (apply_order_fill-KeepsKeys env 6 buy_order cmd.quantity booked) first
              ∙ Post-at (KeepsKeys created) (insert_entries-KeepsKeys env 2 _ created) b
              ∙ Post-at (KeepsKeys keyed) (create_trade-KeepsKeys env 1 _ keyed) c)))))))))))))

abbrev pub TakesKey : Bytes → Db → Db → Type 0
TakesKey key db x =
    (key_used key scope_trade db.idempotency_keys ≡ false)
    × (key_used key scope_trade x.idempotency_keys ≡ true)

insert_key-TakesKey :
    (env : Env) (i k : ℕ) (key : Bytes) (db : Db)
    → Post (TakesKey key db) (insert_key env i k key scope_trade db)
unfolding insert_key ◌>>=◌ io new_uuid guard Post
insert_key-TakesKey env i k key db =
    ground (arith, key_used_first (env.fresh i) key scope_trade db.idempotency_keys)

pub execute_trade-TakesKey :
    (env : Env) (db : Db) (cmd : ExecuteTradeCommand)
    → Post (λ (d : Settled). TakesKey cmd.idempotency_key db d.db) (execute_trade env db cmd)
unfolding execute_trade
execute_trade-TakesKey env db cmd = Post-bind _ _ _ (λ pair _. Post-bind _ _ _ (λ _ _.
    Post-bind _ _ _ (λ keyed k. Post-bind _ _ _ (λ buy_order _. Post-bind _ _ _ (λ sell_order _.
      let taken =
        Post-at (TakesKey cmd.idempotency_key db)
          (insert_key-TakesKey env 0 0 cmd.idempotency_key db) k in
      Post-map (λ (d : Settled). KeepsKeys keyed d.db)
        (λ (d : Settled). TakesKey cmd.idempotency_key db d.db) _
        (λ d kept. (taken.0, ap (key_used cmd.idempotency_key scope_trade) kept ∙ taken.1))
        (settle_orders-KeepsKeys env keyed cmd pair buy_order sell_order))))))

-- A key settles one match: after `ExecuteTrade` has returned, no call with the same key returns against
-- the database that it left.
pub execute_trade-once :
    (env env' : Env) (db : Db) (cmd cmd' : ExecuteTradeCommand) (d d' : Settled)
    → execute_trade env db cmd ≡ ok d
    → cmd'.idempotency_key ≡ cmd.idempotency_key
    → execute_trade env' d.db cmd' ≢ ok d'
execute_trade-once env env' db cmd cmd' d d' e same e' =
    let first =
      Post-at (λ (x : Settled). TakesKey cmd.idempotency_key db x.db)
        (execute_trade-TakesKey env db cmd) e in
    let again =
      Post-at (λ (x : Settled). TakesKey cmd'.idempotency_key d.db x.db)
        (execute_trade-TakesKey env' d.db cmd') e' in
    true_not_false (
      sym first.1
      ∙ sym (ap (λ (k : Bytes). key_used k scope_trade d.db.idempotency_keys) same)
      ∙ again.0)
