-- ===== src/Settlement/Partner.antt =====
-- Whose money a match with the partner moves: internal/engine/settlement_sandbox.go over
-- internal/trade/service.go.
use mynance.Base.{
  ℕ, ◌≡◌, ◌≢◌, ◌⊎◌, inl, inr, refl, true, false, Option-cases, some, none, some_inj, Bytes, List,
  ◌∷◌, ◌∙◌, sym, ap, arith, ◌==◌, Bool-cases, ==_refl,
}
use mynance.Base.Int.{ℤ, pos, ◌+ℤ◌, neg_ℤ}
use mynance.Book.{Side, buy, sell, Trade}
use mynance.Engine.{trade_matched}
use mynance.Numeric.{mul, column, zero_numeric}
use mynance.Numeric.Units.{column-HasUnits, zero-HasUnits}
use mynance.Shared.{ok, err, Result, Result-cases, ◌>>=◌, guard, Post, Post-at, Post-bind, Post-ok}
use mynance.Store.{open_status, Uuid, Env, Db, Order, OrderRow, io}
use mynance.Store.Balance.{zero_add}
use mynance.Store.Ledger.{balance, total}
use mynance.Store.Orders.{create_order, find_order, order_row}
use mynance.Trade.{ExecuteTradeCommand, Settled, execute_trade}
use mynance.Trade.Entries.{share}
use mynance.Trade.Settle.{execute_trade-Settling, execute_trade-total}
use mynance.Settlement.{Formats, is_partner, settle_command, settle}
use mynance.Settlement.Sandbox.{
  market_order, Persisted, persist_market_order, with_market, settle_stored, settle_with_market,
  sandbox_trade_matched,
}

-- Neither what a user holds in an asset nor what all users hold in it has changed.
abbrev pub Untouched : Uuid → Bytes → Db → Db → Type 0
Untouched u a db x =
    (balance u a x.ledger ≡ balance u a db.ledger) × (total a x.ledger ≡ total a db.ledger)

no_share :
    (user : Uuid) (asset : Bytes) (x : ℤ) (u : Uuid) (a : Bytes)
    → u ≢ user
    → share user asset x u a ≡ pos 0
no_share user asset x u a h = ground (arith, λ (e : u ≡ user). h e)

-- The rows of a trade leave everyone else's balance alone.
bystander :
    (env : Env) (db : Db) (cmd : ExecuteTradeCommand) (d : Settled)
    → execute_trade env db cmd ≡ ok d
    → (bought sold : OrderRow) → find_order cmd.buy_order_id db.orders ≡ some bought
    → find_order cmd.sell_order_id db.orders ≡ some sold
    → (u : Uuid) (a : Bytes) → u ≢ bought.user_id
    → u ≢ sold.user_id
    → Untouched u a db d.db
unfolding ◌+ℤ◌
bystander env db cmd d e bought sold b s u a nb ns =
    let g = execute_trade-Settling env db cmd d e in
    let buyer : g.bought ≡ bought = some_inj (sym g.buy_found ∙ b) in
    let seller : g.sold ≡ sold = some_inj (sym g.sell_found ∙ s) in
    let not_buyer : u ≢ g.bought.user_id = λ h. nb (h ∙ ap (λ (r : OrderRow). r.user_id) buyer) in
    let not_seller : u ≢ g.sold.user_id = λ h. ns (h ∙ ap (λ (r : OrderRow). r.user_id) seller) in
    (
      g.booked.moved u a
          ∙ rw
              (
                no_share g.sold.user_id g.pair.quote (column (mul cmd.price cmd.quantity)) u a
                    not_seller,
                no_share g.sold.user_id g.pair.base (neg_ℤ (column cmd.quantity)) u a not_seller,
                no_share g.bought.user_id g.pair.quote (neg_ℤ (column (mul cmd.price cmd.quantity)))
                    u a not_buyer,
                no_share g.bought.user_id g.pair.base (column cmd.quantity) u a not_buyer,
              )
              (zero_add (balance u a db.ledger)),
      execute_trade-total env db cmd d e a,
    )

-- What is read of a match are the identifiers of its two orders.
settle_command-ids :
    (f : Formats) (seq : ℕ) (t : Trade) (cmd : ExecuteTradeCommand)
    → settle_command f seq t ≡ some cmd
    → (f.parse_uuid t.buy_order_id ≡ some cmd.buy_order_id)
      × (f.parse_uuid t.sell_order_id ≡ some cmd.sell_order_id)
unfolding settle_command
settle_command-ids f seq t cmd h = elim (Option-cases (f.parse_uuid t.buy_order_id)) [
  | inl e ↦ ground (arith, e)
  | inr (b, e) ↦ elim (Option-cases (f.parse_uuid t.sell_order_id)) [
    | inl e' ↦ ground (arith, e, e')
    | inr (s, e') ↦ elim (Option-cases (f.amount t.price)) [
      | inl n ↦ ground (arith, e, e', n)
      | inr (p, n) ↦ elim (Option-cases (f.amount t.quantity)) [
        | inl m ↦ ground (arith, e, e', n, m)
        | inr (q, m) ↦ (ground (arith, e, e', n, m), ground (arith, e, e', n, m))
      ]
    ]
  ]
]

-- A match that is settled between two known orders moves money of their owners only.
settle-Untouched :
    (f : Formats) (env : Env) (db : Db) (seq : ℕ) (t : Trade) (buy_id sell_id : Uuid)
    (bought sold : OrderRow)
    → f.parse_uuid t.buy_order_id ≡ some buy_id
    → f.parse_uuid t.sell_order_id ≡ some sell_id
    → find_order buy_id db.orders ≡ some bought
    → find_order sell_id db.orders ≡ some sold
    → (u : Uuid) (a : Bytes) → u ≢ bought.user_id
    → u ≢ sold.user_id
    → Untouched u a db (settle f env db seq t)
unfolding settle
settle-Untouched f env db seq t buy_id sell_id bought sold pb ps b s u a nb ns =
    elim (Option-cases (settle_command f seq t)) [
      | inl e ↦ rw (e, settle) (refl, refl)
      | inr (cmd, e) ↦
          let ids = settle_command-ids f seq t cmd e in
          let buys : buy_id ≡ cmd.buy_order_id = some_inj (sym pb ∙ ids.0) in
          let sells : sell_id ≡ cmd.sell_order_id = some_inj (sym ps ∙ ids.1) in
          elim (Result-cases (execute_trade env db cmd)) [
            | inr (x, r) ↦ rw (e, r, settle) (refl, refl)
            | inl (d, r) ↦
                rw (e, r, settle)
                  (bystander env db cmd d r bought sold
                    (ap (λ (i : Uuid). find_order i db.orders) (sym buys) ∙ b)
                    (ap (λ (i : Uuid). find_order i db.orders) (sym sells) ∙ s) u a nb ns)
          ]
    ]

-- What storing the order of MARKET leaves.
pub record Stored (market : Uuid) (side : Side) (db : Db) (p : Persisted) : Type 0 where
  pub row : OrderRow
  pub owned : row.user_id ≡ market
  pub opened : (row.status ≡ open_status) × (row.filled_quantity ≡ pos 0)
  pub found : find_order p.id p.db.orders ≡ some row
  others :
      (id : Uuid) (r : OrderRow)
      → find_order id db.orders ≡ some r
      → find_order id p.db.orders ≡ some r
  pub ledger_kept : p.db.ledger ≡ db.ledger
  pub placed : p.db.orders ≡ row ∷ db.orders
  pub fresh : (row.id ≡ p.id) × (find_order p.id db.orders ≡ none)
  pub keys_kept : p.db.idempotency_keys ≡ db.idempotency_keys

abbrev Created : Order → Db → Db → Type 0
Created o db x =
    (find_order o.id db.orders ≡ none)
    × (x.orders ≡ order_row o ∷ db.orders)
    × (x.ledger ≡ db.ledger)
    × (x.idempotency_keys ≡ db.idempotency_keys)

create_order-Created :
    (env : Env) (k : ℕ) (o : Order) (db : Db) → Post (Created o db) (create_order env k o db)
unfolding create_order ◌>>=◌ io guard Post
create_order-Created env k o db = ground arith

first_row : (row : OrderRow) (rows : List OrderRow) → find_order row.id (row ∷ rows) ≡ some row
unfolding find_order
first_row row rows = rw (==_refl row.id) refl

later_row :
    (row : OrderRow) (rows : List OrderRow) (id : Uuid) (r : OrderRow)
    → find_order row.id rows ≡ none
    → find_order id rows ≡ some r
    → find_order id (row ∷ rows) ≡ some r
unfolding find_order
later_row row rows id r fresh h = elim (Bool-cases (row.id == id)) [
  | inl e ↦
      let same : row.id ≡ id = ground (arith, e) in
      absurd (let k = sym fresh ∙ ap (λ (i : Uuid). find_order i rows) same ∙ h in (cc))
  | inr e ↦ ground (arith, e, h)
]

pub persist_market_order-Stored :
    (f : Formats) (env : Env) (market : Uuid) (side : Side) (symbol : Bytes) (price qty : ℕ)
    (db : Db)
    → Post (Stored market side db) (persist_market_order f env market side symbol price qty db)
unfolding persist_market_order
persist_market_order-Stored f env market side symbol price qty db = Post-bind _ _ _ (λ id _.
    Post-bind _ _ _ (λ p _. Post-bind _ _ _ (λ q _. Post-bind _ _ _ (λ _ _.
      Post-bind _ _ _ (λ created c. Post-bind _ _ _ (λ _ _.
        let o = market_order id market side symbol p q in
        let k = Post-at (Created o db) (create_order-Created env 0 o db) c in
        Post-ok _ _ (record {
          row = order_row o;
          owned = refl;
          opened = (refl, column-HasUnits zero_numeric (pos 0) zero-HasUnits);
          found = rw (k.1) (first_row (order_row o) db.orders);
          others = λ i r h. rw (k.1) (later_row (order_row o) db.orders i r k.0 h);
          ledger_kept = k.2;
          placed = k.1;
          fresh = (refl, k.0);
          keys_kept = k.3;
        })))))))

-- One side of the match is the partner's, and the other is the user's order of that identifier.
abbrev pub Meets : Formats → Trade → Uuid → Type 0
Meets f t id =
    ((is_partner t.buy_user_id ≡ true)
      × (is_partner t.sell_user_id ≡ false)
      × (f.parse_uuid t.sell_order_id ≡ some id))
    ⊎ ((is_partner t.buy_user_id ≡ false)
        × (is_partner t.sell_user_id ≡ true)
        × (f.parse_uuid t.buy_order_id ≡ some id))

module _ (f : Formats) (text : Uuid → Bytes) (market : Uuid) (env settle_env : Env) (db : Db)
    (seq : ℕ) (t : Trade) (id : Uuid) (row : OrderRow)
    (reads : (i : Uuid) → f.parse_uuid (text i) ≡ some i)
    (there : find_order id db.orders ≡ some row) (u : Uuid) (a : Bytes) (not_market : u ≢ market)
    (not_owner : u ≢ row.user_id) where
  moved_from :
      (side : Side) (p : Persisted) (x : Db)
      → Stored market side db p
      → Untouched u a p.db x
      → Untouched u a db x
  moved_from side p x k h = (h.0 ∙ ap (balance u a) k.ledger_kept, h.1 ∙ ap (total a) k.ledger_kept)

  Stored-buy :
      (r : Result Persisted)
      → f.parse_uuid t.sell_order_id ≡ some id
      → Post (Stored market buy db) r
      → Untouched u a db (settle_stored f text market settle_env db buy seq t r)
  unfolding settle_stored Post
  Stored-buy (err e) reads_other k = (refl, refl)
  Stored-buy (ok p) reads_other k =
      moved_from buy p (settle f settle_env p.db seq (with_market buy (text p.id) (text market) t))
        k
        (settle-Untouched f settle_env p.db seq (with_market buy (text p.id) (text market) t) p.id
          id k.row row (reads p.id) reads_other k.found (k.others id row there) u a
          (λ h. not_market (h ∙ k.owned)) not_owner)

  Stored-sell :
      (r : Result Persisted)
      → f.parse_uuid t.buy_order_id ≡ some id
      → Post (Stored market sell db) r
      → Untouched u a db (settle_stored f text market settle_env db sell seq t r)
  unfolding settle_stored Post
  Stored-sell (err e) reads_other k = (refl, refl)
  Stored-sell (ok p) reads_other k =
      moved_from sell p
        (settle f settle_env p.db seq (with_market sell (text p.id) (text market) t)) k
        (settle-Untouched f settle_env p.db seq (with_market sell (text p.id) (text market) t) id
          p.id row k.row reads_other (reads p.id) (k.others id row there) k.found u a not_owner
          (λ h. not_market (h ∙ k.owned)))

  -- Whatever fails, a match of a user's order with the partner moves no balance of anyone but that
  -- user and MARKET, and leaves the total of every asset as it was, if the text of an identifier is
  -- read back as that identifier.
  pub sandbox_trade_matched-Untouched :
      Meets f t id
      → Untouched u a db
          (sandbox_trade_matched f text market env settle_env db (trade_matched seq t))
  unfolding sandbox_trade_matched settle_with_market
  sandbox_trade_matched-Untouched (inl m) =
      rw (m.0, m.1)
        (Stored-buy _ m.2
          (persist_market_order-Stored f env market buy t.symbol t.price t.quantity db))
  sandbox_trade_matched-Untouched (inr m) =
      rw (m.0, m.1)
        (Stored-sell _ m.2
          (persist_market_order-Stored f env market sell t.symbol t.price t.quantity db))
