-- ===== src/Exchange/Life.antt =====
-- The life of an order through any requests of the exchange, by the moves of the abstract one.
use mynance.Base.{
  ◌≡◌, ◌∙◌, refl, sym, ap, subst, none, some, some_inj, false, inl, inr, ◌⊎◌, Option,
}
use mynance.Base.Int.{pos}
use mynance.Store.{Uuid, Db, OrderRow, Status, cancelled}
use mynance.Store.Orders.{find_order, with_status, order_row}
use mynance.Order.{is_terminal, new_order}
use mynance.Order.Place.{opened_at_zero}
use mynance.Trade.Fills.{after_fill}
use mynance.Trade.Lifecycle.{RowIsValid, OrdersValid, after_fill-RowIsValid, same_or_not}
use mynance.Exchange.{Reach, here, next}
use mynance.Exchange.Moves.{
  View, Becomes, SameOrders, Request, Move, rests, holds, enters, releases, swaps, credits, debits,
  Step-Move,
}

abbrev AllValid : View → Type 0
AllValid v = (id : Uuid) (row : OrderRow) → v.orders id ≡ some row → RowIsValid row

same-AllValid : (v w : View) → SameOrders v w → AllValid v → AllValid w
same-AllValid v w same valid id row h = valid id row (sym (same id) ∙ h)

found-valid :
    (o : Option OrderRow) (new row : OrderRow)
    → o ≡ some new
    → o ≡ some row
    → RowIsValid new
    → RowIsValid row
found-valid o new row h k valid = subst RowIsValid (some_inj (sym h ∙ k)) valid

Becomes-AllValid :
    (id : Uuid) (new : OrderRow) (v w : View)
    → Becomes id new v w
    → RowIsValid new
    → AllValid v
    → AllValid w
Becomes-AllValid id new v w b ok_new valid other row h = elim (same_or_not other id) [
  | inl same ↦
      found-valid (w.orders id) new row b.0 (ap (λ (i : Uuid). w.orders i) (sym same) ∙ h) ok_new
  | inr apart ↦ valid other row (sym (b.1 other apart) ∙ h)
]

opened-RowIsValid :
    (row : OrderRow)
    → (row.status ≡ Status.open_status) × (row.filled_quantity ≡ pos 0)
    → RowIsValid row
opened-RowIsValid row o = rw (o.0, o.1) refl

Move-AllValid : {v w : View} {q : Request} → Move v w q → AllValid v → AllValid w
Move-AllValid {v} {w} (rests o b) valid = same-AllValid v w o valid
Move-AllValid {v} {w} (holds id cmd r k fresh b j) valid =
    Becomes-AllValid id (order_row (new_order id cmd)) v w b opened_at_zero valid
Move-AllValid {v} {w} (enters market id row owned o fresh b s) valid =
    Becomes-AllValid id row v w b (opened-RowIsValid row o) valid
Move-AllValid {v} {w} (releases id row pair whole filled found live p a c b j) valid =
    Becomes-AllValid id (with_status cancelled row) v w b tt valid
Move-AllValid {v} {w} (swaps cmd pair bought sold p found sides live buy_done sell_done others m)
      valid =
    λ id row h. elim (same_or_not id cmd.buy_order_id) [
      | inl same ↦
          found-valid (w.orders cmd.buy_order_id) (after_fill cmd.quantity bought) row buy_done
            (ap (λ (i : Uuid). w.orders i) (sym same) ∙ h)
            (after_fill-RowIsValid bought cmd.quantity live.0)
      | inr not_buy ↦ elim (same_or_not id cmd.sell_order_id) [
        | inl same ↦
            found-valid (w.orders cmd.sell_order_id) (after_fill cmd.quantity sold) row sell_done
              (ap (λ (i : Uuid). w.orders i) (sym same) ∙ h)
              (after_fill-RowIsValid sold cmd.quantity live.1)
        | inr not_sell ↦ valid id row (sym (others id not_buy not_sell) ∙ h)
      ]
    ]
Move-AllValid {v} {w} (credits row was o j) valid = same-AllValid v w o valid
Move-AllValid {v} {w} (debits cmd g o j) valid = same-AllValid v w o valid

-- Through any requests, whatever finite quantities they settle, every stored order stays OPEN with nothing
-- filled, PARTIAL with less than its quantity filled, FILLED with at least its quantity filled, or
-- CANCELLED, if every stored order was so at the start.
pub Reach-OrdersValid : {db x : Db} → Reach db x → OrdersValid db → OrdersValid x
Reach-OrdersValid here valid = valid
Reach-OrdersValid (next r s) valid = Move-AllValid (Step-Move s) (Reach-OrdersValid r valid)

-- What the client asked for.
abbrev pub SameTerms : OrderRow → OrderRow → Type 0
SameTerms old new =
    (new.id ≡ old.id)
    × (new.user_id ≡ old.user_id)
    × (new.symbol ≡ old.symbol)
    × (new.side ≡ old.side)
    × (new.price ≡ old.price)
    × (new.quantity ≡ old.quantity)

-- The same row, or one of the same terms that has come from an order that had not ended.
abbrev pub Follows : OrderRow → OrderRow → Type 0
Follows old new = (new ≡ old) ⊎ ((is_terminal old.status ≡ false) × SameTerms old new)

abbrev pub Leads : OrderRow → Option OrderRow → Type 0
Leads old o = (new : OrderRow) × (o ≡ some new) × Follows old new

kept-Leads :
    (old : OrderRow) (before after : Option OrderRow)
    → before ≡ some old
    → after ≡ before
    → Leads old after
kept-Leads old before after h same = (old, same ∙ h, inl refl)

-- One order changes, under the same terms, and had not ended.
Becomes-Leads :
    (id : Uuid) (row new : OrderRow) (v w : View)
    → v.orders id ≡ some row
    → is_terminal row.status ≡ false
    → SameTerms row new
    → w.orders id ≡ some new
    → (other : Uuid) (old : OrderRow) → other ≡ id
    → v.orders other ≡ some old
    → Leads old (w.orders other)
Becomes-Leads id row new v w found live terms done other old same h =
    let e : row ≡ old = some_inj (sym found ∙ ap (λ (i : Uuid). v.orders i) (sym same) ∙ h) in
    (
      new,
      ap (λ (i : Uuid). w.orders i) same ∙ done,
      inr (
          subst (λ (r : OrderRow). (is_terminal r.status ≡ false) × SameTerms r new) e
            (live, terms)),
    )

-- An order that opens was not there before.
opens-Leads :
    (id : Uuid) (new : OrderRow) (v w : View)
    → v.orders id ≡ none
    → Becomes id new v w
    → (other : Uuid) (old : OrderRow) → v.orders other ≡ some old
    → Leads old (w.orders other)
opens-Leads id new v w fresh b other old h = elim (same_or_not other id) [
  | inl same ↦ absurd (let k = sym fresh ∙ ap (λ (i : Uuid). v.orders i) (sym same) ∙ h in (cc))
  | inr apart ↦ kept-Leads old (v.orders other) (w.orders other) h (b.1 other apart)
]

Move-Leads :
    {v w : View} {q : Request}
    → Move v w q
    → (id : Uuid) (old : OrderRow) → v.orders id ≡ some old
    → Leads old (w.orders id)
Move-Leads {v} {w} (rests o b) id old h = kept-Leads old (v.orders id) (w.orders id) h (o id)
Move-Leads {v} {w} (holds new cmd r k fresh b j) id old h =
    opens-Leads new (order_row (new_order new cmd)) v w fresh b id old h
Move-Leads {v} {w} (enters market new row owned o fresh b s) id old h =
    opens-Leads new row v w fresh b id old h
Move-Leads {v} {w} (releases at row pair whole filled found live p a c b j) id old h =
    elim (same_or_not id at) [
      | inl same ↦
          Becomes-Leads at row (with_status cancelled row) v w found live
            (refl, refl, refl, refl, refl, refl) b.0 id old same h
      | inr apart ↦ kept-Leads old (v.orders id) (w.orders id) h (b.1 id apart)
    ]
Move-Leads {v} {w} (swaps cmd pair bought sold p found sides live buy_done sell_done others m) id
      old h =
    elim (same_or_not id cmd.buy_order_id) [
      | inl same ↦
          Becomes-Leads cmd.buy_order_id bought (after_fill cmd.quantity bought) v w found.0 live.0
            (refl, refl, refl, refl, refl, refl) buy_done id old same h
      | inr not_buy ↦ elim (same_or_not id cmd.sell_order_id) [
        | inl same ↦
            Becomes-Leads cmd.sell_order_id sold (after_fill cmd.quantity sold) v w found.1 live.1
              (refl, refl, refl, refl, refl, refl) sell_done id old same h
        | inr not_sell ↦ kept-Leads old (v.orders id) (w.orders id) h (others id not_buy not_sell)
      ]
    ]
Move-Leads {v} {w} (credits row was o j) id old h =
    kept-Leads old (v.orders id) (w.orders id) h (o id)
Move-Leads {v} {w} (debits cmd g o j) id old h = kept-Leads old (v.orders id) (w.orders id) h (o id)

SameTerms-trans : (a b c : OrderRow) → SameTerms a b → SameTerms b c → SameTerms a c
SameTerms-trans a b c p q = (q.0 ∙ p.0, q.1 ∙ p.1, q.2 ∙ p.2, q.3 ∙ p.3, q.4 ∙ p.4, q.5 ∙ p.5)

Follows-trans : (a b c : OrderRow) → Follows a b → Follows b c → Follows a c
Follows-trans a b c (inl e) q = subst (λ (r : OrderRow). Follows r c) e q
Follows-trans a b c (inr p) (inl e) =
    inr (subst (λ (r : OrderRow). (is_terminal a.status ≡ false) × SameTerms a r) (sym e) p)
Follows-trans a b c (inr p) (inr q) = inr (p.0, SameTerms-trans a b c p.1 q.1)

-- Through any requests an order is never lost, never changes its owner, symbol, side, price or
-- quantity, and once it is FILLED or CANCELLED stays exactly as it is.
pub Reach-Follows :
    {db x : Db}
    → Reach db x
    → (id : Uuid) (old : OrderRow) → find_order id db.orders ≡ some old
    → (new : OrderRow) × (find_order id x.orders ≡ some new) × Follows old new
Reach-Follows here id old h = (old, h, inl refl)
Reach-Follows (next r s) id old h =
    let (mid, found, first) = Reach-Follows r id old h in
    let (new, done, then_new) = Move-Leads (Step-Move s) id mid found in
    (new, done, Follows-trans old mid new first then_new)
