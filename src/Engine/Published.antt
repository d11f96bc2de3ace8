-- ===== src/Engine/Published.antt =====
-- What a worker of internal/engine/engine.go publishes of an order, beside the sweep that Book/Priority describes.
use mynance.Base.{
  ℕ, ◌+◌, ◌≡◌, ◌∙◌, refl, sym, ap, inl, inr, List, [], ◌∷◌, ◌++◌, append-nil, some, some_inj, ltb,
  if◌then◌else◌, length, Option-cases, Bool-cases, subst,
}
use mathlib.Core.Option as Option
use mynance.Book.{Order, Trade, OrderBook}
use mynance.Book.Match.{Matched, match, with_left}
use mynance.Book.Float.{IsSub}
use mynance.Book.Sweep.{flatten}
use mynance.Book.Valid.{IsValid, Ensures, match-IsValid}
use mynance.Book.Priority.{Outcome, outcome, match_queues, match-match_queues}
use mynance.Engine.{
  Command, place_order, Event, Handled, handle, handle_place, publish_trades, trade_matched,
  order_rested, order_cancelled,
}

-- The trades that events tell, their numbers, and the orders that they tell to rest
abbrev pub told_trades : List Event → List Trade
told_trades [] = []
told_trades (trade_matched n t ∷ es) = t ∷ told_trades es
told_trades (order_rested o ∷ es) = told_trades es
told_trades (order_cancelled c r ∷ es) = told_trades es

abbrev pub told_numbers : List Event → List ℕ
told_numbers [] = []
told_numbers (trade_matched n t ∷ es) = n ∷ told_numbers es
told_numbers (order_rested o ∷ es) = told_numbers es
told_numbers (order_cancelled c r ∷ es) = told_numbers es

abbrev pub told_rests : List Event → List Order
told_rests [] = []
told_rests (trade_matched n t ∷ es) = told_rests es
told_rests (order_rested o ∷ es) = o ∷ told_rests es
told_rests (order_cancelled c r ∷ es) = told_rests es

-- A number for each item, one after the other
abbrev pub count_on : {A : Type 0} → ℕ → List A → List ℕ
count_on seq [] = []
count_on seq (x ∷ xs) = (seq + 1) ∷ count_on (seq + 1) xs

abbrev pub rest_of : Order → ℕ → List Order
rest_of o left = if ltb 0 left then with_left o left ∷ [] else []

-- An order of which the sweep made this has been handled.
pub record Publishes (seq : ℕ) (o : Order) (q : Outcome) (h : Handled) : Type 0 where
  pub trades : told_trades h.events ≡ q.trades
  pub numbers : told_numbers h.events ≡ count_on seq q.trades
  pub rests : told_rests h.events ≡ rest_of o q.left
  pub counter : h.seq ≡ seq + length q.trades
  pub queues : (flatten h.book.bids ≡ q.bids) × (flatten h.book.asks ≡ q.asks)

told_trades-publish :
    (seq : ℕ) (ts : List Trade) (es : List Event)
    → told_trades (publish_trades seq ts ++ es) ≡ ts ++ told_trades es
unfolding publish_trades
told_trades-publish seq [] es = refl
told_trades-publish seq (t ∷ ts) es = ap (λ xs. t ∷ xs) (told_trades-publish (seq + 1) ts es)

told_numbers-publish :
    (seq : ℕ) (ts : List Trade) (es : List Event)
    → told_numbers (publish_trades seq ts ++ es) ≡ count_on seq ts ++ told_numbers es
unfolding publish_trades
told_numbers-publish seq [] es = refl
told_numbers-publish seq (t ∷ ts) es =
    ap (λ xs. (seq + 1) ∷ xs) (told_numbers-publish (seq + 1) ts es)

told_rests-publish :
    (seq : ℕ) (ts : List Trade) (es : List Event)
    → told_rests (publish_trades seq ts ++ es) ≡ told_rests es
unfolding publish_trades
told_rests-publish seq [] es = refl
told_rests-publish seq (t ∷ ts) es = told_rests-publish (seq + 1) ts es

resting : Order → ℕ → List Event
resting o left = if ltb 0 left then order_rested (with_left o left) ∷ [] else []

told-resting :
    (o : Order) (left : ℕ)
    → (told_trades (resting o left) ≡ [])
      × (told_numbers (resting o left) ≡ [])
      × (told_rests (resting o left) ≡ rest_of o left)
unfolding resting
told-resting o left = elim (Bool-cases (ltb 0 left)) [
  | inl h ↦ rw h (refl, refl, refl)
  | inr h ↦ rw h (refl, refl, refl)
]

module _ (fsub : ℕ → ℕ → ℕ) (sub : IsSub fsub) where
  published :
      (seq : ℕ) (o : Order) (m : Matched) (q : Outcome)
      → outcome m ≡ q
      → Publishes seq o q (record {
        book = m.book;
        seq = seq + length m.trades;
        events = publish_trades seq m.trades ++ resting o m.left;
      })
  published seq o m q e =
      subst
        (λ (x : Outcome). Publishes seq o x (record {
          book = m.book;
          seq = seq + length m.trades;
          events = publish_trades seq m.trades ++ resting o m.left;
        }))
        e
        (let rest = told-resting o m.left in
          record {
            trades =
                told_trades-publish seq m.trades (resting o m.left)
                ∙ ap (λ xs. m.trades ++ xs) rest.0
                ∙ append-nil m.trades;
            numbers =
                told_numbers-publish seq m.trades (resting o m.left)
                ∙ ap (λ xs. count_on seq m.trades ++ xs) rest.1
                ∙ append-nil (count_on seq m.trades);
            rests = told_rests-publish seq m.trades (resting o m.left) ∙ rest.2;
            counter = refl;
            queues = (refl, refl);
          })

  -- A worker that takes an order from its channel returns, if its book is valid. The trades that it publishes
  -- are those of one sweep of the order over the opposite queue in price-time priority, in that order, under
  -- the numbers that follow the counter; the counter moves on by as many; what the sweep leaves of the order is
  -- published as resting, once, and only if something is left; and the queues of the book are those that the
  -- sweep leaves.
  pub handle-Publishes :
      (book : OrderBook) (seq : ℕ) (cmd : Command) (o : Order)
      → cmd.kind ≡ place_order
      → cmd.order ≡ some o
      → IsValid book
      → Ensures (Publishes seq o (match_queues fsub book o)) (handle fsub book seq cmd)
  unfolding handle handle_place resting
  handle-Publishes book seq cmd o placing given v = elim (Option-cases (match fsub book o)) [
    | inl stuck ↦ absurd (subst (Ensures _) stuck (match-IsValid fsub sub book o v))
    | inr (m, e) ↦
        rw (placing, given, e, handle, handle_place)
          (published seq o m (match_queues fsub book o)
            (some_inj (sym (ap (Option.map outcome) e) ∙ match-match_queues fsub sub book o v)))
  ]
