-- ===== src/Settlement/Twice.antt =====
-- A match that internal/engine/settlement.go is told of more than once.
use mynance.Base.{
  ℕ, ◌≡◌, ◌⊎◌, inl, inr, refl, Bool-cases, Option-cases, ◌||◌, some, ◌∙◌, ap, sym, subst,
}
use mynance.Shared.{ok, Result-cases}
use mynance.Store.{Env, Db}
use mynance.Book.{Trade}
use mynance.Engine.{Event, trade_matched, order_rested, order_cancelled}
use mynance.Trade.{ExecuteTradeCommand, Settled, execute_trade}
use mynance.Trade.Once.{execute_trade-once}
use mynance.Settlement.{Formats, is_partner, settle_command, executed, settle, on_trade_matched}

executed_again :
    (env env' : Env) (db : Db) (cmd : ExecuteTradeCommand) (d : Settled)
    → execute_trade env db cmd ≡ ok d
    → executed d.db (execute_trade env' d.db cmd) ≡ d.db
executed_again env env' db cmd d e = elim (Result-cases (execute_trade env' d.db cmd)) [
  | inl (d', e') ↦ absurd (execute_trade-once env env' db cmd cmd d d' e refl e')
  | inr (x, e') ↦ rw e' refl
]

settle_read :
    (f : Formats) (env : Env) (db : Db) (seq : ℕ) (t : Trade) (cmd : ExecuteTradeCommand)
    → settle_command f seq t ≡ some cmd
    → settle f env db seq t ≡ executed db (execute_trade env db cmd)
unfolding settle
settle_read f env db seq t cmd read = rw (read, settle) refl

settle_again :
    (f : Formats) (env env' : Env) (db : Db) (seq : ℕ) (t : Trade)
    → (settle f env db seq t ≡ db)
      ⊎ (settle f env' (settle f env db seq t) seq t ≡ settle f env db seq t)
unfolding settle
settle_again f env env' db seq t = elim (Option-cases (settle_command f seq t)) [
  | inl unread ↦ inl (rw (unread, settle) refl)
  | inr (cmd, read) ↦ elim (Result-cases (execute_trade env db cmd)) [
    | inl (d, e) ↦
        let after : settle f env db seq t ≡ d.db =
          settle_read f env db seq t cmd read ∙ ap (executed db) e in
        inr (
          subst (λ (x : Db). settle f env' x seq t ≡ x) (sym after)
            (settle_read f env' d.db seq t cmd read ∙ executed_again env env' db cmd d e))
    | inr (x, e) ↦ inl (settle_read f env db seq t cmd read ∙ ap (executed db) e)
  ]
]

-- Whatever fails, being told of an event either changes nothing, or settles it for good: being told of
-- it again then changes nothing more.
pub on_trade_matched-twice :
    (f : Formats) (env env' : Env) (db : Db) (e : Event)
    → (on_trade_matched f env db e ≡ db)
      ⊎ (on_trade_matched f env' (on_trade_matched f env db e) e ≡ on_trade_matched f env db e)
unfolding on_trade_matched
on_trade_matched-twice f env env' db (trade_matched seq t) =
    elim (Bool-cases (is_partner t.buy_user_id || is_partner t.sell_user_id)) [
      | inl partner ↦ inl (rw partner refl)
      | inr users ↦ rw users (settle_again f env env' db seq t)
    ]
on_trade_matched-twice f env env' db (order_rested o) = inl refl
on_trade_matched-twice f env env' db (order_cancelled c r) = inl refl
