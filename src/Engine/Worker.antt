-- ===== src/Engine/Worker.antt =====
-- What a worker of internal/engine/engine.go does to the books, and the numbers that it gives to trades.
use mynance.Base.{
  ℕ, suc, ◌+◌, ◌≡◌, ◌≢◌, refl, inl, inr, Bool, true, false, List, [], ◌∷◌, ◌++◌, Option, none, some,
  Bytes, ltb, if◌then◌else◌, length, arith, Option-cases, subst,
}
use mynance.Book.{Order, Trade, OrderBook}
use mynance.Book.Match.{Matched, match}
use mynance.Book.Float.{IsSub}
use mynance.Book.Cancel.{cancel}
use mynance.Book.CancelLaws.{IfSome, cancel-IsValid}
use mynance.Book.Valid.{IsValid, Ensures, match-IsValid}
use mynance.Engine.{
  Command, CommandKind, place_order, cancel_order, other_kind, CancelInfo, Shard, Engine, Event,
  shard_of, put_shard, Handled, handle, handle_place, handle_cancel, work, run_worker,
  publish_trades, trade_matched, order_rested, order_cancelled,
}
use mynance.Engine.Channel.{shard_of-put_self, shard_of-put_ne, every_shard-put_shard}

-- The number of trades among the events, and that they carry the numbers from `seq + 1` on.
pub Numbered : ℕ → List Event → Type 0
Numbered seq [] = Unit {0}
Numbered seq (trade_matched n t ∷ es) = (n ≡ seq + 1) × Numbered (seq + 1) es
Numbered seq (order_rested o ∷ es) = Numbered seq es
Numbered seq (order_cancelled c r ∷ es) = Numbered seq es

pub traded : List Event → ℕ
traded [] = 0
traded (trade_matched n t ∷ es) = suc (traded es)
traded (order_rested o ∷ es) = traded es
traded (order_cancelled c r ∷ es) = traded es

publish_trades-Numbered :
    (seq : ℕ) (ts : List Trade) (es : List Event)
    → ((k : ℕ) → Numbered k es)
    → Numbered seq (publish_trades seq ts ++ es)
unfolding publish_trades Numbered
publish_trades-Numbered seq [] es h = h seq
publish_trades-Numbered seq (t ∷ ts) es h = (refl, publish_trades-Numbered (seq + 1) ts es h)

traded-publish_trades :
    (seq : ℕ) (ts : List Trade) (es : List Event)
    → traded (publish_trades seq ts ++ es) ≡ length ts + traded es
unfolding publish_trades traded
traded-publish_trades seq [] es = omega arith
traded-publish_trades seq (t ∷ ts) es = omega (arith, traded-publish_trades (seq + 1) ts es)

rested-Numbered :
    (b : Bool) (o : Order) (k : ℕ) → Numbered k (if b then order_rested o ∷ [] else [])
unfolding Numbered
rested-Numbered true o k = tt
rested-Numbered false o k = tt

traded-rested : (b : Bool) (o : Order) → traded (if b then order_rested o ∷ [] else []) ≡ 0
unfolding traded
traded-rested true o = refl
traded-rested false o = refl

-- A command leaves a valid book, numbers the trades it publishes without gap from the counter on,
-- and moves the counter to the last number.
pub record Handles (seq : ℕ) (h : Handled) : Type 0 where
  pub valid : IsValid h.book
  pub in_turn : Numbered seq h.events
  pub counted : h.seq ≡ seq + traded h.events

abbrev pub AllValid : Engine → Type 0
AllValid e = (symbol : Bytes) (sh : Shard) → shard_of symbol e.shards ≡ some sh → IsValid sh.book

abbrev pub seq_of : Engine → Bytes → ℕ
seq_of e symbol = elim (shard_of symbol e.shards) [ none ↦ 0 | some sh ↦ sh.seq ]

pub record Works (e : Engine) (symbol : Bytes) (r : Engine × List Event) : Type 0 where
  pub valid : AllValid r.0
  pub in_turn : Numbered (seq_of e symbol) r.1
  pub counted : seq_of r.0 symbol ≡ seq_of e symbol + traded r.1
  pub alone : (other : Bytes) → other ≢ symbol → shard_of other r.0.shards ≡ shard_of other e.shards

module _ (fsub : ℕ → ℕ → ℕ) (sub : IsSub fsub) where
  handle_place-Handles :
      (book : OrderBook) (seq : ℕ) (o : Option Order)
      → IsValid book
      → Ensures (Handles seq) (handle_place fsub book seq o)
  unfolding handle_place Numbered traded
  handle_place-Handles book seq none v = record { valid = v; in_turn = tt; counted = omega arith }
  handle_place-Handles book seq (some o) v = elim (Option-cases (match fsub book o)) [
    | inl stuck ↦ absurd (subst (Ensures _) stuck (match-IsValid fsub sub book o v))
    | inr (m, e) ↦
        rw (e, handle_place) (placed m (subst (Ensures _) e (match-IsValid fsub sub book o v)))
  ]
    where
      placed :
          (m : Matched)
          → IsValid m.book
          → Handles seq (record {
            book = m.book;
            seq = seq + length m.trades;
            events =
                publish_trades seq m.trades
                ++ (if ltb 0 m.left
                    then order_rested (record o { remaining = m.left }) ∷ []
                    else []);
          })
      placed m v' = record {
        valid = v';
        in_turn = publish_trades-Numbered seq m.trades _ (rested-Numbered (ltb 0 m.left) _);
        counted = omega (
          arith,
          traded-publish_trades seq m.trades
              (if ltb 0 m.left then order_rested (record o { remaining = m.left }) ∷ [] else []),
          traded-rested (ltb 0 m.left) (record o { remaining = m.left }),
        );
      }

  handle_cancel-Handles :
      (book : OrderBook) (seq : ℕ) (c : Option CancelInfo)
      → IsValid book
      → Handles seq (handle_cancel fsub book seq c)
  unfolding handle_cancel Numbered traded
  handle_cancel-Handles book seq none v = record { valid = v; in_turn = tt; counted = omega arith }
  handle_cancel-Handles book seq (some c) v = elim (Option-cases (cancel book c.order_id)) [
    | inl e ↦ rw (e, handle_cancel) (record { valid = v; in_turn = tt; counted = omega arith })
    | inr (r, e) ↦
        rw (e, handle_cancel)
          (record {
            valid = subst (IfSome _) e (cancel-IsValid book c.order_id v);
            in_turn = tt;
            counted = omega arith;
          })
  ]

  -- A worker that handles a command on a valid book leaves a valid book; the trades that it publishes carry
  -- consecutive numbers from one above the counter on, and the counter is left at the last of them.
  handle-Handles :
      (book : OrderBook) (seq : ℕ) (cmd : Command)
      → IsValid book
      → Ensures (Handles seq) (handle fsub book seq cmd)
  unfolding handle Numbered traded
  handle-Handles book seq cmd v = by_kind cmd.kind refl
    where
      by_kind : (k : CommandKind) → cmd.kind ≡ k → Ensures (Handles seq) (handle fsub book seq cmd)
      by_kind place_order e = rw (e, handle) (handle_place-Handles book seq cmd.order v)
      by_kind cancel_order e = rw (e, handle) (handle_cancel-Handles book seq cmd.cancel v)
      by_kind (other_kind k) e =
          rw (e, handle) (record { valid = v; in_turn = tt; counted = omega arith })

  -- Every book of the engine is valid.
  work-Works :
      (e : Engine) (symbol : Bytes) (sh : Shard) (cmds : List Command)
      → AllValid e
      → shard_of symbol e.shards ≡ some sh
      → Ensures (Works e symbol) (work fsub e symbol sh cmds)
  unfolding work Numbered traded
  work-Works e symbol sh [] v found = record {
    valid = v;
    in_turn = tt;
    counted = omega arith;
    alone = λ other ne. refl;
  }
  work-Works e symbol sh (cmd ∷ rest) v found =
      elim (Option-cases (handle fsub sh.book sh.seq cmd)) [
        | inl stuck ↦
            absurd (subst (Ensures _) stuck (handle-Handles sh.book sh.seq cmd (v symbol sh found)))
        | inr (h, done) ↦
            rw (done, work)
              (worked h
                (subst (Ensures _) done (handle-Handles sh.book sh.seq cmd (v symbol sh found))))
      ]
    where
      after : Handled → Shard
      after h = record sh { book = h.book; cmd_ch = rest; seq = h.seq }

      worked :
          (h : Handled)
          → Handles sh.seq h
          → Works e symbol (record e { shards = put_shard symbol (after h) e.shards }, h.events)
      worked h ok = record {
        valid = every_shard-put_shard (λ x. IsValid x.book) symbol (after h) e.shards ok.valid v;
        in_turn = rw (found, seq_of) ok.in_turn;
        counted =
            rw (shard_of-put_self symbol (after h) e.shards, seq_of)
              (rw (found, seq_of) ok.counted);
        alone = λ other ne. shard_of-put_ne other symbol (after h) e.shards ne;
      }

  -- A worker's round on an engine whose books are valid returns, leaves every book valid, numbers the
  -- trades it publishes consecutively from its symbol's counter on, and leaves the shards of all other
  -- symbols, their channels and counters included, as they were.
  pub run_worker-Works :
      (e : Engine) (symbol : Bytes)
      → AllValid e
      → Ensures (Works e symbol) (run_worker fsub e symbol)
  unfolding run_worker Numbered traded
  run_worker-Works e symbol v = elim (Option-cases (shard_of symbol e.shards)) [
    | inl missing ↦
        rw (missing, run_worker)
          (record { valid = v; in_turn = tt; counted = omega arith; alone = λ other ne. refl })
    | inr (sh, found) ↦ rw (found, run_worker) (work-Works e symbol sh sh.cmd_ch v found)
  ]
