-- ===== src/Lib.antt =====
-- A model of mynance, a spot exchange written in Go: users hold balances in assets, place limit orders,
-- and an engine in memory matches them; deposits and withdrawals move money in and out. Balances are
-- never stored: a balance is the sum of a user's ledger entries in an asset.
--
-- The parts, and the files that model them:
--   Book        internal/engine/book.go: one symbol's order book, `match` and `cancel`.
--   Engine      internal/engine/engine.go: the shards, `submit` (Submit), and a round of a worker
--               (runWorker, handle, handlePlace, handleCancel) as one step that returns its events; and
--               what cmd/server/main.go loads at the start (rehydrateEngine).
--   Numeric     pkg/numeric/numeric.go: decimal amounts over big.Rat, and the NUMERIC(30, 10) columns
--               of migrations/ that amounts are rounded to.
--   Shared      internal/shared/errors.go and Go's sequence of fallible calls as `Result`.
--   Store       the database: the tables as lists of rows, and the small stores that every service
--               uses (internal/ledger/store.go, internal/order/store.go, internal/idempotency/store.go,
--               internal/outbox/store.go, the look-up of internal/account/).
--   Order       internal/order/: `place_order` and `cancel_order` (PlaceOrder, CancelOrder).
--   Trade       internal/trade/service.go: `execute_trade` (ExecuteTrade).
--   Settlement  internal/engine/settlement.go: from a matched trade to a call of ExecuteTrade, and
--               internal/engine/settlement_sandbox.go, which first stores an order for the partner.
--   Deposit     internal/deposit/: Intake, Confirm, Reject, Simulate and the processors.
--   Asset       internal/asset/: the catalog of assets and networks.
--   Account     internal/account/: accounts, and the provisioner inside a transaction that can abort.
--   User        internal/user/service.go and internal/user/store.go: signing up, logging in, deleting.
--   Wallet      internal/wallet/: GetOrCreateAddress and the addresses that it makes up.
--   Withdrawal  internal/withdrawal/: Withdraw, Simulate and the processors.
--   MarketData  internal/marketdata/service.go: the book and the trades that clients are shown.
--   MarketFeed  internal/marketfeed/: the client of another exchange's streams, and its handlers.
--   PartnerFeed internal/partnerfeed/: the bot that mirrors the partner's levels into the engine.
--   WsFeed      internal/wsfeed/: the hub, its clients' topics and queues, and the bridge from events to
--               topics.
--   Outbox      internal/outbox/publisher.go: a batch of the publisher.
--   Http        internal/auth/, internal/shared/response.go, the handlers of the services (Orders, Funds,
--               Users, Listing) and the routes of cmd/server/main.go (Serve).
--   Exchange    all requests that commit, as steps between databases, and an abstract exchange.
--   Base        helpers: texts as bytes, integers, lists and tests over native numbers.
--   Tests       concrete inputs.
--
-- How they interact: an order service commits an order and then tells the engine (`EngineCall`); a
-- worker matches it and publishes events, which the market data view reads and the settlement
-- turns into `execute_trade`; the services leave events in the outbox for its publisher.
--
-- A request is a function from the database to a new one or an error. Its calls that can fail, and the
-- identifiers it makes, are an `Env`; an error stands for a transaction that was rolled back. Where the
-- code reads before its transaction begins, the function takes two states, which differ if another
-- request commits in between. The texts of identifiers and numbers, the match of an address against a
-- pattern, the outbox handler and the arithmetic of float64 are parameters.
--
-- Book quantities are finite float64 values that are not negative, as bit patterns, whose order is that
-- of the numbers; of their subtraction only `IsSub` is assumed. The matching loops run on fuel, one
-- step for each order of a level and one for each level, and one more: a step of the inner loop takes an
-- order away or uses up the incoming one, and a step of the outer loop takes a level away or ends it.
--
-- A handler is a function from the decoded body of a request and the context of its caller to a reply and
-- a database. Decoding, validation by tags, the texts of replies and the check of a token are parameters
-- or left out. In Exchange the states that a request reads before its transaction are any states at all, so
-- that every interleaving of transactions is a sequence of steps.
--
-- Every amount is a finite decimal. `Parse` takes the texts "NaN", "Infinity" and "-Infinity" too, and the
-- handlers of orders and trades do not refuse them; what the code does with such an amount (a column keeps NaN,
-- while `toRat` reads it as zero) is not modelled, and no result covers it. Nor does a result about the books
-- cover a negative price or quantity of an order, or a NaN.
--
-- Not modelled: configuration and wiring, klines, the event bus, the connections of websockets, and the older
-- packages internal/domain/, internal/service/, internal/repository/ and internal/handler/. Creation times are
-- left out, but for those by which the ledger is listed. A value that exceeds the thirty digits of a column is
-- a failing call. So is a primary key of a ledger entry, an idempotency key or an event that is taken, as
-- their identifiers are fresh. Trades and withdrawals keep the amount given, since nothing that is modelled
-- computes with them once they are read back.
pub mod Base
pub mod Book
pub mod Engine
pub mod Numeric
pub mod Shared
pub mod Store
pub mod Order
pub mod Trade
pub mod Settlement
pub mod Deposit
pub mod Asset
pub mod Account
pub mod User
pub mod Wallet
pub mod Http
pub mod Exchange
pub mod Withdrawal
pub mod WsFeed
pub mod MarketData
pub mod MarketFeed
pub mod PartnerFeed
pub mod Outbox
pub mod Tests
