-- ===== src/MarketFeed/Start.antt =====
-- The connections that internal/marketfeed/client.go makes, one after the other.
use mynance.Base.{ℕ, suc, ◌-◌, ◌*◌, ◌%◌, ◌^◌, List, [], ◌∷◌, ◌++◌, if◌then◌else◌, ltb}
use mynance.Base.Int.{ℤ, pos, negsuc, ltb_ℤ}
use mynance.MarketFeed.{Client, Json, Connection, Call, receive}

-- A pattern of 64 bits as an int64
abbrev pub to_int64 : ℕ → ℤ
to_int64 u = if ltb u (2 ^ 63) then pos u else negsuc (2 ^ 64 - u - 1)

abbrev pub second : ℕ
second = 1_000_000_000

-- `time.Duration(1<<attempt) * time.Second`, at most 30 seconds
unfoldable pub backoff : ℕ → ℤ
backoff attempt =
    let wait = to_int64 (2 ^ attempt * second % 2 ^ 64) in
    if ltb_ℤ (pos (30 * second)) wait then pos (30 * second) else wait

pub record Run : Type 0 where
  pub client : Client
  pub calls : List Call
  pub waits : List ℤ

-- The loop of `Start`. `connectAndStream` never returns without an error, so `attempt` only grows.
unfoldable pub start_from : Json → ℕ → List Connection → Client → Run
start_from j attempt [] c = record { client = c; calls = []; waits = [] }
start_from j attempt (k ∷ rest) c =
    let h = receive j k.messages c in
    let later = start_from j (suc attempt) rest h.client in
    if k.stopping then record { client = h.client; calls = h.calls; waits = [] } else record {
      client = later.client;
      calls = h.calls ++ later.calls;
      waits = backoff attempt ∷ later.waits;
    }

-- `Start`, over the connections that it makes
unfoldable pub start : Json → List Connection → Client → Run
start j connections c =
    if c.enabled
    then start_from j 0 connections c
    else record { client = c; calls = []; waits = [] }
