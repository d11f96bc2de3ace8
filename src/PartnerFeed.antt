-- ===== src/PartnerFeed.antt =====
-- The bot that mirrors the partner's levels into the engine: internal/partnerfeed/bot.go and
-- internal/partnerfeed/state.go. The texts of prices, the arithmetic of float64, what the engine answers and
-- the orders in which Go walks through a map are parameters.
pub mod Mirror
use mynance.Base.{
  ℕ, suc, ◌+◌, Bool, true, false, List, [], ◌∷◌, Option, none, some, Bytes, ◌=ᵇ◌, ◌==◌, ◌&&◌, ◌||◌,
  if◌then◌else◌, not, ◌++◌, take, length, leb,
}
use mynance.MarketFeed.{Level}

pub record RestingOrder : Type 0 where
  pub order_id : Bytes
  pub qty : ℕ

-- The orders placed by the keys of their prices.
abbrev pub SideMap : Type 0
SideMap = Bytes → Option RestingOrder

pub data BookSide : Type 0 where
  bid_side ask_side : BookSide

-- The maps of `bookState`; a symbol without a map has an empty one.
pub record BookState : Type 0 where
  pub bids : Bytes → SideMap
  pub asks : Bytes → SideMap

abbrev pub new_book_state : BookState
new_book_state = record { bids = λ symbol key. none; asks = λ symbol key. none }

-- `sideMap`, and what a change of the map that it returns does to the state
abbrev pub side_map : BookState → Bytes → BookSide → SideMap
side_map s symbol bid_side = s.bids symbol
side_map s symbol ask_side = s.asks symbol

abbrev pub with_side : BookState → Bytes → BookSide → SideMap → BookState
with_side s symbol bid_side m = record s { bids = λ x. if x =ᵇ symbol then m else s.bids x }
with_side s symbol ask_side m = record s { asks = λ x. if x =ᵇ symbol then m else s.asks x }

-- `levelKey` and `parseLevelKey`, `> 0`, a quantity times the n-th `jitter`, and whether the quantity
-- has changed by more than a tenth.
pub record Floats : Type 0 where
  pub level_key : ℕ → Bytes
  pub parse_level_key : Bytes → ℕ
  pub positive : ℕ → Bool
  pub jittered : ℕ → ℕ → ℕ
  pub over_tenth : ℕ → ℕ → Bool

-- Whether the engine accepts to cancel an order and to place one at a key, and `uuid.NewV7` for a key.
pub record Answers : Type 0 where
  pub cancels : Bytes → Bool
  pub places : Bytes → Bool
  pub fresh : Bytes → Option Bytes

pub data Submitted : Type 0 where
  submit_cancel : Bytes → Bytes → Submitted
  submit_place : Bytes → Bytes → Bytes → BookSide → ℕ → ℕ → Submitted

-- `materialDrift`
unfoldable pub material_drift : Floats → ℕ → ℕ → Bool
material_drift f prev next = if prev == 0 then not (next == 0) else f.over_tenth prev next

-- `topLevels`
abbrev pub top_levels : List Level → ℕ → List Level
top_levels src n = if leb (length src) n then src else take n src

abbrev pub Wanted : Type 0
Wanted = Bytes → Option ℕ

-- The first loop of `sync`: a later level of the same key replaces an earlier one.
unfoldable pub wanted_from : Floats → ℕ → List Level → Wanted → Wanted
wanted_from f draw [] want = want
wanted_from f draw (l ∷ rest) want =
    let seen = f.positive l.price && f.positive l.qty in
    wanted_from f (if seen then suc draw else draw) rest (
      if seen
      then (λ key. if key =ᵇ f.level_key l.price then some (f.jittered draw l.qty) else want key)
      else want)

abbrev pub nothing_wanted : Wanted
nothing_wanted key = none

-- A level that disappeared or whose quantity drifted.
abbrev pub is_stale : Floats → RestingOrder → Option ℕ → Bool
is_stale f r none = true
is_stale f r (some qty) = material_drift f r.qty qty

pub record Synced : Type 0 where
  pub cur : SideMap
  pub calls : List Submitted

abbrev pub put : SideMap → Bytes → Option RestingOrder → SideMap
put cur key o x = if x =ᵇ key then o else cur x

-- One round of the second loop; a refusal of the engine is only logged.
unfoldable pub drop_level : Floats → Wanted → Bytes → Bytes → SideMap → Synced
drop_level f want symbol key cur = elim (cur key) [
  | none ↦ record { cur = cur; calls = [] }
  | some r ↦
      if is_stale f r (want key)
      then record { cur = put cur key none; calls = submit_cancel r.order_id symbol ∷ [] }
      else record { cur = cur; calls = [] }
]

unfoldable pub drop_levels : Floats → Wanted → Bytes → List Bytes → SideMap → Synced
drop_levels f want symbol [] cur = record { cur = cur; calls = [] }
drop_levels f want symbol (key ∷ rest) cur =
    let first = drop_level f want symbol key cur in
    let others = drop_levels f want symbol rest first.cur in
    record { cur = others.cur; calls = first.calls ++ others.calls }

-- One round of the last loop; an order that has no owner is placed.
unfoldable pub place_level : Floats → Answers → Wanted → Bytes → BookSide → Bytes → SideMap → Synced
place_level f a want symbol side key cur = elim (want key) [
  | none ↦ record { cur = cur; calls = [] }
  | some qty ↦ elim (cur key) [
    | some r ↦ record { cur = cur; calls = [] }
    | none ↦ elim (a.fresh key) [
      | none ↦ record { cur = cur; calls = [] }
      | some id ↦ record {
        cur =
            if a.places key then put cur key (some (record { order_id = id; qty = qty })) else cur;
        calls = submit_place id [] symbol side (f.parse_level_key key) qty ∷ [];
      }
    ]
  ]
]

unfoldable pub place_levels :
    Floats → Answers → Wanted → Bytes → BookSide → List Bytes → SideMap → Synced
place_levels f a want symbol side [] cur = record { cur = cur; calls = [] }
place_levels f a want symbol side (key ∷ rest) cur =
    let first = place_level f a want symbol side key cur in
    let others = place_levels f a want symbol side rest first.cur in
    record { cur = others.cur; calls = first.calls ++ others.calls }

pub record Ticked : Type 0 where
  pub state : BookState
  pub calls : List Submitted

-- `sync`, with the keys of `cur` and of `want` in the orders in which they are walked through
unfoldable pub sync :
    Floats → Answers → List Bytes → List Bytes → BookState → Bytes → BookSide → List Level → Ticked
sync f a cur_keys want_keys s symbol side levels =
    let want = wanted_from f 0 levels nothing_wanted in
    let dropped = drop_levels f want symbol cur_keys (side_map s symbol side) in
    let placed = place_levels f a want symbol side want_keys dropped.cur in
    record { state = with_side s symbol side placed.cur; calls = dropped.calls ++ placed.calls }

-- The orders in which the maps of both sides are walked through
pub record Walks : Type 0 where
  pub bid_cur : List Bytes
  pub bid_want : List Bytes
  pub ask_cur : List Bytes
  pub ask_want : List Bytes

pub record Snapshot : Type 0 where
  pub bids : List Level
  pub asks : List Level

-- `tick`
unfoldable pub tick : Floats → Answers → Walks → ℕ → BookState → Bytes → Option Snapshot → Ticked
tick f a w depth s symbol none = record { state = s; calls = [] }
tick f a w depth s symbol (some snap) =
    let first = sync f a w.bid_cur w.bid_want s symbol bid_side (top_levels snap.bids depth) in
    let second =
      sync f a w.ask_cur w.ask_want first.state symbol ask_side (top_levels snap.asks depth) in
    record { state = second.state; calls = first.calls ++ second.calls }
