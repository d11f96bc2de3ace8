-- ===== src/Http/Listing.antt =====
-- Listings of the ledger and of trades: internal/ledger/store.go, internal/ledger/handler.go and
-- internal/trade/store.go. The creation times of entries, by their identifiers, and whether an entry was made
-- between the bounds of a filter are parameters, and so are `strings.TrimSpace` and `strings.ToUpper`. Trades
-- are listed by their creation, the last one first.
pub mod Newest
pub mod Pages
pub mod Mine
use mynance.Base.{
  ℕ, Bool, true, false, List, [], ◌∷◌, Option, none, some, Bytes, bytes, ◌=ᵇ◌, ◌==◌, ◌&&◌, ◌||◌,
  if◌then◌else◌, filter, take, drop, map, is_empty, length, ltb,
}
use mynance.Numeric.{Numeric, loaded}
use mynance.Shared.{Result, ok, err, ◌>>=◌ as result_bind}
use mynance.Store.{
  Uuid, Env, Db, Trade, LedgerRow, EntryType, reserve, release, trade_entry, deposit_entry,
  withdraw_entry, io, query,
}
use mynance.Order.{split}
use mynance.Http.{
  Parsers, Context, is_admin, Reply, http_error, json, plain, Step, go, stop, ◌>>=◌, ◌>>◌, Answer,
  finish, parsed, served, caller, ensure_owner, Page, parse_pagination,
}

-- `ListFilter`; an empty asset and no entry types are no constraint.
pub record ListFilter : Type 0 where
  pub user_id : Uuid
  pub asset : Bytes
  pub entry_types : List EntryType
  pub in_span : LedgerRow → Bool
  pub page : Page

unfoldable pub same_type : EntryType → EntryType → Bool
same_type reserve reserve = true
same_type release release = true
same_type trade_entry trade_entry = true
same_type deposit_entry deposit_entry = true
same_type withdraw_entry withdraw_entry = true
same_type _ _ = false

unfoldable pub any_type : EntryType → List EntryType → Bool
any_type t [] = false
any_type t (s ∷ rest) = same_type t s || any_type t rest

-- The conditions of `buildWhere`
unfoldable pub matches_filter : ListFilter → LedgerRow → Bool
matches_filter f row =
    (row.user_id == f.user_id)
    && ((is_empty f.asset || (row.asset =ᵇ f.asset))
        && ((is_empty f.entry_types || any_type row.entry_type f.entry_types) && f.in_span row))

-- ORDER BY created_at DESC, id DESC: whether a row comes before another, and the rows in that order
unfoldable pub is_newer : (Uuid → ℕ) → LedgerRow → LedgerRow → Bool
is_newer created_at a b =
    ltb (created_at b.id) (created_at a.id)
    || ((created_at a.id == created_at b.id) && ltb b.id a.id)

unfoldable pub put_in_order : (Uuid → ℕ) → LedgerRow → List LedgerRow → List LedgerRow
put_in_order created_at row [] = row ∷ []
put_in_order created_at row (first ∷ rest) =
    let later = put_in_order created_at row rest in
    if is_newer created_at row first then row ∷ first ∷ rest else first ∷ later

unfoldable pub newest_first : (Uuid → ℕ) → List LedgerRow → List LedgerRow
newest_first created_at [] = []
newest_first created_at (row ∷ rest) = put_in_order created_at row (newest_first created_at rest)

-- `ListByUser`
unfoldable pub list_entries : (Uuid → ℕ) → Env → ListFilter → Db → Result (List LedgerRow)
list_entries created_at env f db = result_bind (io env (query 0)) (λ _. ok (
    take f.page.limit
      (drop f.page.offset (newest_first created_at (filter (matches_filter f) db.ledger)))))

-- `CountByUser`
unfoldable pub count_entries : Env → ListFilter → Db → Result ℕ
count_entries env f db =
    result_bind (io env (query 1)) (λ _. ok (length (filter (matches_filter f) db.ledger)))

-- `validEntryTypes`
unfoldable pub entry_type_of : Bytes → Option EntryType
entry_type_of text =
    if text =ᵇ bytes "RESERVE"
    then some reserve
    else (if text =ᵇ bytes "RELEASE"
        then some release
        else (if text =ᵇ bytes "TRADE"
            then some trade_entry
            else (if text =ᵇ bytes "DEPOSIT"
                then some deposit_entry
                else (if text =ᵇ bytes "WITHDRAW" then some withdraw_entry else none))))

-- The loop of `parseListFilter` over the parts of `entry_type`: an empty part is skipped.
unfoldable pub entry_types_of : (Bytes → Bytes) → List Bytes → Option (List EntryType)
entry_types_of clean [] = some []
entry_types_of clean (part ∷ parts) =
    let rest = entry_types_of clean parts in
    if is_empty (clean part) then rest else (elim (entry_type_of (clean part)) [
      | none ↦ none
      | some t ↦ elim rest [ none ↦ none | some ts ↦ some (t ∷ ts) ]
    ])

-- The query of a listing: `none` for a bound that is given and cannot be read.
pub record ListQuery : Type 0 where
  pub limit : Bytes
  pub offset : Bytes
  pub asset : Bytes
  pub entry_type : Bytes
  pub in_span : Option (LedgerRow → Bool)

-- `parseListFilter`
unfoldable pub parse_list_filter :
    Parsers → (Bytes → Bytes) → (Bytes → Bytes) → ListQuery → Uuid → Step ListFilter
parse_list_filter p trim clean q user = do
  types ←
      parsed
        (if is_empty q.entry_type then some [] else entry_types_of clean (split b',' q.entry_type))
  in_span ← parsed q.in_span
  go (record {
    user_id = user;
    asset = trim q.asset;
    entry_types = types;
    in_span = in_span;
    page = parse_pagination p q.limit q.offset;
  })

pub record LedgerListResponse : Type 0 where
  pub items : List LedgerRow
  pub page : Page
  pub total : ℕ

-- `respondList`
unfoldable pub respond_list : (Uuid → ℕ) → Env → Db → ListFilter → Step LedgerListResponse
respond_list created_at env db f = do
  entries ← served (list_entries created_at env f db)
  total ← served (count_entries env f db)
  go (record { items = entries; page = f.page; total = total })

-- `ListMine`
unfoldable pub list_mine :
    Parsers
    → (Bytes → Bytes)
    → (Bytes → Bytes)
    → (Uuid → ℕ)
    → Env
    → Db
    → Context
    → ListQuery
    → Answer LedgerListResponse
list_mine p trim clean created_at env db ctx q = finish db (do
  user ← caller ctx
  f ← parse_list_filter p trim clean q user
  found ← respond_list created_at env db f
  go (record { reply = json 200 found; db = db }))

-- `AdminList`
unfoldable pub admin_list :
    Parsers
    → (Bytes → Bytes)
    → (Bytes → Bytes)
    → (Uuid → ℕ)
    → Env
    → Db
    → Context
    → Bytes
    → ListQuery
    → Answer LedgerListResponse
admin_list p trim clean created_at env db ctx raw_user q = finish db (do
  (if is_admin ctx then go tt else stop (http_error 403))
  (if is_empty raw_user then stop (http_error 400) else go tt)
  user ← parsed (p.uuid raw_user)
  f ← parse_list_filter p trim clean q user
  found ← respond_list created_at env db f
  go (record { reply = json 200 found; db = db }))

-- `UserTrade`: a trade as one of its two users sees it.
pub record UserTrade : Type 0 where
  pub id : Uuid
  pub symbol : Bytes
  pub bought : Bool
  pub price : Numeric
  pub quantity : Numeric
  pub counterparty_user_id : Uuid

abbrev pub trade_of : Uuid → Trade → UserTrade
trade_of user t = record {
  id = t.id;
  symbol = t.symbol;
  bought = t.buy_user_id == user;
  price = t.price;
  quantity = t.quantity;
  counterparty_user_id = if t.buy_user_id == user then t.sell_user_id else t.buy_user_id;
}

abbrev pub takes_part : Uuid → Bytes → Trade → Bool
takes_part user symbol t =
    ((t.buy_user_id == user) || (t.sell_user_id == user))
    && (is_empty symbol || (t.symbol =ᵇ symbol))

-- `ListByUser` of internal/trade/store.go
unfoldable pub list_trades : Env → Uuid → Bytes → Page → Db → Result (List UserTrade)
list_trades env user symbol page db = result_bind (io env (query 0)) (λ _. ok (
    map (trade_of user)
      (take page.limit (drop page.offset (filter (takes_part user symbol) db.trades)))))

-- `ListByUser` of internal/trade/handler.go
unfoldable pub list_trades_handler :
    Parsers → Env → Db → Context → Bytes → Bytes → Bytes → Bytes → Answer (List UserTrade)
list_trades_handler p env db ctx raw_user symbol limit offset = finish db (do
  user ← parsed (p.uuid raw_user)
  served (ensure_owner ctx user)
  trades ← served (list_trades env user symbol (parse_pagination p limit offset) db)
  go (record { reply = json 200 trades; db = db }))
