-- ===== src/Tests/Web.antt =====
-- Requests of callers over HTTP on concrete inputs.
use mynance.Base.{◌≡◌, refl, true, false, [], ◌∷◌, none, some, bytes, ◌=ᵇ◌, arith}
use mynance.Base.Int.{pos}
use mynance.Shared.{ok, ◌>>=◌ as result_bind, guard}
use mynance.Store.{deposit_entry, io}
use mynance.Store.Ledger.{balance}
use mynance.Deposit.{Processor}
use mynance.Http.{Claims, Parsers, with_user, is_admin, go, ◌>>=◌}
use mynance.Http.Orders.{ExecuteTradeRequest, trade_request}
use mynance.Http.Listing.{
  ListFilter, same_type, any_type, matches_filter, count_entries, ListQuery, list_mine,
}
use mynance.Http.Listing.Mine.{OwnEntries, Wrote, list_mine-OwnEntries}
use mynance.Http.Listing.Newest.{Distinct}
use mynance.Http.Listing.Pages.{all_pages, Paged, all_pages-Paged}
use mynance.Http.Serve.{World, delete_order, serve}
use mynance.Http.Caller.{serve-Keeps}
use mynance.Tests.{env, db, usdt, btc_usdt, num}
use mynance.Tests.Trades as Trades
use mynance.Tests.Users as Users

-- Texts of identifiers and amounts are one byte, and every token names user 3.
abbrev parsers : Parsers
parsers = record {
  uuid = λ text. elim text [ [] ↦ none | c ∷ rest ↦ some c ];
  numeric = λ text. elim text [ [] ↦ none | c ∷ rest ↦ some (num (pos c)) ];
  atoi = λ text. elim text [ [] ↦ none | c ∷ rest ↦ some (pos c) ];
  verify = λ token. some (record { user_id = 3; role = bytes "USER" });
}

abbrev world : World
world = record {
  parsers = parsers;
  markets = [];
  assets = Users.assets;
  catalog = Users.catalog;
  crypto = Users.crypto;
  random = Users.random;
  uuid_text = λ id. id ∷ [];
  processor = Processor.sandbox;
  salt = 0;
  env = λ n. env;
}

abbrev third : Claims
third = record { user_id = 3; role = bytes "USER" }

not_admin : is_admin (with_user third) ≡ false
unfolding ◌=ᵇ◌
not_admin = refl

-- User 3 asks to cancel the order of user 1.
serve-Keeps_example :
    balance 1 usdt (serve world (with_user third) db (delete_order (51 ∷ []))).ledger
    ≡ balance 1 usdt db.ledger
serve-Keeps_example =
    serve-Keeps world (with_user third) db (delete_order (51 ∷ [])) 1 usdt not_admin
      (λ h. ground (arith, h)) refl

-- User 3 settles the orders of users 1 and 2.
abbrev request : ExecuteTradeRequest
request = record {
  symbol = btc_usdt;
  buy_order_id = 51 ∷ [];
  sell_order_id = 52 ∷ [];
  price = 20 ∷ [];
  quantity = 2 ∷ [];
  idempotency_key = bytes "t";
}

asked : trade_request parsers request ≡ go Trades.match
unfolding trade_request ◌>>=◌
asked = refl

abbrev credits_of_1 : ListFilter
credits_of_1 = record {
  user_id = 1;
  asset = [];
  entry_types = deposit_entry ∷ [];
  in_span = λ row. true;
  page = record { limit = 1; offset = 0 };
}

counted : count_entries env credits_of_1 db ≡ ok 1
unfolding count_entries result_bind guard io matches_filter same_type any_type
counted = refl

ledger-Distinct : Distinct db.ledger
ledger-Distinct = ((λ h. absurd (omega (arith, h)), tt), (tt, tt))

all_pages-Paged_example :
    Paged (λ id. 0) credits_of_1 db (all_pages (λ id. 0) env credits_of_1 (λ j. db) 2 0)
all_pages-Paged_example =
    all_pages-Paged (λ id. 0) env env credits_of_1 db (λ j. db) 2 1 refl counted (omega arith)
      ledger-Distinct (λ j. ledger-Distinct) (λ j r. (λ k. k, λ k. k))

abbrev query : ListQuery
query = record {
  limit = [];
  offset = [];
  asset = [];
  entry_type = [];
  in_span = some (λ row. true);
}

list_mine-OwnEntries_example :
    Wrote
      (OwnEntries (with_user third) db)
      (list_mine parsers (λ t. t) (λ t. t) (λ id. 0) env db (with_user third) query)
list_mine-OwnEntries_example =
    list_mine-OwnEntries parsers (λ t. t) (λ t. t) (λ id. 0) env db (with_user third) query
