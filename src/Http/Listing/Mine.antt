-- ===== src/Http/Listing/Mine.antt =====
-- What `ListMine` of internal/ledger/handler.go shows to its caller.
use mynance.Base.{
  ℕ, zero, suc, ◌≤◌, Bool, true, List, [], ◌∷◌, Option-cases, Option, none, some, Bytes, ◌≡◌, sym,
  subst, arith, filter, take, drop, length, length-take-le, All, Bool-cases, inl, inr,
}
use mynance.Base.Int.{ℤ, pos, negsuc}
use mynance.Shared.{Result-cases, ok, guard, ◌>>=◌ as result_bind}
use mynance.Store.{Uuid, Env, Db, LedgerRow, io}
use mynance.Http.{
  Parsers, Context, json, go, ◌>>=◌, Answer, caller, finish-bind, plain, limit_of, parse_pagination,
}
use mynance.Http.Listing.Pages.{count_entries-ok}
use mynance.Http.Listing.Newest.{All-newest_first, length-newest_first}
use mynance.Http.Listing.{
  ListFilter, matches_filter, newest_first, list_entries, count_entries, ListQuery,
  parse_list_filter, LedgerListResponse, respond_list, list_mine,
}

-- A listing that was shown: entries of the calling user only, at most a hundred of them, and the number
-- of all that match.
pub record Shown (user : Uuid) (db : Db) (r : LedgerListResponse) : Type 0 where
  pub own : All (λ (row : LedgerRow). row.user_id ≡ user) r.items
  pub short : (length r.items ≤ r.page.limit) × (r.page.limit ≤ 100) × (1 ≤ r.page.limit)
  pub total_bounds : length r.items ≤ r.total

module _ (P : LedgerRow → Type 0) where
  All-take : (n : ℕ) (xs : List LedgerRow) → All P xs → All P (take n xs)
  All-take zero xs h = tt
  All-take (suc n) [] h = tt
  All-take (suc n) (x ∷ xs) h = (h.0, All-take n xs h.1)

  All-drop : (n : ℕ) (xs : List LedgerRow) → All P xs → All P (drop n xs)
  All-drop zero xs h = h
  All-drop (suc n) [] h = tt
  All-drop (suc n) (x ∷ xs) h = All-drop n xs h.1

  All-filter :
      (p : LedgerRow → Bool) (xs : List LedgerRow)
      → ((x : LedgerRow) → p x ≡ true → P x)
      → All P (filter p xs)
  All-filter p [] h = tt
  All-filter p (x ∷ xs) h = elim (Bool-cases (p x)) [
    | inl e ↦ rw (e, filter) (h x e, All-filter p xs h)
    | inr e ↦ rw (e, filter) (All-filter p xs h)
  ]

matches_own :
    (f : ListFilter) (row : LedgerRow) → matches_filter f row ≡ true → row.user_id ≡ f.user_id
unfolding matches_filter
matches_own f row h = ground (arith, h)

length_shown : (n o : ℕ) (xs : List LedgerRow) → length (take n (drop o xs)) ≤ length xs
length_shown zero o xs = omega arith
length_shown (suc n) zero [] = omega arith
length_shown (suc n) (suc o) [] = omega arith
length_shown (suc n) zero (x ∷ xs) = omega (arith, length_shown n zero xs)
length_shown (suc n) (suc o) (x ∷ xs) = omega (arith, length_shown (suc n) o xs)

limit_bounds : (o : Option ℤ) → (limit_of o ≤ 100) × (1 ≤ limit_of o)
limit_bounds none = omega arith
limit_bounds (some (pos n)) = ground arith
limit_bounds (some (negsuc n)) = omega arith

-- What a handler gave, if it wrote a document.
abbrev pub Wrote : {B : Type 0} → (B → Type 0) → Answer B → Type 0
Wrote P a = elim a.reply [ plain r ↦ Unit | json s b ↦ P b ]

pub caller-go : (ctx : Context) (user : Uuid) → caller ctx ≡ go user → ctx.user_id ≡ some user
caller-go ctx user h = elim (Option-cases ctx.user_id) [
  | inl e ↦ ground (arith, e, h)
  | inr (u, e) ↦ ground (arith, e, h)
]

parse_list_filter-go :
    (p : Parsers) (trim clean : Bytes → Bytes) (q : ListQuery) (user : Uuid) (f : ListFilter)
    → parse_list_filter p trim clean q user ≡ go f
    → (f.user_id ≡ user) × (f.page ≡ parse_pagination p q.limit q.offset)
unfolding parse_list_filter ◌>>=◌
parse_list_filter-go p trim clean q user f h = (ground (arith, h), ground (arith, h))

list_entries-items :
    (created_at : Uuid → ℕ) (env : Env) (f : ListFilter) (db : Db) (items : List LedgerRow)
    → list_entries created_at env f db ≡ ok items
    → items
      ≡ take f.page.limit
          (drop f.page.offset (newest_first created_at (filter (matches_filter f) db.ledger)))
unfolding list_entries result_bind io guard
list_entries-items created_at env f db items h = ground (arith, h)

Shown-page :
    (created_at : Uuid → ℕ) (env : Env) (db : Db) (f : ListFilter) (items : List LedgerRow)
    (total : ℕ)
    → (f.page.limit ≤ 100) × (1 ≤ f.page.limit)
    → list_entries created_at env f db ≡ ok items
    → count_entries env f db ≡ ok total
    → Shown f.user_id db (record { items = items; page = f.page; total = total })
Shown-page created_at env db f items total b l c =
    let chosen = filter (matches_filter f) db.ledger in
    let rows = newest_first created_at chosen in
    let page = take f.page.limit (drop f.page.offset rows) in
    let same : items ≡ page = list_entries-items created_at env f db items l in
    let own : All (λ (row : LedgerRow). row.user_id ≡ f.user_id) rows =
      All-newest_first (λ (row : LedgerRow). row.user_id ≡ f.user_id) created_at chosen
        (All-filter (λ (row : LedgerRow). row.user_id ≡ f.user_id) (matches_filter f) db.ledger
          (matches_own f)) in
    record {
      own = subst (All (λ (row : LedgerRow). row.user_id ≡ f.user_id)) (sym same) (
          All-take (λ (row : LedgerRow). row.user_id ≡ f.user_id) f.page.limit _
            (All-drop (λ (row : LedgerRow). row.user_id ≡ f.user_id) f.page.offset rows own));
      short = (rw same (length-take-le f.page.limit (drop f.page.offset rows)), b.0, b.1);
      total_bounds =
          rw (same, count_entries-ok env f db total c, sym (length-newest_first created_at chosen))
            (length_shown f.page.limit f.page.offset rows);
    }

respond_list-Shown :
    (created_at : Uuid → ℕ) (env : Env) (db : Db) (f : ListFilter) (r : LedgerListResponse)
    → (f.page.limit ≤ 100) × (1 ≤ f.page.limit)
    → respond_list created_at env db f ≡ go r
    → Shown f.user_id db r
unfolding respond_list ◌>>=◌
respond_list-Shown created_at env db f r b h =
    elim (Result-cases (list_entries created_at env f db)) [
      | inr (e, l) ↦ absurd (ground (arith, l, h))
      | inl (items, l) ↦ elim (Result-cases (count_entries env f db)) [
        | inr (e, c) ↦ absurd (ground (arith, l, c, h))
        | inl (total, c) ↦
            subst (Shown f.user_id db) (ground (arith, l, c, h))
              (Shown-page created_at env db f items total b l c)
      ]
    ]

-- The document of `ListMine` is about the calling user.
abbrev pub OwnEntries : Context → Db → LedgerListResponse → Type 0
OwnEntries ctx db r = (user : Uuid) × (ctx.user_id ≡ some user) × Shown user db r

-- Whatever the query asks for, the entries that `ListMine` shows are the calling user's own, at most as
-- many as the page's limit, which is between 1 and 100, and no more than the total that it tells.
pub list_mine-OwnEntries :
    (p : Parsers) (trim clean : Bytes → Bytes) (created_at : Uuid → ℕ) (env : Env) (db : Db)
    (ctx : Context) (q : ListQuery)
    → Wrote (OwnEntries ctx db) (list_mine p trim clean created_at env db ctx q)
unfolding list_mine parse_pagination
list_mine-OwnEntries p trim clean created_at env db ctx q =
    let P = λ (a : Answer LedgerListResponse). Wrote (OwnEntries ctx db) a in
    finish-bind P db _ _ (λ _. tt)
      (λ user u.
        finish-bind P db _ _ (λ _. tt)
          (λ f g.
            finish-bind P db _ _ (λ _. tt)
              (λ r k.
                let q' = parse_list_filter-go p trim clean q user f g in
                let bounds : (f.page.limit ≤ 100) × (1 ≤ f.page.limit) =
                  rw q'.1 (limit_bounds (p.atoi q.limit)) in
                (
                  user,
                  caller-go ctx user u,
                  subst (λ (v : Uuid). Shown v db r) q'.0
                      (respond_list-Shown created_at env db f r bounds k),
                ))))
