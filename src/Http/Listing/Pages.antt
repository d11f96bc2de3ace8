-- ===== src/Http/Listing/Pages.antt =====
-- What the listings of internal/ledger/handler.go show, page by page.
use mynance.Base.{
  ℕ, zero, suc, ◌+◌, ◌*◌, ◌≤◌, false, List, [], ◌∷◌, ◌++◌, ◌≡◌, refl, sym, ap, ◌∙◌, arith, filter,
  take, drop, length, ◌⊎◌, inl, inr, ◌↔◌, true, Bool, true_not_false, ◌||◌, bytes_iff, is_empty,
  ◌&&◌, ==_iff, ◌==◌, ◌=ᵇ◌,
}
use mynance.Shared.{Result, ok, guard, ◌>>=◌ as result_bind}
use mynance.Store.{Uuid, Env, Db, LedgerRow, EntryType, io, query}
use mynance.Http.Listing.{
  ListFilter, matches_filter, list_entries, count_entries, same_type, any_type, newest_first,
}
use mynance.Http.Listing.Newest.{
  Among, Distinct, NewestFirst, NewestFirst-unique, Among-newest_first, Among-filter,
  Distinct-filter, newest_first-NewestFirst, length-newest_first,
}

zero_add : (n : ℕ) → 0 + n ≡ n
zero_add n = omega arith

suc_add : (k m : ℕ) → suc k + m ≡ suc (k + m)
suc_add k m = omega arith

module _ {A : Type 0} where
  take_all : (n : ℕ) (xs : List A) → length xs ≤ n → take n xs ≡ xs
  take_all zero [] h = refl
  take_all zero (x ∷ xs) h = absurd (omega arith)
  take_all (suc n) [] h = refl
  take_all (suc n) (x ∷ xs) h = ap (λ (t : List A). x ∷ t) (take_all n xs (omega arith))

  take-nil : (n : ℕ) → ◌≡◌ {A = List A} (take n []) []
  take-nil zero = refl
  take-nil (suc n) = refl

  drop-nil : (n : ℕ) → ◌≡◌ {A = List A} (drop n []) []
  drop-nil zero = refl
  drop-nil (suc n) = refl

  take-take-drop : (k m : ℕ) (xs : List A) → take k xs ++ take m (drop k xs) ≡ take (k + m) xs
  take-take-drop zero m xs = rw (zero_add m) refl
  take-take-drop (suc k) m [] = rw (take-nil m, take-nil (suc k + m)) refl
  take-take-drop (suc k) m (x ∷ xs) =
      rw (suc_add k m) (ap (λ (t : List A). x ∷ t) (take-take-drop k m xs))

  drop-drop : (k o : ℕ) (xs : List A) → drop k (drop o xs) ≡ drop (o + k) xs
  drop-drop k zero xs = rw (zero_add k) refl
  drop-drop k (suc o) [] = rw (drop-nil k, drop-nil (suc o + k)) refl
  drop-drop k (suc o) (x ∷ xs) = rw (suc_add o k) (drop-drop k o xs)

or_iff : (a b : Bool) → ((a || b) ≡ true) ↔ ((a ≡ true) ⊎ (b ≡ true))
or_iff a b = ground arith

and_iff : (a b : Bool) → ((a && b) ≡ true) ↔ ((a ≡ true) × (b ≡ true))
and_iff a b = ground arith

is_empty_iff : {A : Type 0} (xs : List A) → (is_empty xs ≡ true) ↔ (xs ≡ [])
is_empty_iff xs = ground arith

-- The types are among those that a filter names.
abbrev pub OneOf : EntryType → List EntryType → Type 0
OneOf t [] = ⊥
OneOf t (s ∷ rest) = (t ≡ s) ⊎ OneOf t rest

-- What a client means by a filter: the user's own entries, of the asset if one is given, of one of the types if
-- some are given, within the bounds of time.
abbrev pub Wanted : ListFilter → LedgerRow → Type 0
Wanted f row =
    (row.user_id ≡ f.user_id)
    × (((f.asset ≡ []) ⊎ (row.asset ≡ f.asset))
        × (((f.entry_types ≡ []) ⊎ OneOf row.entry_type f.entry_types) × (f.in_span row ≡ true)))

same_type_iff : (s t : EntryType) → (same_type s t ≡ true) ↔ (s ≡ t)
unfolding same_type
same_type_iff s t = ground arith

either_iff :
    {A B : Type 0} (a b : Bool) → (a ≡ true) ↔ A → (b ≡ true) ↔ B → ((a || b) ≡ true) ↔ (A ⊎ B)
either_iff a b h k = (
  λ e. elim ((or_iff a b).0 e) [ inl x ↦ inl (h.0 x) | inr y ↦ inr (k.0 y) ],
  λ e. (or_iff a b).1 (elim e [ inl x ↦ inl (h.1 x) | inr y ↦ inr (k.1 y) ]),
)

both_iff :
    {A B : Type 0} (a b : Bool) → (a ≡ true) ↔ A → (b ≡ true) ↔ B → ((a && b) ≡ true) ↔ (A × B)
both_iff a b h k =
    (λ e. let c = (and_iff a b).0 e in (h.0 c.0, k.0 c.1), λ c. (and_iff a b).1 (h.1 c.0, k.1 c.1))

any_type_iff : (t : EntryType) (ts : List EntryType) → (any_type t ts ≡ true) ↔ OneOf t ts
unfolding any_type
any_type_iff t [] = (λ h. absurd (true_not_false (sym h)), λ k. absurd k)
any_type_iff t (s ∷ rest) =
    either_iff (same_type t s) (any_type t rest) (same_type_iff t s) (any_type_iff t rest)

matches_iff : (f : ListFilter) (row : LedgerRow) → (matches_filter f row ≡ true) ↔ Wanted f row
unfolding matches_filter
matches_iff f row = both_iff (row.user_id == f.user_id) _ (==_iff row.user_id f.user_id) (
    both_iff (is_empty f.asset || (row.asset =ᵇ f.asset)) _
      (either_iff (is_empty f.asset) (row.asset =ᵇ f.asset) (is_empty_iff f.asset)
        (bytes_iff row.asset f.asset))
      (both_iff (is_empty f.entry_types || any_type row.entry_type f.entry_types) (f.in_span row)
        (either_iff (is_empty f.entry_types) (any_type row.entry_type f.entry_types)
          (is_empty_iff f.entry_types) (any_type_iff row.entry_type f.entry_types))
        (λ e. e, λ e. e)))

-- The filter on a page, counted from zero.
abbrev at_page : ListFilter → ℕ → ListFilter
at_page f i = record f { page = record { limit = f.page.limit; offset = i * f.page.limit } }

-- A client that asks for so many pages, one after the other; each query finds a database of its own.
pub all_pages : (Uuid → ℕ) → Env → ListFilter → (ℕ → Db) → ℕ → ℕ → Result (List LedgerRow)
all_pages created_at env f dbs zero i = ok []
all_pages created_at env f dbs (suc n) i =
    result_bind (list_entries created_at env (at_page f i) (dbs i))
      (λ page. result_bind (all_pages created_at env f dbs n (suc i)) (λ rest. ok (page ++ rest)))

-- The entries that match a filter, in order.
abbrev chosen : (Uuid → ℕ) → ListFilter → Db → List LedgerRow
chosen created_at f db = newest_first created_at (filter (matches_filter f) db.ledger)

list_entries-ok :
    (created_at : Uuid → ℕ) (env : Env) (f : ListFilter) (i : ℕ) (db : Db)
    → env.fails (query 0) ≡ false
    → list_entries created_at env (at_page f i) db
      ≡ ok (take f.page.limit (drop (i * f.page.limit) (chosen created_at f db)))
unfolding list_entries result_bind io guard matches_filter
list_entries-ok created_at env f i db h = rw h refl

-- The same rows, whatever order the database keeps them in
abbrev pub SameRows : Db → Db → Type 0
SameRows x db = (r : LedgerRow) → Among r x.ledger ↔ Among r db.ledger

chosen-Among :
    (created_at : Uuid → ℕ) (f : ListFilter) (db : Db) (r : LedgerRow)
    → Among r (chosen created_at f db) ↔ ((matches_filter f r ≡ true) × Among r db.ledger)
chosen-Among created_at f db r =
    let order = Among-newest_first created_at (filter (matches_filter f) db.ledger) r in
    let kept = Among-filter (matches_filter f) db.ledger r in
    (λ k. kept.0 (order.0 k), λ k. order.1 (kept.1 k))

chosen-NewestFirst :
    (created_at : Uuid → ℕ) (f : ListFilter) (db : Db)
    → Distinct db.ledger
    → NewestFirst created_at (chosen created_at f db)
chosen-NewestFirst created_at f db h =
    newest_first-NewestFirst created_at (filter (matches_filter f) db.ledger)
      (Distinct-filter (matches_filter f) db.ledger h)

chosen-SameRows :
    (created_at : Uuid → ℕ) (f : ListFilter) (x db : Db)
    → Distinct x.ledger
    → Distinct db.ledger
    → SameRows x db
    → chosen created_at f x ≡ chosen created_at f db
chosen-SameRows created_at f x db h k same =
    NewestFirst-unique created_at (chosen created_at f x) (chosen created_at f db)
      (chosen-NewestFirst created_at f x h) (chosen-NewestFirst created_at f db k)
      (λ r.
        let a = chosen-Among created_at f x r in
        let b = chosen-Among created_at f db r in
        (
          λ m. let c = a.0 m in b.1 (c.0, (same r).0 c.1),
          λ m. let c = b.0 m in a.1 (c.0, (same r).1 c.1),
        ))

times_suc : (n k : ℕ) → k + n * k ≡ suc n * k
times_suc n k = grind arith

times_next : (i k : ℕ) → suc i * k ≡ i * k + k
times_next i k = grind arith

no_times : (k : ℕ) → 0 * k ≡ 0
no_times k = omega arith

all_pages-take :
    (created_at : Uuid → ℕ) (env : Env) (f : ListFilter) (dbs : ℕ → Db) (n i : ℕ) (db : Db)
    → env.fails (query 0) ≡ false
    → ((j : ℕ) → chosen created_at f (dbs j) ≡ chosen created_at f db)
    → all_pages created_at env f dbs n i
      ≡ ok (take (n * f.page.limit) (drop (i * f.page.limit) (chosen created_at f db)))
unfolding all_pages result_bind
all_pages-take created_at env f dbs zero i db h same = rw (no_times f.page.limit) refl
all_pages-take created_at env f dbs (suc n) i db h same =
    let k = f.page.limit in
    let rows = chosen created_at f db in
    rw
      (
        list_entries-ok created_at env f i (dbs i) h,
        same i,
        all_pages-take created_at env f dbs n (suc i) db h same,
        times_next i k,
        sym (drop-drop k (i * k) rows),
        take-take-drop k (n * k) (drop (i * k) rows),
        times_suc n k,
      )
      refl

pub count_entries-ok :
    (env : Env) (f : ListFilter) (db : Db) (total : ℕ)
    → count_entries env f db ≡ ok total
    → total ≡ length (filter (matches_filter f) db.ledger)
unfolding count_entries result_bind io guard
count_entries-ok env f db total h = ground (arith, h)

-- The pages together: no error, strictly in order, so that no entry comes twice, and of the table exactly the
-- entries that are wanted
pub record Paged (created_at : Uuid → ℕ) (f : ListFilter) (db : Db) (r : Result (List LedgerRow))
    : Type 0 where
  pub shown : List LedgerRow
  pub listed : r ≡ ok shown
  pub newest : NewestFirst created_at shown
  pub wanted : (row : LedgerRow) → Among row shown ↔ (Wanted f row × Among row db.ledger)

-- Paging loses nothing and shows nothing twice, whatever order the database keeps its rows in at each of the
-- queries, and whatever entries were made at the same time. If the queries of a listing succeed on tables that
-- hold the same entries, whose identifiers are distinct, and so many pages of its limit have room for as many
-- entries as `CountByUser` counts, then these pages, one after the other, hold every entry of the filter's
-- user, asset, types and span, no other, and each once, the newest first and at the same time by identifier.
pub all_pages-Paged :
    (created_at : Uuid → ℕ) (env count_env : Env) (f : ListFilter) (db : Db) (dbs : ℕ → Db)
    (n total : ℕ)
    → env.fails (query 0) ≡ false
    → count_entries count_env f db ≡ ok total
    → total ≤ n * f.page.limit
    → Distinct db.ledger
    → ((j : ℕ) → Distinct (dbs j).ledger)
    → ((j : ℕ) → SameRows (dbs j) db)
    → Paged created_at f db (all_pages created_at env f dbs n 0)
all_pages-Paged created_at env count_env f db dbs n total h c room distinct all_distinct same =
    let rows = filter (matches_filter f) db.ledger in
    record {
      shown = chosen created_at f db;
      listed =
          all_pages-take created_at env f dbs n 0 db h
            (λ j. chosen-SameRows created_at f (dbs j) db (all_distinct j) distinct (same j))
          ∙ ap (λ o. ok (take (n * f.page.limit) (drop o (chosen created_at f db))))
              (no_times f.page.limit)
          ∙ ap ok (
              take_all (n * f.page.limit) (chosen created_at f db) (
                omega (
                  arith,
                  count_entries-ok count_env f db total c,
                  length-newest_first created_at rows,
                )));
      newest = chosen-NewestFirst created_at f db distinct;
      wanted = λ row.
          let a = chosen-Among created_at f db row in
          let b = matches_iff f row in
          (λ m. let k = a.0 m in (b.0 k.0, k.1), λ k. a.1 (b.1 k.0, k.1));
    }
