-- ===== src/Http.antt =====
-- Requests and replies: internal/shared/response.go and internal/auth/. What encoding/json and the
-- validator make of a body is given as a `Body`; the texts of errors are left out.
pub mod Orders
pub mod Funds
pub mod Users
pub mod Listing
pub mod Serve
pub mod Others
pub mod Caller
use mynance.Base.{
  ℕ, Bool, true, false, List, [], ◌∷◌, Option, none, some, Bytes, bytes, ◌=ᵇ◌, ◌==◌, ◌&&◌, ◌||◌,
  if◌then◌else◌, not, is_empty, leb, drop, length, ◌≡◌, refl,
}
use mynance.Base.Int.{ℤ, pos, negsuc}
use mynance.Numeric.{Numeric}
use mynance.Shared.{
  Error, not_found, duplicate_idempotency_key, insufficient_funds, invalid_state_transition,
  bad_request, unauthorized, forbidden, conflict, validation, rate_limit_exceeded,
  service_unavailable, not_implemented, internal, Result, ok, err,
}
use mynance.Store.{Uuid, Db}

-- `uuid.Parse`, `numeric.Parse`, `strconv.Atoi` and `Signer.Verify`
pub record Claims : Type 0 where
  pub user_id : Uuid
  pub role : Bytes

pub record Parsers : Type 0 where
  pub uuid : Bytes → Option Uuid
  pub numeric : Bytes → Option Numeric
  pub atoi : Bytes → Option ℤ
  pub verify : Bytes → Option Claims

-- The context of a request: what `WithUser` has put in it.
pub record Context : Type 0 where
  pub user_id : Option Uuid
  pub role : Bytes

abbrev pub anonymous : Context
anonymous = record { user_id = none; role = [] }

-- `WithUser`
abbrev pub with_user : Claims → Context
with_user c = record { user_id = some c.user_id; role = c.role }

-- `IsAdmin`
abbrev pub is_admin : Context → Bool
is_admin ctx = ctx.role =ᵇ bytes "ADMIN"

-- `HTTPError`, and a bare status
pub data Refusal : Type 0 where
  http_error : ℕ → Refusal
  bare : ℕ → Refusal

-- `json` is `WriteJSON`.
pub data Reply (A : Type 0) : Type 0 where
  plain : Refusal → Reply A
  json : ℕ → A → Reply A

-- The status that `HandleServiceError` picks.
unfoldable pub status_of : Error → ℕ
status_of not_found = 404
status_of unauthorized = 401
status_of forbidden = 403
status_of bad_request = 400
status_of validation = 422
status_of insufficient_funds = 422
status_of conflict = 409
status_of invalid_state_transition = 409
status_of duplicate_idempotency_key = 200
status_of rate_limit_exceeded = 429
status_of service_unavailable = 503
status_of not_implemented = 501
status_of internal = 500

-- `HandleServiceError`
unfoldable pub service_error : Error → Refusal
service_error e = if status_of e == 200 then bare 200 else http_error (status_of e)

-- A handler runs until it has written its reply.
pub data Step (A : Type 0) : Type 0 where
  go : A → Step A
  stop : Refusal → Step A

infixl 5 ◌>>=◌ ◌>>◌
unfoldable pub ◌>>=◌ : {A C : Type 0} → Step A → (A → Step C) → Step C
go a >>= k = k a
stop r >>= k = stop r

abbrev pub ◌>>◌ : {A C : Type 0} → Step A → Step C → Step C
m >> k = m >>= λ _. k

-- A reply and the database after it.
pub record Answer (B : Type 0) : Type 0 where
  pub reply : Reply B
  pub db : Db

abbrev pub finish : {B : Type 0} → Db → Step (Answer B) → Answer B
finish db (go a) = a
finish db (stop r) = record { reply = plain r; db = db }

pub data Body (A : Type 0) : Type 0 where
  malformed invalid : Body A
  valid : A → Body A

-- `Decode` and `Validate`
abbrev pub decoded : {A : Type 0} → Body A → Step A
decoded malformed = stop (http_error 400)
decoded invalid = stop (http_error 400)
decoded (valid a) = go a

-- A text that cannot be read is a bad request.
abbrev pub parsed : {A : Type 0} → Option A → Step A
parsed none = stop (http_error 400)
parsed (some a) = go a

-- The outcome of a call of a service.
abbrev pub served : {A : Type 0} → Result A → Step A
served (ok a) = go a
served (err e) = stop (service_error e)

-- `UserIDFromContext`
abbrev pub caller : Context → Step Uuid
caller ctx = elim ctx.user_id [ none ↦ stop (http_error 401) | some id ↦ go id ]

abbrev same_user : Option Uuid → Uuid → Result (Unit {0})
same_user none owner = err unauthorized
same_user (some id) owner = if id == owner then ok tt else err forbidden

-- `ensureOwner`
unfoldable pub ensure_owner : Context → Uuid → Result (Unit {0})
ensure_owner ctx owner = if is_admin ctx then ok tt else same_user ctx.user_id owner

-- `RequireAdmin`
unfoldable pub require_admin : Context → Step (Unit {0})
require_admin ctx = if is_admin ctx then go tt else stop (http_error 403)

abbrev pub bearer : Bytes
bearer = bytes "Bearer "

unfoldable pub has_prefix : Bytes → Bytes → Bool
has_prefix [] text = true
has_prefix (c ∷ cs) [] = false
has_prefix (c ∷ cs) (d ∷ ds) = (c == d) && has_prefix cs ds

-- `Middleware`: the context that the next handler gets from the Authorization header.
unfoldable pub authenticate : Parsers → Bytes → Step Context
authenticate p header =
    if is_empty header || not (has_prefix bearer header)
    then stop (http_error 401)
    else (elim (p.verify (drop (length bearer) header)) [
      | none ↦ stop (http_error 401)
      | some claims ↦ go (with_user claims)
    ])

pub record Page : Type 0 where
  pub limit : ℕ
  pub offset : ℕ

abbrev pub limit_of : Option ℤ → ℕ
limit_of none = 50
limit_of (some (pos n)) = if leb 1 n && leb n 100 then n else 50
limit_of (some (negsuc n)) = 50

abbrev pub offset_of : Option ℤ → ℕ
offset_of none = 0
offset_of (some (pos n)) = n
offset_of (some (negsuc n)) = 0

-- `ParsePagination`
unfoldable pub parse_pagination : Parsers → Bytes → Bytes → Page
parse_pagination p limit offset = record {
  limit = limit_of (p.atoi limit);
  offset = offset_of (p.atoi offset);
}

-- After a call the handler goes on with what the call gave; a refusal leaves the database as it was.
pub finish-bind :
    {B A : Type 0} (P : Answer B → Type 0) (db : Db) (m : Step A) (k : A → Step (Answer B))
    → ((r : Refusal) → P (record { reply = plain r; db = db }))
    → ((a : A) → m ≡ go a → P (finish db (k a)))
    → P (finish db (m >>= k))
unfolding ◌>>=◌
finish-bind P db (go a) k refused h = h a refl
finish-bind P db (stop r) k refused h = refused r

pub served-go : {A : Type 0} (r : Result A) (a : A) → served r ≡ go a → r ≡ ok a
served-go (ok b) a e = cc
served-go (err x) a e = cc
