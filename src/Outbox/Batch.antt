-- ===== src/Outbox/Batch.antt =====
-- What a batch of internal/outbox/publisher.go does to the events of the outbox.
use mynance.Base.{
  ℕ, suc, ◌≡◌, ◌∙◌, sym, ap, ap₂, ◌+◌, not, ◌||◌, subst, refl, Bool, false, List, [], ◌∷◌, map,
  take, if◌then◌else◌, ◌==◌, Bool-cases, inl, inr, arith, ◌&&◌,
}
use mynance.Shared.{ok, ◌>>=◌, Post, Post-at, Post-bind, Post-ok, Post-map, guard}
use mynance.Store.{Uuid, Env, io, Db, OutboxEvent, OutboxStatus, processed_event, exec}
use mynance.Outbox.{
  waiting_events, list_pending, processed, retried, mark_processed, increment_retries,
  process_events, process_batch, batch_size,
}

-- What one event of a batch does to a row.
abbrev touched : (OutboxEvent → Bool) → OutboxEvent → OutboxEvent → OutboxEvent
touched handler e = if handler e then processed e.id else retried e.id

unfoldable pub settled : (OutboxEvent → Bool) → List OutboxEvent → OutboxEvent → OutboxEvent
settled handler [] row = row
settled handler (e ∷ rest) row = settled handler rest (touched handler e row)

map-map : {A : Type 0} (f g : A → A) (xs : List A) → map g (map f xs) ≡ map (λ x. g (f x)) xs
map-map f g [] = refl
map-map f g (x ∷ xs) = ap (λ ys. g (f x) ∷ ys) (map-map f g xs)

map-id : {A : Type 0} (xs : List A) → map (λ x. x) xs ≡ xs
map-id [] = refl
map-id (x ∷ xs) = ap (λ ys. x ∷ ys) (map-id xs)

abbrev Settles : (OutboxEvent → Bool) → List OutboxEvent → Db → Db → Type 0
Settles handler es db x = x.outbox ≡ map (settled handler es) db.outbox

step-Post :
    (env : Env) (handler : OutboxEvent → Bool) (call : ℕ) (e : OutboxEvent) (db : Db)
    → Post
        (λ x. x.outbox ≡ map (touched handler e) db.outbox)
        (if handler e then mark_processed env call e.id db else increment_retries env call e.id db)
step-Post env handler call e db = elim (Bool-cases (handler e)) [
  | inl h ↦
      rw h (unfold mark_processed in Post-bind _ (io env (exec call)) _ (λ _ _. Post-ok _ _ refl))
  | inr h ↦
      rw h
        (unfold increment_retries in Post-bind _ (io env (exec call)) _ (λ _ _. Post-ok _ _ refl))
]

process_events-Settles :
    (env : Env) (handler : OutboxEvent → Bool) (call : ℕ) (es : List OutboxEvent) (db : Db)
    → Post (Settles handler es db) (process_events env handler call es db)
unfolding process_events settled
process_events-Settles env handler call [] db = Post-ok _ _ (sym (map-id db.outbox))
process_events-Settles env handler call (e ∷ rest) db = Post-bind _ _ _ (λ next h.
    Post-map _ (Settles handler (e ∷ rest) db) _
      (λ x k.
        k
        ∙ ap (map (settled handler rest)) (
            Post-at (λ (y : Db). y.outbox ≡ map (touched handler e) db.outbox)
              (step-Post env handler call e db) h)
        ∙ map-map (touched handler e) (settled handler rest) db.outbox)
      (process_events-Settles env handler (suc call) rest next))

list_pending-ok :
    (env : Env) (db : Db) (events : List OutboxEvent)
    → list_pending env db ≡ ok events
    → events ≡ take batch_size (waiting_events db.outbox)
unfolding list_pending ◌>>=◌ io guard
list_pending-ok env db events h = ground arith

process_batch-Settles :
    (env : Env) (handler : OutboxEvent → Bool) (db : Db)
    → Post
        (Settles handler (take batch_size (waiting_events db.outbox)) db)
        (process_batch env handler db)
unfolding process_batch
process_batch-Settles env handler db = Post-bind _ _ _ (λ _ _. Post-bind _ _ _ (λ events got.
    Post-bind _ _ _ (λ done d. Post-bind _ _ _ (λ _ _. Post-ok _ _ (
      subst (λ (es : List OutboxEvent). Settles handler es db done)
        (list_pending-ok env db events got)
        (Post-at (Settles handler events db) (process_events-Settles env handler 0 events db)
          d))))))

-- Whether one of the events has this identifier and is taken by the handler, and how many have it and are not
abbrev pub accepted : (OutboxEvent → Bool) → List OutboxEvent → Uuid → Bool
accepted handler [] id = false
accepted handler (e ∷ rest) id = (handler e && (id == e.id)) || accepted handler rest id

abbrev pub refused : (OutboxEvent → Bool) → List OutboxEvent → Uuid → ℕ
refused handler [] id = 0
refused handler (e ∷ rest) id =
    (if not (handler e) && (id == e.id) then 1 else 0) + refused handler rest id

-- What becomes of a row in a batch of these events
pub record Outcome (handler : OutboxEvent → Bool) (es : List OutboxEvent)
    (before after : OutboxEvent) : Type 0 where
  pub same_id : after.id ≡ before.id
  pub same_payload : after.payload ≡ before.payload
  pub marked :
      after.status ≡ (if accepted handler es before.id then processed_event else before.status)
  pub counted : after.retries ≡ before.retries + refused handler es before.id

touched-id :
    (handler : OutboxEvent → Bool) (e row : OutboxEvent)
    → ((touched handler e row).id ≡ row.id) × ((touched handler e row).payload ≡ row.payload)
touched-id handler e row = ground arith

touched-status :
    (handler : OutboxEvent → Bool) (e row : OutboxEvent)
    → (touched handler e row).status
      ≡ (if handler e && (row.id == e.id) then processed_event else row.status)
touched-status handler e row = ground arith

touched-retries :
    (handler : OutboxEvent → Bool) (e row : OutboxEvent)
    → (touched handler e row).retries
      ≡ row.retries + (if not (handler e) && (row.id == e.id) then 1 else 0)
touched-retries handler e row = ground arith

if_either :
    (a b : Bool) (s : OutboxStatus)
    → (if b then processed_event else (if a then processed_event else s))
      ≡ (if a || b then processed_event else s)
if_either a b s = ground arith

settled-Outcome :
    (handler : OutboxEvent → Bool) (es : List OutboxEvent) (row : OutboxEvent)
    → Outcome handler es row (settled handler es row)
unfolding settled
settled-Outcome handler [] row = record {
  same_id = refl;
  same_payload = refl;
  marked = refl;
  counted = omega arith;
}
settled-Outcome handler (e ∷ rest) row =
    let now = touched handler e row in
    let later = settled-Outcome handler rest now in
    let same = touched-id handler e row in
    record {
      same_id = later.same_id ∙ same.0;
      same_payload = later.same_payload ∙ same.1;
      marked =
          later.marked
          ∙ ap₂
              (λ (id : Uuid) (s : OutboxStatus).
                if accepted handler rest id then processed_event else s)
              same.0 (touched-status handler e row)
          ∙ if_either (handler e && (row.id == e.id)) (accepted handler rest row.id) row.status;
      counted =
          later.counted
          ∙ ap₂ (λ (id : Uuid) (n : ℕ). n + refused handler rest id) same.0
              (touched-retries handler e row)
          ∙ add_assoc row.retries (if not (handler e) && (row.id == e.id) then 1 else 0)
              (refused handler rest row.id);
    }
  where
    add_assoc : (a b c : ℕ) → (a + b) + c ≡ a + (b + c)
    add_assoc a b c = omega arith

-- The rows of two lists, one by one
abbrev pub EachRow :
    (OutboxEvent → OutboxEvent → Type 0) → List OutboxEvent → List OutboxEvent → Type 0
EachRow R [] [] = Unit
EachRow R [] (y ∷ ys) = ⊥
EachRow R (x ∷ xs) [] = ⊥
EachRow R (x ∷ xs) (y ∷ ys) = R x y × EachRow R xs ys

map-EachRow :
    (R : OutboxEvent → OutboxEvent → Type 0) (f : OutboxEvent → OutboxEvent) (xs : List OutboxEvent)
    → ((x : OutboxEvent) → R x (f x))
    → EachRow R xs (map f xs)
map-EachRow R f [] h = tt
map-EachRow R f (x ∷ xs) h = (h x, map-EachRow R f xs h)

-- A batch that returns keeps every row of the outbox, adds none, and changes no identifier and no payload.
-- Its events are the oldest fifty that were pending. A row with the identifier of one that the handler took is
-- PROCESSED, every other row keeps its status, and a row counts one retry more for each event of its
-- identifier that the handler refused.
pub process_batch-delivers :
    (env : Env) (handler : OutboxEvent → Bool) (db db' : Db)
    → process_batch env handler db ≡ ok db'
    → EachRow (Outcome handler (take batch_size (waiting_events db.outbox))) db.outbox db'.outbox
process_batch-delivers env handler db db' h =
    let es = take batch_size (waiting_events db.outbox) in
    rw (Post-at (Settles handler es db) (process_batch-Settles env handler db) h)
      (map-EachRow (Outcome handler es) (settled handler es) db.outbox (settled-Outcome handler es))
