-- ===== src/Deposit/Confirm.antt =====
-- What the operations of internal/deposit/service.go do to a deposit and to the books.
use mynance.Base.{
  ℕ, ◌≡◌, ◌≢◌, ◌∙◌, sym, ap, subst, refl, Bool, true, false, List, some, some_inj, if◌then◌else◌,
  arith,
}
use mynance.Base.Int.{ℤ, pos}
use mynance.Numeric.{column}
use mynance.Numeric.Units.{column-loaded}
use mynance.Shared.{
  Result, ok, ◌>>=◌, guard, guard-ok, Post, Post-at, Post-bind, Post-ok, invalid_state_transition,
}
use mynance.Store.{
  Uuid, Env, Db, Deposit, DepositRow, DepositStatus, pending, confirmed, rejected, io, new_uuid,
  insert_outbox, deposit_confirmed, LedgerEntry, LedgerRow, Payload, exec,
}
use mynance.Store.Balance.{Adds, row-Adds, Adds-zero}
use mynance.Store.Ledger.{insert_entry, ledger_row}
use mynance.Deposit.{
  find_deposit, update_deposit, update_deposit_status, scan_deposit, is_pending, credit_entry,
  confirm, reject, Outcome,
}
use mynance.Deposit.Rows.{
  find_deposit-id, find_deposit-others, find_deposit-update_deposit, get_deposit-ok, is_pending_iff,
  marked,
}

-- A deposit that has left PENDING: the row as it was, what became of it, and what was booked.
pub record Decided (s : DepositStatus) (amount : DepositRow → ℤ) (db : Db) (id : Uuid) (d : Outcome)
    : Type 0 where
  pub row : DepositRow
  pub found : find_deposit id db.deposits ≡ some row
  pub was_pending : row.status ≡ pending
  pub decided : find_deposit id d.db.deposits ≡ some (marked s row)
  pub others :
      (other : Uuid)
      → other ≢ id
      → find_deposit other d.db.deposits ≡ find_deposit other db.deposits
  pub returned : d.deposit ≡ scan_deposit (marked s row)
  pub credited : Adds row.user_id row.asset (amount row) db.ledger d.db.ledger

-- What the two transactions have in common once their calls have succeeded.
decide :
    (s : DepositStatus) (amount : DepositRow → ℤ) (db : Db) (id : Uuid) (d : Outcome)
    (row : DepositRow) (read : Deposit)
    → find_deposit id db.deposits ≡ some row
    → read ≡ scan_deposit row
    → guard (is_pending read.status) invalid_state_transition ≡ ok tt
    → d.db.deposits ≡ update_deposit read.id s db.deposits
    → d.deposit ≡ record read { status = s }
    → Adds row.user_id row.asset (amount row) db.ledger d.db.ledger
    → Decided s amount db id d
decide s amount db id d row read found same live rows back credit =
    let at_id : d.db.deposits ≡ update_deposit id s db.deposits =
      rows
      ∙ ap (λ (i : Uuid). update_deposit i s db.deposits)
          (ap (λ (x : Deposit). x.id) same ∙ find_deposit-id id db.deposits row found) in
    record {
      row = row;
      found = found;
      was_pending = is_pending_iff row.status (
          guard-ok _ invalid_state_transition (
            subst (λ (x : Deposit). guard (is_pending x.status) invalid_state_transition ≡ ok tt)
              same live));
      decided = ap (find_deposit id) at_id ∙ find_deposit-update_deposit id s db.deposits row found;
      others =
          λ other ne. ap (find_deposit other) at_id ∙ find_deposit-others id s db.deposits other ne;
      returned = back ∙ ap (λ (x : Deposit). record x { status = s }) same;
      credited = credit;
    }

insert_entry-deposits :
    (env : Env) (k : ℕ) (e : LedgerEntry) (db : Db)
    → Post
        (λ x.
          Adds e.user_id e.asset (column e.amount) db.ledger x.ledger × (x.deposits ≡ db.deposits))
        (insert_entry env k e db)
unfolding insert_entry
insert_entry-deposits env k e db =
    Post-bind _ (io env (exec k)) _
      (λ _ _. Post-ok _ _ (row-Adds (ledger_row e) _ db.ledger _ refl refl, refl))

insert_outbox-deposits :
    (env : Env) (i k : ℕ) (p : Payload) (db : Db)
    → Post (λ x. (x.ledger ≡ db.ledger) × (x.deposits ≡ db.deposits)) (insert_outbox env i k p db)
unfolding insert_outbox ◌>>=◌ io new_uuid guard Post
insert_outbox-deposits env i k p db = ground arith

update_deposit_status-Post :
    (env : Env) (k : ℕ) (id : Uuid) (s : DepositStatus) (db : Db)
    → Post
        (λ x. (x.ledger ≡ db.ledger) × (x.deposits ≡ update_deposit id s db.deposits))
        (update_deposit_status env k id s db)
unfolding update_deposit_status ◌>>=◌ io guard Post
update_deposit_status-Post env k id s db = ground arith

confirm-Post :
    (env : Env) (db : Db) (id : Uuid)
    → Post (Decided confirmed (λ row. row.amount) db id) (confirm env db id)
unfolding confirm
confirm-Post env db id = Post-bind _ _ _ (λ _ _. Post-bind _ _ _ (λ d got.
    Post-bind _ _ _ (λ _ live. Post-bind _ _ _ (λ account _. Post-bind _ _ _ (λ entry_id _.
      Post-bind _ _ _ (λ booked b. Post-bind _ _ _ (λ done u. Post-bind _ _ _ (λ told t.
        Post-bind _ _ _ (λ _ _.
          let (row, found, same) = get_deposit-ok env 0 id db d got in
          let entry =
            Post-at
              (λ (x : Db).
                Adds d.user_id d.asset (column d.amount) db.ledger x.ledger
                × (x.deposits ≡ db.deposits))
              (insert_entry-deposits env 0 (credit_entry entry_id account d) db) b in
          let update =
            Post-at
              (λ (x : Db).
                (x.ledger ≡ booked.ledger)
                × (x.deposits ≡ update_deposit d.id confirmed booked.deposits))
              (update_deposit_status-Post env 1 d.id confirmed booked) u in
          let event =
            Post-at (λ (x : Db). (x.ledger ≡ done.ledger) × (x.deposits ≡ done.deposits))
              (insert_outbox-deposits env 1 2 (deposit_confirmed (record d { status = confirmed }))
                done)
              t in
          Post-ok _ _ (
            decide confirmed (λ (r : DepositRow). r.amount) db id _ row d found same live
              (event.1 ∙ update.1 ∙ ap (update_deposit d.id confirmed) entry.1) refl
              (subst (λ (l : List LedgerRow). Adds row.user_id row.asset row.amount db.ledger l)
                (sym (event.0 ∙ update.0))
                (subst (λ (x : ℤ). Adds row.user_id row.asset x db.ledger booked.ledger)
                  (column-loaded row.amount)
                  (subst
                    (λ (x : Deposit).
                      Adds x.user_id x.asset (column x.amount) db.ledger booked.ledger)
                    same entry.0)))))))))))))

reject-Post :
    (env : Env) (db : Db) (id : Uuid)
    → Post (Decided rejected (λ row. pos 0) db id) (reject env db id)
unfolding reject
reject-Post env db id = Post-bind _ _ _ (λ _ _. Post-bind _ _ _ (λ d got. Post-bind _ _ _ (λ _ live.
    Post-bind _ _ _ (λ done u. Post-bind _ _ _ (λ _ _.
      let (row, found, same) = get_deposit-ok env 0 id db d got in
      let update =
        Post-at
          (λ (x : Db).
            (x.ledger ≡ db.ledger) × (x.deposits ≡ update_deposit d.id rejected db.deposits))
          (update_deposit_status-Post env 0 d.id rejected db) u in
      Post-ok _ _ (
        decide rejected (λ (r : DepositRow). pos 0) db id _ row d found same live update.1 refl
          (subst (λ (l : List LedgerRow). Adds row.user_id row.asset (pos 0) db.ledger l)
            (sym update.0) (Adds-zero row.user_id row.asset db.ledger))))))))

-- `Confirm` returns only if the deposit was there and PENDING. It then credits exactly the stored
-- amount to the user of the deposit in its asset and moves no other balance, sets the deposit to
-- CONFIRMED and leaves every other deposit as it was.
pub confirm-Decided :
    (env : Env) (db : Db) (id : Uuid) (d : Outcome)
    → confirm env db id ≡ ok d
    → Decided confirmed (λ row. row.amount) db id d
confirm-Decided env db id d e =
    Post-at (Decided confirmed (λ row. row.amount) db id) (confirm-Post env db id) e

-- `Reject` returns only if the deposit was there and PENDING. It then sets it to REJECTED, moves no
-- balance and leaves every other deposit as it was.
pub reject-Decided :
    (env : Env) (db : Db) (id : Uuid) (d : Outcome)
    → reject env db id ≡ ok d
    → Decided rejected (λ row. pos 0) db id d
reject-Decided env db id d e =
    Post-at (Decided rejected (λ row. pos 0) db id) (reject-Post env db id) e

abbrev pub decision : Bool → Env → Db → Uuid → Result Outcome
decision accept env db id = if accept then confirm env db id else reject env db id

confirmed_not_pending : confirmed ≢ pending
confirmed_not_pending h = cc

rejected_not_pending : rejected ≢ pending
rejected_not_pending h = cc

left_pending :
    (accept : Bool) (env : Env) (db : Db) (id : Uuid) (d : Outcome)
    → decision accept env db id ≡ ok d
    → (row : DepositRow) × (find_deposit id d.db.deposits ≡ some row) × (row.status ≢ pending)
left_pending true env db id d e =
    let c = confirm-Decided env db id d e in
    (marked confirmed c.row, c.decided, λ h. confirmed_not_pending h)
left_pending false env db id d e =
    let c = reject-Decided env db id d e in
    (marked rejected c.row, c.decided, λ h. rejected_not_pending h)

was_pending_row :
    (accept : Bool) (env : Env) (db : Db) (id : Uuid) (d : Outcome)
    → decision accept env db id ≡ ok d
    → (row : DepositRow) × (find_deposit id db.deposits ≡ some row) × (row.status ≡ pending)
was_pending_row true env db id d e =
    let c = confirm-Decided env db id d e in (c.row, c.found, c.was_pending)
was_pending_row false env db id d e =
    let c = reject-Decided env db id d e in (c.row, c.found, c.was_pending)

-- A deposit is decided once: after `Confirm` or `Reject` has returned, neither returns for the
-- same deposit against the database that was left.
pub decision-once :
    (accept accept' : Bool) (env env' : Env) (db : Db) (id : Uuid) (d d' : Outcome)
    → decision accept env db id ≡ ok d
    → decision accept' env' d.db id ≢ ok d'
decision-once accept accept' env env' db id d d' e e' =
    let (row, found, left) = left_pending accept env db id d e in
    let (row', found', was) = was_pending_row accept' env' d.db id d' e' in
    left (ap (λ (r : DepositRow). r.status) (some_inj (sym found ∙ found')) ∙ was)
