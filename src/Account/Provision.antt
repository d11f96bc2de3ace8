-- ===== src/Account/Provision.antt =====
-- What `ProvisionAll` of internal/account/provisioner.go leaves when its transaction commits.
use mynance.Base.{
  ℕ, suc, Bool, true, false, List, [], ◌∷◌, some, Bytes, ◌=ᵇ◌, ◌==◌, ◌&&◌, ◌≡◌, ◌≢◌, refl, sym, ap,
  ◌∙◌, subst, arith, Bool-cases, inl, inr, All, bytes_iff, ==_refl, =ᵇ_refl, ◌⊎◌, ◌||◌,
}
use mynance.Shared.{Result, Result-cases, ok, err}
use mynance.Store.{Uuid, Env, new_uuid, Account, find_account, exec}
use mynance.Order.{listed}
use mynance.Account.{account_known, Tx, Ran, create_account_row, new_account, provision, goes_on}

abbrev pub HasAccount : Uuid → Bytes → List Account → Type 0
HasAccount user asset accounts = (a : Account) × (find_account user asset accounts ≡ some a)

HasAccount-cons :
    (user : Uuid) (asset : Bytes) (new : Account) (accounts : List Account)
    → HasAccount user asset accounts
    → HasAccount user asset (new ∷ accounts)
unfolding find_account
HasAccount-cons user asset new accounts (a, h) =
    elim (Bool-cases ((new.user_id == user) && (new.asset =ᵇ asset))) [
      | inl e ↦ (new, ground (arith, e))
      | inr e ↦ (a, ground (arith, e, h))
    ]

HasAccount-new :
    (id user : Uuid) (asset : Bytes) (accounts : List Account)
    → HasAccount user asset (new_account id user asset ∷ accounts)
unfolding find_account
HasAccount-new id user asset accounts =
    (new_account id user asset, rw (==_refl user, =ᵇ_refl asset) refl)

account_known-HasAccount :
    (id user : Uuid) (asset : Bytes) (accounts : List Account)
    → HasAccount user asset accounts
    → account_known (new_account id user asset) accounts ≡ true
unfolding find_account account_known
account_known-HasAccount id user asset [] (a, h) = cc
account_known-HasAccount id user asset (b ∷ rest) (a, h) = ground (
  arith,
  λ (k : find_account user asset rest ≡ some a). account_known-HasAccount id user asset rest (a, k),
)

-- An INSERT either adds its row to a transaction that is alive, or leaves one that is aborted.
abbrev RowAdded : Account → Tx → Ran → Type 0
RowAdded a tx r =
    ((tx.aborted ≡ false)
      × (account_known a tx.db.accounts ≡ false)
      × (r.tx ≡ record { db = record tx.db { accounts = a ∷ tx.db.accounts }; aborted = false }))
    ⊎ ((r.tx.aborted ≡ true))

create_account_row-RowAdded :
    (env : Env) (k : ℕ) (a : Account) (tx : Tx) → RowAdded a tx (create_account_row env k a tx)
unfolding create_account_row
create_account_row-RowAdded env k a tx = elim (Bool-cases (tx.aborted || env.fails (exec k))) [
  | inl e ↦ inr (rw e refl)
  | inr e ↦ elim (Bool-cases (account_known a tx.db.accounts)) [
    | inl known ↦ inr (rw (e, known) refl)
    | inr new ↦ inl (ground (arith, e), new, ground (arith, e, new))
  ]
]

create_account_row-aborted :
    (env : Env) (k : ℕ) (a : Account) (tx : Tx)
    → tx.aborted ≡ true
    → (create_account_row env k a tx).tx.aborted ≡ true
unfolding create_account_row
create_account_row-aborted env k a tx h = rw h refl

abbrev inserted : Env → ℕ → Uuid → Uuid → Bytes → Tx → Tx
inserted env call id user symbol tx =
    (create_account_row env call (new_account id user symbol) tx).tx

abbrev GoesOn : Env → ℕ → Uuid → Bytes → List Bytes → Tx → Type 0
GoesOn env call user symbol rest tx =
    (id : Uuid) × (provision env call user (symbol ∷ rest) tx
      ≡ provision env (suc call) user rest (inserted env call id user symbol tx))

refused_later : (r : Result (Unit {0})) → goes_on r ≡ false → r ≢ ok tt
refused_later (ok done) h e = cc
refused_later (err e) h k = cc

provision-GoesOn :
    (env : Env) (call : ℕ) (user : Uuid) (symbol : Bytes) (rest : List Bytes) (tx : Tx)
    → (provision env call user (symbol ∷ rest) tx).result ≡ ok tt
    → GoesOn env call user symbol rest tx
unfolding provision
provision-GoesOn env call user symbol rest tx h = elim (Result-cases (new_uuid env call)) [
  | inr (e, k) ↦ absurd (ground (arith, k, h))
  | inl (id, k) ↦
      let ran = create_account_row env call (new_account id user symbol) tx in
      elim (Bool-cases (goes_on ran.result)) [
        | inl on ↦ (id, rw (k, provision, on) refl)
        | inr off ↦ absurd (refused_later ran.result off (ground (arith, k, off, h)))
      ]
]

-- A transaction that is aborted stays so.
provision-aborted :
    (env : Env) (call : ℕ) (user : Uuid) (symbols : List Bytes) (tx : Tx)
    → tx.aborted ≡ true
    → (provision env call user symbols tx).result ≡ ok tt
    → (provision env call user symbols tx).tx.aborted ≡ true
unfolding provision
provision-aborted env call user [] tx h k = h
provision-aborted env call user (symbol ∷ rest) tx h k =
    let (id, e) = provision-GoesOn env call user symbol rest tx k in
    let next = inserted env call id user symbol tx in
    ap (λ (r : Ran). r.tx.aborted) e
    ∙ provision-aborted env (suc call) user rest next
        (create_account_row-aborted env call (new_account id user symbol) tx h)
        (ap (λ (r : Ran). r.result) (sym e) ∙ k)

-- What the loop has done to a transaction that is still alive at its end.
pub record Provisioned (user : Uuid) (symbols : List Bytes) (tx x : Tx) : Type 0 where
  pub alive : tx.aborted ≡ false
  pub opened : All (λ s. HasAccount user s x.db.accounts) symbols
  pub kept : (s : Bytes) → HasAccount user s tx.db.accounts → HasAccount user s x.db.accounts
  pub others :
      (u : Uuid) (a : Bytes)
      → u ≢ user
      → find_account u a x.db.accounts ≡ find_account u a tx.db.accounts
  pub users_kept : x.db.users ≡ tx.db.users
  pub ledger_kept : x.db.ledger ≡ tx.db.ledger
  pub orders_kept : x.db.orders ≡ tx.db.orders
  pub keys_kept : x.db.idempotency_keys ≡ tx.db.idempotency_keys

other_user :
    (id user : Uuid) (symbol : Bytes) (accounts : List Account) (u : Uuid) (a : Bytes)
    → u ≢ user
    → find_account u a (new_account id user symbol ∷ accounts) ≡ find_account u a accounts
unfolding find_account
other_user id user symbol accounts u a h = ground (arith, λ (e : u ≡ user). h e)

not_both : (b : Bool) → b ≡ true → b ≢ false
not_both b h k = cc

abbrev with_row : Tx → Account → Tx
with_row tx a = record { db = record tx.db { accounts = a ∷ tx.db.accounts }; aborted = false }

after_row :
    (id user : Uuid) (symbol : Bytes) (rest : List Bytes) (tx x : Tx)
    → tx.aborted ≡ false
    → Provisioned user rest (with_row tx (new_account id user symbol)) x
    → Provisioned user (symbol ∷ rest) tx x
after_row id user symbol rest tx x live p = record {
  alive = live;
  opened = (p.kept symbol (HasAccount-new id user symbol tx.db.accounts), p.opened);
  kept = λ s h. p.kept s (HasAccount-cons user s (new_account id user symbol) tx.db.accounts h);
  others = λ u a h. p.others u a h ∙ other_user id user symbol tx.db.accounts u a h;
  users_kept = p.users_kept;
  ledger_kept = p.ledger_kept;
  orders_kept = p.orders_kept;
  keys_kept = p.keys_kept;
}

pub provision-Provisioned :
    (env : Env) (call : ℕ) (user : Uuid) (symbols : List Bytes) (tx : Tx)
    → (provision env call user symbols tx).result ≡ ok tt
    → (provision env call user symbols tx).tx.aborted ≡ false
    → Provisioned user symbols tx (provision env call user symbols tx).tx
unfolding provision
provision-Provisioned env call user [] tx h k = record {
  alive = k;
  opened = tt;
  kept = λ s a. a;
  others = λ u a n. refl;
  users_kept = refl;
  ledger_kept = refl;
  orders_kept = refl;
  keys_kept = refl;
}
provision-Provisioned env call user (symbol ∷ rest) tx h k =
    let (id, e) = provision-GoesOn env call user symbol rest tx h in
    let next = inserted env call id user symbol tx in
    let h' : (provision env (suc call) user rest next).result ≡ ok tt =
      ap (λ (r : Ran). r.result) (sym e) ∙ h in
    let k' : (provision env (suc call) user rest next).tx.aborted ≡ false =
      ap (λ (r : Ran). r.tx.aborted) (sym e) ∙ k in
    elim (create_account_row-RowAdded env call (new_account id user symbol) tx) [
      | inr dead ↦ absurd (not_both _ (provision-aborted env (suc call) user rest next dead h') k')
      | inl (live, new, added) ↦
          subst (λ (r : Ran). Provisioned user (symbol ∷ rest) tx r.tx) (sym e)
            (after_row id user symbol rest tx _ live (
              subst
                (λ (y : Tx). Provisioned user rest y (provision env (suc call) user rest next).tx)
                added (provision-Provisioned env (suc call) user rest next h' k')))
    ]

-- An account that is already there aborts the transaction.
pub provision-clash :
    (env : Env) (call : ℕ) (user : Uuid) (symbols : List Bytes) (tx : Tx) (symbol : Bytes)
    → listed symbol symbols ≡ true
    → HasAccount user symbol tx.db.accounts
    → (provision env call user symbols tx).result ≡ ok tt
    → (provision env call user symbols tx).tx.aborted ≡ true
unfolding listed
provision-clash env call user [] tx symbol m a h = cc
provision-clash env call user (s ∷ rest) tx symbol m a h =
    let (id, e) = provision-GoesOn env call user s rest tx h in
    let next = inserted env call id user s tx in
    let h' : (provision env (suc call) user rest next).result ≡ ok tt =
      ap (λ (r : Ran). r.result) (sym e) ∙ h in
    ap (λ (r : Ran). r.tx.aborted) e
    ∙ (elim (create_account_row-RowAdded env call (new_account id user s) tx) [
      | inr dead ↦ provision-aborted env (suc call) user rest next dead h'
      | inl (live, new, added) ↦ elim (Bool-cases (s =ᵇ symbol)) [
        | inl same ↦ absurd (
            not_both _
              (account_known-HasAccount id user s tx.db.accounts (
                subst (λ (b : Bytes). HasAccount user b tx.db.accounts)
                  (sym ((bytes_iff s symbol).0 same)) a))
              new)
        | inr apart ↦
            provision-clash env (suc call) user rest next symbol (ground (arith, m, apart))
              (subst (λ (y : Tx). HasAccount user symbol y.db.accounts) (sym added)
                (HasAccount-cons user symbol (new_account id user s) tx.db.accounts a))
              h'
      ]
    ])
