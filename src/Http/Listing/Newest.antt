-- ===== src/Http/Listing/Newest.antt =====
-- The order of the entries that internal/ledger/store.go lists: by creation time, then by identifier.
use mynance.Base.{
  ℕ, suc, Bool, true, false, List, [], ◌∷◌, ◌≡◌, ◌≢◌, refl, sym, ap, ◌∙◌, subst, arith, filter,
  length, All, Bool-cases, inl, inr, ◌⊎◌, ◌↔◌, true_not_false,
}
use mynance.Store.{Uuid, LedgerRow}
use mynance.Http.Listing.{is_newer, put_in_order, newest_first}

-- The row is one of these.
abbrev pub Among : LedgerRow → List LedgerRow → Type 0
Among r [] = ⊥
Among r (x ∷ xs) = (r ≡ x) ⊎ Among r xs

-- No two rows have an identifier in common: the primary key of the table.
abbrev pub Distinct : List LedgerRow → Type 0
Distinct [] = Unit
Distinct (x ∷ xs) = All (λ (y : LedgerRow). y.id ≢ x.id) xs × Distinct xs

module _ (P : LedgerRow → Type 0) where
  All-put_in_order :
      (created_at : Uuid → ℕ) (row : LedgerRow) (rows : List LedgerRow)
      → P row
      → All P rows
      → All P (put_in_order created_at row rows)
  unfolding put_in_order
  All-put_in_order created_at row [] p h = (p, tt)
  All-put_in_order created_at row (first ∷ rest) p h =
      elim (Bool-cases (is_newer created_at row first)) [
        | inl e ↦ rw (e, put_in_order) (p, (h.0, h.1))
        | inr e ↦ rw (e, put_in_order) (h.0, All-put_in_order created_at row rest p h.1)
      ]

  pub All-newest_first :
      (created_at : Uuid → ℕ) (rows : List LedgerRow)
      → All P rows
      → All P (newest_first created_at rows)
  unfolding newest_first
  All-newest_first created_at [] h = tt
  All-newest_first created_at (row ∷ rest) h =
      All-put_in_order created_at row (newest_first created_at rest) h.0
        (All-newest_first created_at rest h.1)

  All-kept : (p : LedgerRow → Bool) (rows : List LedgerRow) → All P rows → All P (filter p rows)
  All-kept p [] h = tt
  All-kept p (row ∷ rest) h = elim (Bool-cases (p row)) [
    | inl e ↦ rw (e, filter) (h.0, All-kept p rest h.1)
    | inr e ↦ rw (e, filter) (All-kept p rest h.1)
  ]

  All-Among : (rows : List LedgerRow) → All P rows → (r : LedgerRow) → Among r rows → P r
  All-Among [] h r k = absurd k
  All-Among (x ∷ xs) h r (inl e) = subst P (sym e) h.0
  All-Among (x ∷ xs) h r (inr k) = All-Among xs h.1 r k

length-put_in_order :
    (created_at : Uuid → ℕ) (row : LedgerRow) (rows : List LedgerRow)
    → length (put_in_order created_at row rows) ≡ suc (length rows)
unfolding put_in_order
length-put_in_order created_at row [] = refl
length-put_in_order created_at row (first ∷ rest) =
    ground (arith, length-put_in_order created_at row rest)

pub length-newest_first :
    (created_at : Uuid → ℕ) (rows : List LedgerRow)
    → length (newest_first created_at rows) ≡ length rows
unfolding newest_first
length-newest_first created_at [] = refl
length-newest_first created_at (row ∷ rest) =
    length-put_in_order created_at row (newest_first created_at rest)
    ∙ ap suc (length-newest_first created_at rest)

pub Distinct-filter :
    (p : LedgerRow → Bool) (rows : List LedgerRow) → Distinct rows → Distinct (filter p rows)
Distinct-filter p [] h = tt
Distinct-filter p (row ∷ rest) h = elim (Bool-cases (p row)) [
  | inl e ↦
      rw (e, filter)
        (All-kept (λ (y : LedgerRow). y.id ≢ row.id) p rest h.0, Distinct-filter p rest h.1)
  | inr e ↦ rw (e, filter) (Distinct-filter p rest h.1)
]

pub Among-filter :
    (p : LedgerRow → Bool) (rows : List LedgerRow) (r : LedgerRow)
    → Among r (filter p rows) ↔ ((p r ≡ true) × Among r rows)
Among-filter p [] r = (λ k. absurd k, λ k. absurd k.1)
Among-filter p (x ∷ xs) r = elim (Bool-cases (p x)) [
  | inl e ↦
      rw (e, filter)
        (
          λ k. elim k [
            | inl same ↦ (ap p same ∙ e, inl same)
            | inr m ↦ let b = (Among-filter p xs r).0 m in (b.0, inr b.1)
          ],
          λ k. elim k.1 [ inl same ↦ inl same | inr m ↦ inr ((Among-filter p xs r).1 (k.0, m)) ],
        )
  | inr e ↦
      rw (e, filter)
        (
          λ m. let b = (Among-filter p xs r).0 m in (b.0, inr b.1),
          λ k. elim k.1 [
            | inl same ↦ absurd (true_not_false (sym k.0 ∙ ap p same ∙ e))
            | inr m ↦ (Among-filter p xs r).1 (k.0, m)
          ],
        )
]

module _ (created_at : Uuid → ℕ) where
  Among-put_in_order :
      (row : LedgerRow) (rows : List LedgerRow) (r : LedgerRow)
      → Among r (put_in_order created_at row rows) ↔ Among r (row ∷ rows)
  unfolding put_in_order
  Among-put_in_order row [] r = (λ k. k, λ k. k)
  Among-put_in_order row (first ∷ rest) r = elim (Bool-cases (is_newer created_at row first)) [
    | inl e ↦ rw (e, put_in_order) (λ k. k, λ k. k)
    | inr e ↦
        rw (e, put_in_order)
          (
            λ k. elim k [
              | inl same ↦ inr (inl same)
              | inr m ↦ elim ((Among-put_in_order row rest r).0 m) [
                | inl same ↦ inl same
                | inr n ↦ inr (inr n)
              ]
            ],
            λ k. elim k [
              | inl same ↦ inr ((Among-put_in_order row rest r).1 (inl same))
              | inr m ↦ elim m [
                | inl same ↦ inl same
                | inr n ↦ inr ((Among-put_in_order row rest r).1 (inr n))
              ]
            ],
          )
  ]

  pub Among-newest_first :
      (rows : List LedgerRow) (r : LedgerRow)
      → Among r (newest_first created_at rows) ↔ Among r rows
  unfolding newest_first
  Among-newest_first [] r = (λ k. k, λ k. k)
  Among-newest_first (row ∷ rest) r =
      let put = Among-put_in_order row (newest_first created_at rest) r in
      let tail = Among-newest_first rest r in
      (
        λ k. elim (put.0 k) [ inl same ↦ inl same | inr m ↦ inr (tail.0 m) ],
        λ k. put.1 (elim k [ inl same ↦ inl same | inr m ↦ inr (tail.1 m) ]),
      )

  abbrev pub NewestFirst : List LedgerRow → Type 0
  NewestFirst [] = Unit
  NewestFirst (x ∷ xs) = All (λ (y : LedgerRow). is_newer created_at x y ≡ true) xs × NewestFirst xs

  newer_trans :
      (a b c : LedgerRow)
      → is_newer created_at a b ≡ true
      → is_newer created_at b c ≡ true
      → is_newer created_at a c ≡ true
  unfolding is_newer
  newer_trans a b c h k = ground (arith, h, k)

  newer_asym :
      (a b : LedgerRow) → is_newer created_at a b ≡ true → is_newer created_at b a ≡ true → ⊥
  unfolding is_newer
  newer_asym a b h k = ground (arith, h, k)

  newer_total :
      (a b : LedgerRow)
      → b.id ≢ a.id
      → is_newer created_at a b ≡ false
      → is_newer created_at b a ≡ true
  unfolding is_newer
  newer_total a b apart h = ground (arith, apart, h)

  All-newer :
      (a b : LedgerRow) (xs : List LedgerRow)
      → is_newer created_at a b ≡ true
      → All (λ (y : LedgerRow). is_newer created_at b y ≡ true) xs
      → All (λ (y : LedgerRow). is_newer created_at a y ≡ true) xs
  All-newer a b [] h k = tt
  All-newer a b (x ∷ xs) h k = (newer_trans a b x h k.0, All-newer a b xs h k.1)

  put_in_order-NewestFirst :
      (row : LedgerRow) (rows : List LedgerRow)
      → All (λ (y : LedgerRow). y.id ≢ row.id) rows
      → NewestFirst rows
      → NewestFirst (put_in_order created_at row rows)
  unfolding put_in_order
  put_in_order-NewestFirst row [] apart h = (tt, tt)
  put_in_order-NewestFirst row (first ∷ rest) apart h =
      elim (Bool-cases (is_newer created_at row first)) [
        | inl e ↦ rw (e, put_in_order) ((e, All-newer row first rest e h.0), h)
        | inr e ↦
            rw (e, put_in_order)
              (
                All-put_in_order (λ (y : LedgerRow). is_newer created_at first y ≡ true) created_at
                    row rest (newer_total row first apart.0 e) h.0,
                put_in_order-NewestFirst row rest apart.1 h.1,
              )
      ]

  pub newest_first-NewestFirst :
      (rows : List LedgerRow) → Distinct rows → NewestFirst (newest_first created_at rows)
  unfolding newest_first
  newest_first-NewestFirst [] h = tt
  newest_first-NewestFirst (row ∷ rest) h =
      put_in_order-NewestFirst row (newest_first created_at rest)
        (All-newest_first (λ (y : LedgerRow). y.id ≢ row.id) created_at rest h.0)
        (newest_first-NewestFirst rest h.1)

  first_same :
      (x y : LedgerRow) (xs ys : List LedgerRow)
      → NewestFirst (x ∷ xs)
      → NewestFirst (y ∷ ys)
      → Among x (y ∷ ys)
      → Among y (x ∷ xs)
      → x ≡ y
  first_same x y xs ys h k (inl same) n = same
  first_same x y xs ys h k (inr m) (inl same) = sym same
  first_same x y xs ys h k (inr m) (inr n) = absurd (
      newer_asym x y (All-Among (λ (z : LedgerRow). is_newer created_at x z ≡ true) xs h.0 y n)
        (All-Among (λ (z : LedgerRow). is_newer created_at y z ≡ true) ys k.0 x m))

  later_only :
      (x : LedgerRow) (xs ys : List LedgerRow)
      → NewestFirst (x ∷ xs)
      → ((r : LedgerRow) → Among r (x ∷ xs) → Among r (x ∷ ys))
      → (r : LedgerRow) → Among r xs
      → Among r ys
  later_only x xs ys h f r m = elim (f r (inr m)) [
    | inr n ↦ n
    | inl same ↦
        let e : is_newer created_at x x ≡ true =
          subst (λ (z : LedgerRow). is_newer created_at x z ≡ true) same
            (All-Among (λ (z : LedgerRow). is_newer created_at x z ≡ true) xs h.0 r m) in
        absurd (newer_asym x x e e)
  ]

  -- Two lists in that order with the same rows are the same list.
  pub NewestFirst-unique :
      (xs ys : List LedgerRow)
      → NewestFirst xs
      → NewestFirst ys
      → ((r : LedgerRow) → Among r xs ↔ Among r ys)
      → xs ≡ ys
  NewestFirst-unique [] [] h k same = refl
  NewestFirst-unique [] (y ∷ ys) h k same = absurd ((same y).1 (inl refl))
  NewestFirst-unique (x ∷ xs) [] h k same = absurd ((same x).0 (inl refl))
  NewestFirst-unique (x ∷ xs) (y ∷ ys) h k same =
      let e : x ≡ y = first_same x y xs ys h k ((same x).0 (inl refl)) ((same y).1 (inl refl)) in
      let k' : NewestFirst (x ∷ ys) = subst (λ z. NewestFirst (z ∷ ys)) (sym e) k in
      let both : (r : LedgerRow) → Among r (x ∷ xs) ↔ Among r (x ∷ ys) =
        subst (λ z. (r : LedgerRow) → Among r (x ∷ xs) ↔ Among r (z ∷ ys)) (sym e) same in
      let tails : xs ≡ ys = NewestFirst-unique xs ys h.1 k'.1 (λ r.
        (later_only x xs ys h (λ q. (both q).0) r, later_only x ys xs k' (λ q. (both q).1) r)) in
      ap (λ zs. x ∷ zs) tails ∙ ap (λ z. z ∷ ys) e
