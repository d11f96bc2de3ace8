-- ===== src/PartnerFeed/Mirror.antt =====
-- What `sync` of internal/partnerfeed/bot.go leaves at each key.
use mynance.Base.{
  ℕ, ◌≡◌, ◌∙◌, sym, ap, refl, Bool, true, false, List, [], ◌∷◌, Option, none, some, Bytes, ◌=ᵇ◌,
  if◌then◌else◌, Bool-cases, Option-cases, inl, inr, bytes_iff, =ᵇ_refl, true_not_false,
}
use mynance.Order.{listed}
use mynance.MarketFeed.{Level}
use mynance.PartnerFeed.{
  RestingOrder, SideMap, BookSide, bid_side, ask_side, BookState, side_map, with_side, Floats,
  Answers, Wanted, wanted_from, nothing_wanted, is_stale, drop_level, drop_levels, place_level,
  place_levels, sync,
}

-- An order stays if it is wanted in about its quantity.
abbrev pub kept : Floats → Option ℕ → Option RestingOrder → Option RestingOrder
kept f want none = none
kept f want (some r) = if is_stale f r want then none else some r

-- Where no order stays, the one that is wanted comes, if it has an identifier and the engine takes it.
abbrev made : Option Bytes → Bool → ℕ → Option RestingOrder
made none accepted qty = none
made (some id) accepted qty = if accepted then some (record { order_id = id; qty = qty }) else none

abbrev pub filled : Option Bytes → Bool → Option ℕ → Option RestingOrder → Option RestingOrder
filled id accepted want (some r) = some r
filled id accepted none none = none
filled id accepted (some qty) none = made id accepted qty

drop_level-here :
    (f : Floats) (want : Wanted) (symbol key : Bytes) (cur : SideMap)
    → (drop_level f want symbol key cur).cur key ≡ kept f (want key) (cur key)
unfolding drop_level
drop_level-here f want symbol key cur = elim (Option-cases (cur key)) [
  | inl e ↦ rw (e, drop_level) e
  | inr (r, e) ↦ elim (Bool-cases (is_stale f r (want key))) [
    | inl s ↦ rw (e, s, drop_level, =ᵇ_refl key) refl
    | inr s ↦ rw (e, s, drop_level) e
  ]
]

drop_level-others :
    (f : Floats) (want : Wanted) (symbol key : Bytes) (cur : SideMap) (x : Bytes)
    → (x =ᵇ key) ≡ false
    → (drop_level f want symbol key cur).cur x ≡ cur x
unfolding drop_level
drop_level-others f want symbol key cur x h = elim (Option-cases (cur key)) [
  | inl e ↦ rw (e, drop_level) refl
  | inr (r, e) ↦ elim (Bool-cases (is_stale f r (want key))) [
    | inl s ↦ rw (e, s, drop_level, h) refl
    | inr s ↦ rw (e, s, drop_level) refl
  ]
]

pub not_same : (a b : Bytes) → (a =ᵇ b) ≡ false → (b =ᵇ a) ≡ false
not_same a b h = elim (Bool-cases (b =ᵇ a)) [
  | inl e ↦ absurd (
      true_not_false (sym (=ᵇ_refl a) ∙ ap (λ (x : Bytes). a =ᵇ x) (sym ((bytes_iff b a).0 e)) ∙ h))
  | inr e ↦ e
]

twice :
    (b : Bool) (once again : Option RestingOrder)
    → again ≡ once
    → (if b then again else once) ≡ once
twice true once again h = h
twice false once again h = refl

kept-kept :
    (f : Floats) (want : Option ℕ) (o : Option RestingOrder)
    → kept f want (kept f want o) ≡ kept f want o
kept-kept f want none = refl
kept-kept f want (some r) = elim (Bool-cases (is_stale f r want)) [
  | inl e ↦ rw e refl
  | inr e ↦ rw e (rw e refl)
]

-- Each key that is walked through is treated once or more, which is the same; the others are not.
drop_levels-at :
    (f : Floats) (want : Wanted) (symbol : Bytes) (keys : List Bytes) (cur : SideMap) (x : Bytes)
    → (drop_levels f want symbol keys cur).cur x
      ≡ (if listed x keys then kept f (want x) (cur x) else cur x)
unfolding drop_levels listed
drop_levels-at f want symbol [] cur x = refl
drop_levels-at f want symbol (key ∷ rest) cur x =
    let first = (drop_level f want symbol key cur).cur in
    drop_levels-at f want symbol rest first x ∙ (elim (Bool-cases (key =ᵇ x)) [
      | inl same ↦
          let e : key ≡ x = (bytes_iff key x).0 same in
          let here : first x ≡ kept f (want x) (cur x) =
            ap first (sym e)
            ∙ drop_level-here f want symbol key cur
            ∙ ap (λ (k : Bytes). kept f (want k) (cur k)) e in
          rw same (
            ap (λ (o : Option RestingOrder). if listed x rest then kept f (want x) o else o) here
            ∙ twice (listed x rest) (kept f (want x) (cur x))
                (kept f (want x) (kept f (want x) (cur x))) (kept-kept f (want x) (cur x)))
      | inr apart ↦ rw apart (
          ap (λ (o : Option RestingOrder). if listed x rest then kept f (want x) o else o)
            (drop_level-others f want symbol key cur x (not_same key x apart)))
    ])

filled-none : (id : Option Bytes) (b : Bool) (o : Option RestingOrder) → filled id b none o ≡ o
filled-none id b none = refl
filled-none id b (some r) = refl

place_level-here :
    (f : Floats) (a : Answers) (want : Wanted) (symbol : Bytes) (side : BookSide) (key : Bytes)
    (cur : SideMap)
    → (place_level f a want symbol side key cur).cur key
      ≡ filled (a.fresh key) (a.places key) (want key) (cur key)
unfolding place_level
place_level-here f a want symbol side key cur = elim (Option-cases (want key)) [
  | inl w ↦ rw (w, place_level) (sym (filled-none (a.fresh key) (a.places key) (cur key)))
  | inr (qty, w) ↦ elim (Option-cases (cur key)) [
    | inr (r, e) ↦ rw (w, e, place_level) e
    | inl e ↦ elim (Option-cases (a.fresh key)) [
      | inl n ↦ rw (w, e, n, place_level) e
      | inr (id, n) ↦ elim (Bool-cases (a.places key)) [
        | inl yes_placed ↦ rw (w, e, n, yes_placed, place_level, =ᵇ_refl key) refl
        | inr refused ↦ rw (w, e, n, refused, place_level) e
      ]
    ]
  ]
]

place_level-others :
    (f : Floats) (a : Answers) (want : Wanted) (symbol : Bytes) (side : BookSide) (key : Bytes)
    (cur : SideMap) (x : Bytes)
    → (x =ᵇ key) ≡ false
    → (place_level f a want symbol side key cur).cur x ≡ cur x
unfolding place_level
place_level-others f a want symbol side key cur x h = elim (Option-cases (want key)) [
  | inl w ↦ rw (w, place_level) refl
  | inr (qty, w) ↦ elim (Option-cases (cur key)) [
    | inr (r, e) ↦ rw (w, e, place_level) refl
    | inl e ↦ elim (Option-cases (a.fresh key)) [
      | inl n ↦ rw (w, e, n, place_level) refl
      | inr (id, n) ↦ elim (Bool-cases (a.places key)) [
        | inl yes_placed ↦ rw (w, e, n, yes_placed, place_level, h) refl
        | inr refused ↦ rw (w, e, n, refused, place_level) refl
      ]
    ]
  ]
]

filled-filled :
    (id : Option Bytes) (b : Bool) (want : Option ℕ) (o : Option RestingOrder)
    → filled id b want (filled id b want o) ≡ filled id b want o
filled-filled id b want (some r) = refl
filled-filled id b none none = refl
filled-filled none b (some qty) none = refl
filled-filled (some id) true (some qty) none = refl
filled-filled (some id) false (some qty) none = refl

place_levels-at :
    (f : Floats) (a : Answers) (want : Wanted) (symbol : Bytes) (side : BookSide)
    (keys : List Bytes) (cur : SideMap) (x : Bytes)
    → (place_levels f a want symbol side keys cur).cur x
      ≡ (if listed x keys then filled (a.fresh x) (a.places x) (want x) (cur x) else cur x)
unfolding place_levels listed
place_levels-at f a want symbol side [] cur x = refl
place_levels-at f a want symbol side (key ∷ rest) cur x =
    let first = (place_level f a want symbol side key cur).cur in
    let fill = filled (a.fresh x) (a.places x) (want x) in
    place_levels-at f a want symbol side rest first x ∙ (elim (Bool-cases (key =ᵇ x)) [
      | inl same ↦
          let e : key ≡ x = (bytes_iff key x).0 same in
          let here : first x ≡ fill (cur x) =
            ap first (sym e)
            ∙ place_level-here f a want symbol side key cur
            ∙ ap (λ (k : Bytes). filled (a.fresh k) (a.places k) (want k) (cur k)) e in
          rw same (
            ap (λ (o : Option RestingOrder). if listed x rest then fill o else o) here
            ∙ twice (listed x rest) (fill (cur x)) (fill (fill (cur x)))
                (filled-filled (a.fresh x) (a.places x) (want x) (cur x)))
      | inr apart ↦ rw apart (
          ap (λ (o : Option RestingOrder). if listed x rest then fill o else o)
            (place_level-others f a want symbol side key cur x (not_same key x apart)))
    ])

-- A key that is left out has nothing to do.
left_out :
    (b : Bool) (o filled_in : Option RestingOrder)
    → (b ≡ false → filled_in ≡ o)
    → (if b then filled_in else o) ≡ filled_in
left_out true o filled_in h = refl
left_out false o filled_in h = sym (h refl)

side_map-with_side :
    (s : BookState) (symbol : Bytes) (side : BookSide) (m : SideMap)
    → side_map (with_side s symbol side m) symbol side ≡ m
side_map-with_side s symbol bid_side m = rw (=ᵇ_refl symbol) refl
side_map-with_side s symbol ask_side m = rw (=ᵇ_refl symbol) refl

-- Whatever orders the maps are walked through in, `sync` leaves at each key what it would leave if that
-- key were the only one: an order that is wanted there in about its quantity stays, any other is
-- forgotten, also if the engine refuses to cancel it, and where none stays the one that is wanted
-- comes, if it gets an identifier and the engine accepts it. The walks visit every key that holds an
-- order or is wanted.
pub sync-filled :
    (f : Floats) (a : Answers) (cur_keys want_keys : List Bytes) (s : BookState) (symbol : Bytes)
    (side : BookSide) (levels : List Level) (key : Bytes)
    → ((k : Bytes) → listed k cur_keys ≡ false → side_map s symbol side k ≡ none)
    → ((k : Bytes) → listed k want_keys ≡ false → wanted_from f 0 levels nothing_wanted k ≡ none)
    → side_map (sync f a cur_keys want_keys s symbol side levels).state symbol side key
      ≡ filled
          (a.fresh key)
          (a.places key)
          (wanted_from f 0 levels nothing_wanted key)
          (kept f (wanted_from f 0 levels nothing_wanted key) (side_map s symbol side key))
unfolding sync
sync-filled f a cur_keys want_keys s symbol side levels key all_cur all_want =
    let want = wanted_from f 0 levels nothing_wanted in
    let cur = side_map s symbol side in
    let dropped = (drop_levels f want symbol cur_keys cur).cur in
    let fill = filled (a.fresh key) (a.places key) (want key) in
    let kept_here : dropped key ≡ kept f (want key) (cur key) =
      drop_levels-at f want symbol cur_keys cur key
      ∙ left_out (listed key cur_keys) (cur key) (kept f (want key) (cur key))
          (λ out. ap (kept f (want key)) (all_cur key out) ∙ sym (all_cur key out)) in
    ap (λ (m : SideMap). m key)
      (side_map-with_side s symbol side (place_levels f a want symbol side want_keys dropped).cur)
    ∙ place_levels-at f a want symbol side want_keys dropped key
    ∙ left_out (listed key want_keys) (dropped key) (fill (dropped key)) (λ out.
      ap (λ (w : Option ℕ). filled (a.fresh key) (a.places key) w (dropped key)) (all_want key out)
      ∙ filled-none (a.fresh key) (a.places key) (dropped key))
    ∙ ap fill kept_here
