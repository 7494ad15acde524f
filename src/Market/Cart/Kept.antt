-- ===== src/Market/Cart/Kept.antt =====
-- src/core/market/cart.cpp: what `add` and `load` keep of a cart, in memory and in the database.
use testshop.Prelude.{
  ◌%◌, ◌<◌, ◌-◌, ◌^◌, min, ◌∙◌, ◌≡◌, refl, ℕ, ◌+◌, true, false, List, [], ◌∷◌, ◌++◌, arith, Text,
  text_eq, text_eq_iff, text_eq_refl, Outcome, ok, faults, ◌>>=◌, >>=-eq-ok, ok_injective, length,
  length-append, if◌then◌else◌, Bool-cases, inl, inr, lookup-insert, leb, ltb, subst, sym, ap,
}
use testshop.Market.Cart.{
  CartError, done, done_with, CartItem, Shop, max_items, rows_of, with_items, get_quantity, in_cart,
  row_quantity, update_rows, insert_row, add_more, add_item, set_quantity, add_fitting, fitting,
  is_positive, is_full,
}
use testshop.Market.Ints.{int_add_lem, int_add_overflow}
use testshop.Market.Cart.Items.{
  distinct, length-update_rows, distinct-update_rows, sum_quantities-update_rows,
  sum_quantities-append, row_quantity-update_rows, row_quantity-append, row_quantity-absent,
  set_quantity_at-get_listing_index, set_quantity_at-absent, distinct-append,
}

-- The rows of the database are the items in memory, each of another listing, and no more than fit.
abbrev pub IsCart : Text → Shop → Type 0
IsCart cart_id s =
    (rows_of cart_id s ≡ s.cart.contents)
    × (distinct s.cart.contents ≡ true)
    × (leb (length s.cart.contents) max_items ≡ true)

pub rows_of-with_items :
    (cart_id : Text) (rows : List CartItem) (contents : List CartItem) (s : Shop)
    → rows_of cart_id (with_items cart_id rows contents s) ≡ rows
rows_of-with_items cart_id rows contents s =
    rw (lookup-insert cart_id cart_id rows s.cart_items, text_eq_refl cart_id) refl

pub with_items-IsCart :
    (cart_id : Text) (items : List CartItem) (s : Shop)
    → distinct items ≡ true
    → leb (length items) max_items ≡ true
    → IsCart cart_id (with_items cart_id items items s)
with_items-IsCart cart_id items s d l = (rows_of-with_items cart_id items items s, d, l)

module _ (cart_id : Text) (k : Text) (s : Shop) (is : IsCart cart_id s) where
  -- A new quantity is written to the same item in memory and in the database.
  pub set_quantity_lem :
      (q : ℕ)
      → in_cart k s.cart.contents ≡ true
      → set_quantity cart_id k q s
        ≡ ok (
            with_items cart_id
              (update_rows k q s.cart.contents)
              (update_rows k q s.cart.contents)
              s)
  unfolding set_quantity
  set_quantity_lem q i =
      let (mirror, d, _) = is in
      rw (set_quantity_at-get_listing_index k q s.cart.contents d i, mirror) refl

  pub set_quantity-absent :
      (q : ℕ) → in_cart k s.cart.contents ≡ false → set_quantity cart_id k q s ≡ faults
  unfolding set_quantity
  set_quantity-absent q i = rw (set_quantity_at-absent k q s.cart.contents i) refl

  update-IsCart :
      (q : ℕ)
      → let items = update_rows k q s.cart.contents in
        IsCart cart_id (with_items cart_id items items s)
  update-IsCart q =
      let (_, d, l) = is in
      with_items-IsCart cart_id (update_rows k q s.cart.contents) s
        (rw (distinct-update_rows k q s.cart.contents) d)
        (rw (length-update_rows k q s.cart.contents) l)

  pub set_quantity-IsCart :
      (q : ℕ) {e : CartError} {s' : Shop}
      → (set_quantity cart_id k q s >>= done_with) ≡ ok (e, s')
      → IsCart cart_id s'
  set_quantity-IsCart q {e} {s'} h =
      let (t, set, same) = >>=-eq-ok (set_quantity cart_id k q s) done_with h in
      let t≡s' : t ≡ s' = ap (λ r. r.1) (ok_injective same) in
      elim (Bool-cases (in_cart k s.cart.contents)) [
        | inl i ↦
            subst (IsCart cart_id) (ok_injective (sym (set_quantity_lem q i) ∙ set) ∙ t≡s')
              (update-IsCart q)
        | inr i ↦ cc (set_quantity-absent q i)
      ]

module _ (k : Text) (q : ℕ) (items : List CartItem) (i : in_cart k items ≡ true) where
  -- The quantity that comes replaces the one that was, modulo 2 ^ 32.
  pub get_quantity-update_rows :
      distinct items ≡ true
      → (get_quantity (update_rows k q items) + row_quantity k items) % 2 ^ 32
        ≡ (q + get_quantity items) % 2 ^ 32
  unfolding get_quantity
  get_quantity-update_rows d = omega (arith, sum_quantities-update_rows k q items d i)

  pub row_quantity-updated :
      (j : Text)
      → row_quantity j (update_rows k q items) ≡ (if text_eq k j then q else row_quantity j items)
  row_quantity-updated j = ground (arith, row_quantity-update_rows k q j items, text_eq_iff k j)

-- What fits of a quantity, where the cart is not full.
pub fitting_lem :
    (cart_qty quantity : ℕ)
    → cart_qty < 100
    → quantity < 2 ^ 31
    → fitting cart_qty quantity
      ≡ (if ltb (cart_qty + quantity) (2 ^ 31) then ok (min quantity (100 - cart_qty)) else faults)
unfolding fitting
fitting_lem cart_qty quantity h b = elim (Bool-cases (ltb (cart_qty + quantity) (2 ^ 31))) [
  | inl fits ↦ rw (int_add_lem cart_qty quantity (ground arith), fits) (ground arith)
  | inr over ↦ rw (int_add_overflow cart_qty quantity (omega arith) b (ground arith), over) refl
]

pub fitting-is_positive :
    (cart_qty quantity q : ℕ)
    → cart_qty < 100
    → is_positive quantity ≡ true
    → fitting cart_qty quantity ≡ ok q
    → is_positive q ≡ true
unfolding is_positive
fitting-is_positive cart_qty quantity q h p fits =
    let e = fitting_lem cart_qty quantity h (ground arith) in
    elim (Bool-cases (ltb (cart_qty + quantity) (2 ^ 31))) [
      | inl within ↦
          let same : min quantity (100 - cart_qty) ≡ q =
            ok_injective (sym (e ∙ rw within refl) ∙ fits) in
          ground arith
      | inr over ↦ let bad : ◌≡◌ {A = Outcome ℕ} faults (ok q) = sym (e ∙ rw over refl) ∙ fits in cc
    ]

-- The items after a quantity of a listing came to them.
unfoldable pub with_more : Text → Text → ℕ → List CartItem → List CartItem
with_more k seller_id quantity items =
    if in_cart k items
    then update_rows k (row_quantity k items + quantity) items
    else items ++ record { key = k; quantity = quantity; seller_id = seller_id } ∷ []

pub is_full_lem :
    (items : List CartItem)
    → is_full items ≡ false
    → (length items < 10) × (get_quantity items < 100)
unfolding is_full
is_full_lem items f = ground arith

module _ (cart_id : Text) (k : Text) (seller_id : Text) (s : Shop) (is : IsCart cart_id s) where
  -- A quantity within the stock comes to the items, as far as it fits, in memory and in the database.
  pub add_fitting_lem :
      (quantity : ℕ)
      → 0 < quantity
      → is_full s.cart.contents ≡ false
      → get_quantity s.cart.contents + quantity < 2 ^ 31
      → row_quantity k s.cart.contents + quantity < 2 ^ 31
      → let items =
          with_more k seller_id
            (min quantity (100 - get_quantity s.cart.contents))
            s.cart.contents in
        add_fitting cart_id k seller_id quantity s ≡ ok (done, with_items cart_id items items s)
  unfolding add_fitting with_more insert_row is_positive add_more add_item
  add_fitting_lem quantity p f b r =
      let (mirror, d, l) = is in
      let contents = s.cart.contents in
      let (l', t) = is_full_lem contents f in
      let within : ltb (get_quantity contents + quantity) (2 ^ 31) ≡ true = ground arith in
      let fits = fitting_lem (get_quantity contents) quantity t (omega arith) in
      let added = min quantity (100 - get_quantity contents) in
      let more : is_positive added ≡ true = ground arith in
      let quantity' = row_quantity k contents + added in
      let sum = int_add_lem (row_quantity k contents) added (omega arith) in
      elim (Bool-cases (in_cart k contents)) [
        | inl i ↦
            rw (mirror, fits, within, more, i, sum, set_quantity_lem cart_id k s is quantity' i)
              refl
        | inr i ↦ rw (mirror, fits, within, i) refl
      ]

module _ (k : Text) (seller_id : Text) (q : ℕ) (items : List CartItem) where
  abbrev new : CartItem
  new = record { key = k; quantity = q; seller_id = seller_id }

  -- The quantities add up.
  pub get_quantity-with_more :
      distinct items ≡ true
      → get_quantity (with_more k seller_id q items) ≡ (get_quantity items + q) % 2 ^ 32
  unfolding with_more get_quantity
  get_quantity-with_more d = ground (
    arith,
    sum_quantities-update_rows k (row_quantity k items + q) items d,
    sum_quantities-append new items,
  )

  pub row_quantity-with_more :
      (j : Text)
      → row_quantity j (with_more k seller_id q items)
        ≡ (if text_eq k j then row_quantity j items + q else row_quantity j items)
  unfolding with_more
  row_quantity-with_more j = ground (
    arith,
    row_quantity-update_rows k (row_quantity k items + q) j items,
    row_quantity-append new j items,
    row_quantity-absent j items,
    text_eq_iff k j,
  )

  pub distinct-with_more : distinct items ≡ true → distinct (with_more k seller_id q items) ≡ true
  unfolding with_more
  distinct-with_more d =
      ground
        (arith, distinct-update_rows k (row_quantity k items + q) items, distinct-append new items)

  pub length-with_more :
      length items < 10 → leb (length (with_more k seller_id q items)) max_items ≡ true
  unfolding with_more
  length-with_more l =
      ground (
        arith,
        length-update_rows k (row_quantity k items + q) items,
        length-append items (new ∷ []),
      )
