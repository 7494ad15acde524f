-- ===== src/Market/Cart/Items.antt =====
-- src/core/market/cart.cpp: the items of a cart, and a change of the quantity of one.
use testshop.Prelude.{
  ◌≡◌, refl, ℕ, ◌+◌, Bool, true, false, ◌&&◌, ◌||◌, not, List, [], ◌∷◌, ◌++◌, arith, Text, text_eq,
  text_eq_iff, ok, faults, length, if◌then◌else◌,
}
use testshop.Market.Cart.{
  CartItem, sum_quantities, get_listing_index, in_cart, set_quantity_at, row_quantity, update_rows,
}

-- No two items are of one listing.
unfoldable pub distinct : List CartItem → Bool
distinct [] = true
distinct (item ∷ items) = not (in_cart item.key items) && distinct items

module _ (k : Text) (q : ℕ) where
  pub length-update_rows : (items : List CartItem) → length (update_rows k q items) ≡ length items
  unfolding update_rows
  length-update_rows [] = refl
  length-update_rows (item ∷ items) = ground (arith, length-update_rows items)

  pub in_cart-update_rows :
      (j : Text) (items : List CartItem) → in_cart j (update_rows k q items) ≡ in_cart j items
  unfolding update_rows in_cart
  in_cart-update_rows j [] = refl
  in_cart-update_rows j (item ∷ items) = ground (arith, in_cart-update_rows j items)

  pub distinct-update_rows :
      (items : List CartItem) → distinct (update_rows k q items) ≡ distinct items
  unfolding update_rows distinct
  distinct-update_rows [] = refl
  distinct-update_rows (item ∷ items) =
      ground (arith, distinct-update_rows items, in_cart-update_rows item.key items)

  pub update_rows-absent :
      (items : List CartItem) → in_cart k items ≡ false → update_rows k q items ≡ items
  unfolding update_rows in_cart
  update_rows-absent [] h = refl
  update_rows-absent (item ∷ items) h = ground (arith, update_rows-absent items)

  pub row_quantity-update_rows :
      (j : Text) (items : List CartItem)
      → row_quantity j (update_rows k q items)
        ≡ (if in_cart j items && text_eq k j then q else row_quantity j items)
  unfolding update_rows row_quantity in_cart
  row_quantity-update_rows j [] = refl
  row_quantity-update_rows j (item ∷ items) = ground (
    arith,
    row_quantity-update_rows j items,
    text_eq_iff item.key k,
    text_eq_iff item.key j,
    text_eq_iff k j,
  )

  -- The quantity that comes replaces the one that was.
  pub sum_quantities-update_rows :
      (items : List CartItem)
      → distinct items ≡ true
      → in_cart k items ≡ true
      → sum_quantities (update_rows k q items) + row_quantity k items ≡ q + sum_quantities items
  unfolding update_rows row_quantity in_cart sum_quantities distinct
  sum_quantities-update_rows [] d i = ground arith
  sum_quantities-update_rows (item ∷ items) d i =
      ground
        (arith, sum_quantities-update_rows items, update_rows-absent items, text_eq_iff item.key k)

  -- The write in memory is the one in the database.
  pub set_quantity_at-get_listing_index :
      (items : List CartItem)
      → distinct items ≡ true
      → in_cart k items ≡ true
      → set_quantity_at (get_listing_index k items) q items ≡ ok (update_rows k q items)
  unfolding update_rows in_cart distinct set_quantity_at get_listing_index
  set_quantity_at-get_listing_index [] d i = ground arith
  set_quantity_at-get_listing_index (item ∷ items) d i = ground (
    arith,
    set_quantity_at-get_listing_index items,
    update_rows-absent items,
    text_eq_iff item.key k,
  )

  -- A listing that is not there has the size for its index, which is out of bounds.
  pub set_quantity_at-absent :
      (items : List CartItem)
      → in_cart k items ≡ false
      → set_quantity_at (get_listing_index k items) q items ≡ faults
  unfolding in_cart set_quantity_at get_listing_index
  set_quantity_at-absent [] i = refl
  set_quantity_at-absent (item ∷ items) i = ground (arith, set_quantity_at-absent items)

  pub update_rows-append :
      (pre : List CartItem) (items : List CartItem)
      → update_rows k q (pre ++ items) ≡ update_rows k q pre ++ update_rows k q items
  unfolding update_rows
  update_rows-append [] items = refl
  update_rows-append (item ∷ pre) items = ground (arith, update_rows-append pre items)

pub in_cart-append :
    (j : Text) (items : List CartItem) (more : List CartItem)
    → in_cart j (items ++ more) ≡ (in_cart j items || in_cart j more)
unfolding in_cart
in_cart-append j [] more = refl
in_cart-append j (item ∷ items) more = ground (arith, in_cart-append j items more)

module _ (new : CartItem) where
  pub distinct-append :
      (items : List CartItem)
      → in_cart new.key items ≡ false
      → distinct items ≡ true
      → distinct (items ++ (new ∷ [])) ≡ true
  unfolding distinct in_cart
  distinct-append [] h d = refl
  distinct-append (item ∷ items) h d = ground (
    arith,
    distinct-append items,
    in_cart-append item.key items (new ∷ []),
    text_eq_iff new.key item.key,
    text_eq_iff item.key new.key,
  )

  pub sum_quantities-append :
      (items : List CartItem)
      → sum_quantities (items ++ (new ∷ [])) ≡ sum_quantities items + new.quantity
  unfolding sum_quantities
  sum_quantities-append [] = ground arith
  sum_quantities-append (item ∷ items) = ground (arith, sum_quantities-append items)

  pub row_quantity-append :
      (j : Text) (items : List CartItem)
      → row_quantity j (items ++ (new ∷ [])) ≡ (
          if not (in_cart j items) && text_eq new.key j then new.quantity else row_quantity j items)
  unfolding row_quantity in_cart
  row_quantity-append j [] = ground arith
  row_quantity-append j (item ∷ items) = ground (arith, row_quantity-append j items)

pub row_quantity-absent :
    (j : Text) (items : List CartItem) → in_cart j items ≡ false → row_quantity j items ≡ 0
unfolding row_quantity in_cart
row_quantity-absent j [] h = refl
row_quantity-absent j (item ∷ items) h = ground (arith, row_quantity-absent j items)
