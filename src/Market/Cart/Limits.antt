-- ===== src/Market/Cart/Limits.antt =====
-- src/core/market/cart.cpp: `add` against the stock and against the most quantity of a cart.
use testshop.Prelude.{
  ◌≡◌, ◌≢◌, ◌>>=◌, refl, ℕ, ◌+◌, ◌-◌, ◌^◌, ◌<◌, ◌≤◌, min, ◌%◌, Bool, true, false, some, arith, Text,
  text_eq, Outcome, ok, faults, if◌then◌else◌, ◌==◌, ◌∙◌, lookup, insert, [],
}
use testshop.Market.Ints.{
  int_less, int_add_lem, int_add_overflow, int_less_lem, int_sub_lem, int_add-int_sub,
}
use testshop.Market.Cart.{
  done, Shop, Listing, get_quantity, in_cart, is_full, row_quantity, text_of, cart_of, add_fitting,
  add_to, add_remainder, is_positive, add_listing_to, add, with_items, update_rows, set_quantity,
  done_with,
}
use testshop.Market.Cart.Kept.{
  IsCart, set_quantity_lem, set_quantity-absent, with_more, add_fitting_lem, get_quantity-with_more,
  row_quantity-with_more, is_full_lem, get_quantity-update_rows, row_quantity-updated,
}
use testshop.Market.Cart.Added.{cart_id_of}
use testshop.Market.Cart.Items.{row_quantity-absent}

made-cart :
    (uuid user_id : Text) (s : Shop) (fresh : Bool)
    → let made : Text × Shop =
        if fresh
        then (uuid, record s { carts = insert user_id uuid s.carts })
        else (text_of (lookup user_id s.carts), s) in
      (made.1.cart ≡ s.cart) × (made.1.cart_items ≡ s.cart_items)
made-cart uuid user_id s true = (refl, refl)
made-cart uuid user_id s false = (refl, refl)

cart_of-cart :
    (uuid user_id : Text) (s : Shop)
    → ((cart_of uuid user_id s).1.cart ≡ s.cart)
      × ((cart_of uuid user_id s).1.cart_items ≡ s.cart_items)
unfolding cart_of
cart_of-cart uuid user_id s =
    made-cart uuid user_id s (text_eq (text_of (lookup user_id s.carts)) [])

module _ (cart_id k seller_id : Text) (s : Shop) (is : IsCart cart_id s) where
  add_to-fits :
      (stock quantity : ℕ)
      → 0 < quantity
      → stock < 2 ^ 31
      → is_full s.cart.contents ≡ false
      → row_quantity k s.cart.contents + quantity ≤ stock
      → add_to cart_id k seller_id stock quantity s ≡ add_fitting cart_id k seller_id quantity s
  unfolding add_to
  add_to-fits stock quantity p b f fits =
      let (mirror, _, _) = is in
      let wanted = row_quantity k s.cart.contents + quantity in
      let some_stock : (stock == 0) ≡ false = ground arith in
      let sum = int_add_lem (row_quantity k s.cart.contents) quantity (omega arith) in
      let enough : int_less stock wanted ≡ false =
        int_less_lem stock wanted b (omega arith) ∙ ground arith in
      rw (mirror, f, some_stock, sum, enough) refl

  add_to-scarce :
      (stock quantity : ℕ)
      → 0 < stock
      → is_full s.cart.contents ≡ false
      → stock ≢ row_quantity k s.cart.contents
      → stock < row_quantity k s.cart.contents + quantity
      → row_quantity k s.cart.contents + quantity < 2 ^ 31
      → add_to cart_id k seller_id stock quantity s ≡ (set_quantity cart_id k stock s >>= done_with)
  unfolding add_to add_remainder
  add_to-scarce stock quantity p f other scarce b =
      let (mirror, _, _) = is in
      let item_qty = row_quantity k s.cart.contents in
      let some_stock : (stock == 0) ≡ false = ground arith in
      let sum = int_add_lem item_qty quantity b in
      let short : int_less stock (item_qty + quantity) ≡ true =
        int_less_lem stock (item_qty + quantity) (omega arith) b ∙ ground arith in
      let remainder = int_sub_lem stock item_qty (omega arith) (omega arith) in
      let more : ((stock + 2 ^ 32 - item_qty) % 2 ^ 32 == 0) ≡ false = ground arith in
      let back = int_add-int_sub stock item_qty (omega arith) (omega arith) in
      rw (mirror, f, some_stock, sum, short, remainder, more, back) refl

  -- The sum that is compared with the stock, or with the limit, overflows.
  add_to-overflow :
      (stock quantity : ℕ)
      → 0 < stock
      → is_full s.cart.contents ≡ false
      → row_quantity k s.cart.contents < 2 ^ 31
      → quantity < 2 ^ 31
      → 2 ^ 31 ≤ row_quantity k s.cart.contents + quantity
      → add_to cart_id k seller_id stock quantity s ≡ faults
  unfolding add_to
  add_to-overflow stock quantity p f a b over =
      let (mirror, _, _) = is in
      let some_stock : (stock == 0) ≡ false = ground arith in
      rw
        (mirror, f, some_stock, int_add_overflow (row_quantity k s.cart.contents) quantity a b over)
        refl

module _ (get_listing_object : Text → Outcome Listing) (uuid : Text) (user_id k seller_id : Text)
    (quantity stock : ℕ) (s : Shop) where
  add-add_to :
      0 < quantity
      → quantity < 2 ^ 31
      → get_listing_object k ≡ ok (record { seller_id = some seller_id; quantity = some stock })
      → text_eq seller_id user_id ≡ false
      → add get_listing_object uuid user_id k quantity s
        ≡ add_to (cart_id_of uuid user_id s) k seller_id stock quantity (cart_of uuid user_id s).1
  unfolding add add_listing_to is_positive
  add-add_to p b at other =
      let some_quantity : is_positive quantity ≡ true = ground arith in
      rw (some_quantity, at, other) refl

  made :
      IsCart (cart_id_of uuid user_id s) s
      → IsCart (cart_id_of uuid user_id s) (cart_of uuid user_id s).1
  made (mirror, d, l) =
      let (same, rows) = cart_of-cart uuid user_id s in
      (rw (same, rows) mirror, rw same d, rw same l)

  -- Where the listing is read and names its seller, who is not the user, and its stock, which is
  -- not negative, the rows of the user's cart are the items in memory, the cart is not full, the
  -- stock has the quantity, which is positive, besides what the cart has of the listing, and the
  -- quantity and all that is in the cart sum up to an `int` without overflow, `add` returns `Ok`;
  -- the quantities in memory then sum up to what they did and the quantity, but to 100 at most,
  -- and the listing alone has more.
  pub add_lem :
      0 < quantity
      → get_listing_object k ≡ ok (record { seller_id = some seller_id; quantity = some stock })
      → stock < 2 ^ 31
      → text_eq seller_id user_id ≡ false
      → IsCart (cart_id_of uuid user_id s) s
      → is_full s.cart.contents ≡ false
      → row_quantity k s.cart.contents + quantity ≤ stock
      → get_quantity s.cart.contents + quantity < 2 ^ 31
      → (s' : Shop) × (add get_listing_object uuid user_id k quantity s ≡ ok (done, s'))
        × (get_quantity s'.cart.contents ≡ min 100 (get_quantity s.cart.contents + quantity))
        × ((j : Text)
            → row_quantity j s'.cart.contents ≡ (
                if text_eq k j
                then row_quantity j s.cart.contents
                  + min quantity (100 - get_quantity s.cart.contents)
                else row_quantity j s.cart.contents))
  add_lem p at b other is f fits whole =
      let cart_id = cart_id_of uuid user_id s in
      let s1 = (cart_of uuid user_id s).1 in
      let (same, _) = cart_of-cart uuid user_id s in
      let added = min quantity (100 - get_quantity s1.cart.contents) in
      let items = with_more k seller_id added s1.cart.contents in
      let (_, d, _) = made is in
      let sum = get_quantity-with_more k seller_id added s1.cart.contents d in
      let in_row : row_quantity k s.cart.contents + quantity < 2 ^ 31 = omega arith in
      (
        with_items cart_id items items s1,
        add-add_to p (omega arith) at other
            ∙ add_to-fits cart_id k seller_id s1 (made is) stock quantity p b (rw same f)
                (rw same fits)
            ∙ add_fitting_lem cart_id k seller_id s1 (made is) quantity p (rw same f)
                (rw same whole) (rw same in_row),
        sum ∙ rw same (ground (arith, is_full_lem s.cart.contents f)),
        λ j. simp (← same) (row_quantity-with_more k seller_id added s1.cart.contents j),
      )

  -- Where the listing is read and names its seller, who is not the user, and its stock, the rows
  -- of the user's cart are the items in memory and the cart is not full, `add` of a listing that
  -- is not in the cart, of which there are some, but less than the quantity, an `int`, writes past
  -- the end of `contents`.
  pub add_scarce_faults :
      quantity < 2 ^ 31
      → get_listing_object k ≡ ok (record { seller_id = some seller_id; quantity = some stock })
      → text_eq seller_id user_id ≡ false
      → IsCart (cart_id_of uuid user_id s) s
      → is_full s.cart.contents ≡ false
      → in_cart k s.cart.contents ≡ false
      → 0 < stock
      → stock < quantity
      → add get_listing_object uuid user_id k quantity s ≡ faults
  add_scarce_faults b at other is f absent p scarce =
      let cart_id = cart_id_of uuid user_id s in
      let s1 = (cart_of uuid user_id s).1 in
      let (same, _) = cart_of-cart uuid user_id s in
      let none' : row_quantity k s1.cart.contents ≡ 0 =
        row_quantity-absent k s1.cart.contents (rw same absent) in
      add-add_to (ground arith) b at other
      ∙ add_to-scarce cart_id k seller_id s1 (made is) stock quantity p (rw same f) (ground arith)
          (ground arith) (ground arith)
      ∙ rw (set_quantity-absent cart_id k s1 (made is) stock (rw same absent)) refl

  -- Where the listing is read and names its seller, who is not the user, and its stock, the rows
  -- of the user's cart are the items in memory, the cart is not full, and the listing is in it
  -- with another quantity than the stock, which is not 0, `add` of a positive quantity, of more
  -- than the stock has besides that quantity, but not of so much that the two overflow an `int`,
  -- gives the listing the whole stock as its quantity, and leaves the others as they are: the
  -- limit of 100 is not looked at.
  pub add_scarce_lem :
      0 < quantity
      → get_listing_object k ≡ ok (record { seller_id = some seller_id; quantity = some stock })
      → text_eq seller_id user_id ≡ false
      → IsCart (cart_id_of uuid user_id s) s
      → is_full s.cart.contents ≡ false
      → in_cart k s.cart.contents ≡ true
      → 0 < stock
      → stock ≢ row_quantity k s.cart.contents
      → stock < row_quantity k s.cart.contents + quantity
      → row_quantity k s.cart.contents + quantity < 2 ^ 31
      → (s' : Shop) × (add get_listing_object uuid user_id k quantity s ≡ ok (done, s'))
        × ((get_quantity s'.cart.contents + row_quantity k s.cart.contents) % 2 ^ 32
            ≡ (stock + get_quantity s.cart.contents) % 2 ^ 32)
        × ((j : Text)
            → row_quantity j s'.cart.contents
              ≡ (if text_eq k j then stock else row_quantity j s.cart.contents))
  add_scarce_lem q at other is f i p more scarce b =
      let cart_id = cart_id_of uuid user_id s in
      let s1 = (cart_of uuid user_id s).1 in
      let (same, _) = cart_of-cart uuid user_id s in
      let items = update_rows k stock s1.cart.contents in
      let (_, d, _) = made is in
      (
        with_items cart_id items items s1,
        add-add_to q (omega arith) at other
            ∙ add_to-scarce cart_id k seller_id s1 (made is) stock quantity p (rw same f)
                (rw same more) (rw same scarce) (rw same b)
            ∙ rw (set_quantity_lem cart_id k s1 (made is) stock (rw same i)) refl,
        simp (← same) (get_quantity-update_rows k stock s1.cart.contents (rw same i) d),
        λ j. simp (← same) (row_quantity-updated k stock s1.cart.contents (rw same i) j),
      )

  -- Where the user is not the seller, the rows of the user's cart are the items in memory, the
  -- cart is not full, and the listing has a stock, `add` of a quantity that with the one of the
  -- listing in the cart is no `int` overflows.
  pub add_overflow_faults :
      quantity < 2 ^ 31
      → get_listing_object k ≡ ok (record { seller_id = some seller_id; quantity = some stock })
      → text_eq seller_id user_id ≡ false
      → IsCart (cart_id_of uuid user_id s) s
      → is_full s.cart.contents ≡ false
      → 0 < stock
      → row_quantity k s.cart.contents < 2 ^ 31
      → 2 ^ 31 ≤ row_quantity k s.cart.contents + quantity
      → add get_listing_object uuid user_id k quantity s ≡ faults
  add_overflow_faults b at other is f p r over =
      let (same, _) = cart_of-cart uuid user_id s in
      add-add_to (omega arith) b at other
      ∙ add_to-overflow (cart_id_of uuid user_id s) k seller_id (cart_of uuid user_id s).1 (made is)
          stock quantity p (rw same f) (rw same r) b (rw same over)
