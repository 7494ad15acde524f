-- ===== src/Market/Cart/Added.antt =====
-- src/core/market/cart.cpp: what `add` comes to.
use testshop.Prelude.{
  ◌≡◌, ℕ, Bool, true, false, Option, some, none, arith, Text, text_eq, Outcome, ok, if◌then◌else◌,
  ◌==◌, ap, subst, ok_injective, split_if, >>=-eq-ok, lookup, insert, [], ◌∷◌, ◌++◌, ◌&&◌,
  length-append,
}
use testshop.Market.Cart.{
  CartError, done, CartItem, add_more, add_item, add_remainder, is_positive, fitting, insert_row,
  with_items, in_cart, Shop, Listing, get_quantity, is_full, row_quantity, rows_of, text_of,
  stock_of, cart_of, unless_own, add_fitting, add_to, add_listing_to, add,
}
use testshop.Market.Cart.Kept.{
  IsCart, set_quantity-IsCart, fitting-is_positive, with_items-IsCart, is_full_lem,
}
use testshop.Market.Cart.Items.{distinct-append}
use testshop.Market.Ints.{int_add, int_sub, int_less}

stays :
    (cart_id : Text) (s : Shop) {e' : CartError} {e : CartError} {s' : Shop}
    → IsCart cart_id s
    → ◌≡◌ {A = Outcome (CartError × Shop)} (ok (e', s)) (ok (e, s'))
    → IsCart cart_id s'
stays cart_id s is same = subst (IsCart cart_id) (ap (λ r. r.1) (ok_injective same)) is

module _ (cart_id : Text) (k : Text) (seller_id : Text) (s : Shop) (is : IsCart cart_id s) where
  add_more-IsCart :
      (quantity : ℕ) {e : CartError} {s' : Shop}
      → add_more cart_id k quantity s ≡ ok (e, s')
      → IsCart cart_id s'
  unfolding add_more
  add_more-IsCart quantity h =
      let (n, _, set) = >>=-eq-ok (int_add (row_quantity k (rows_of cart_id s)) quantity) _ h in
      set_quantity-IsCart cart_id k s is n set

  add_item-IsCart :
      (quantity : ℕ) {e : CartError} {s' : Shop}
      → is_full s.cart.contents ≡ false
      → in_cart k s.cart.contents ≡ false
      → add_item cart_id (record { key = k; quantity = quantity; seller_id = seller_id }) s
        ≡ ok (e, s')
      → IsCart cart_id s'
  unfolding add_item insert_row
  add_item-IsCart quantity {e} {s'} f i h =
      let (mirror, d, _) = is in
      let (l, _) = is_full_lem s.cart.contents f in
      let item : CartItem = record { key = k; quantity = quantity; seller_id = seller_id } in
      let items = s.cart.contents ++ item ∷ [] in
      let more : ok (done, with_items cart_id items items s) ≡ ok (e, s') = rw (mirror, i) at h in
      subst (IsCart cart_id) (ap (λ r. r.1) (ok_injective more)) (
        with_items-IsCart cart_id items s (distinct-append item s.cart.contents i d)
          (ground (arith, length-append s.cart.contents (item ∷ []))))

  add_fitting-IsCart :
      (quantity : ℕ) {e : CartError} {s' : Shop}
      → is_positive quantity ≡ true
      → is_full s.cart.contents ≡ false
      → add_fitting cart_id k seller_id quantity s ≡ ok (e, s')
      → IsCart cart_id s'
  unfolding add_fitting
  add_fitting-IsCart quantity p f h =
      let (mirror, _, _) = is in
      let (_, t) = is_full_lem s.cart.contents f in
      let (q, fits, h') = >>=-eq-ok (fitting (get_quantity (rows_of cart_id s)) quantity) _ h in
      let q_positive =
        fitting-is_positive (get_quantity s.cart.contents) quantity q t p (rw mirror at fits) in
      split_if (in_cart k s.cart.contents && is_positive q) (λ _ more. add_more-IsCart q more)
        (λ other new. add_item-IsCart q f (ground arith) new) h'

  add_remainder-IsCart :
      (stock_available : ℕ) {e : CartError} {s' : Shop}
      → add_remainder cart_id k stock_available s ≡ ok (e, s')
      → IsCart cart_id s'
  unfolding add_remainder
  add_remainder-IsCart stock_available h =
      let item_qty = row_quantity k (rows_of cart_id s) in
      let (remainder, _, h') = >>=-eq-ok (int_sub stock_available item_qty) _ h in
      split_if (remainder == 0) (λ _ same. stays cart_id s is same)
        (λ _ more.
          let (n, _, set) = >>=-eq-ok (int_add item_qty remainder) _ more in
          set_quantity-IsCart cart_id k s is n set)
        h'

  add_to-IsCart :
      (stock_available quantity : ℕ) {e : CartError} {s' : Shop}
      → is_positive quantity ≡ true
      → add_to cart_id k seller_id stock_available quantity s ≡ ok (e, s')
      → IsCart cart_id s'
  unfolding add_to
  add_to-IsCart stock_available quantity p =
      split_if (is_full s.cart.contents) (λ _ same. stays cart_id s is same)
        (λ f.
          split_if (stock_available == 0) (λ _ same. stays cart_id s is same)
            (λ _ h.
              let (wanted, _, h') =
                >>=-eq-ok (int_add (row_quantity k (rows_of cart_id s)) quantity) _ h in
              split_if (int_less stock_available wanted)
                (λ _ less. add_remainder-IsCart stock_available less)
                (λ _ fits. add_fitting-IsCart quantity p f fits) h'))

-- The cart that `cart_of` finds or makes is the user's from then on.
abbrev pub cart_id_of : Text → Text → Shop → Text
cart_id_of uuid user_id s = (cart_of uuid user_id s).0

pub made-IsCart :
    (cart_id uuid user_id : Text) (s : Shop) (fresh : Bool)
    → IsCart cart_id s
    → let made : Text × Shop =
        if fresh
        then (uuid, record s { carts = insert user_id uuid s.carts })
        else (text_of (lookup user_id s.carts), s) in
      IsCart cart_id made.1
made-IsCart cart_id uuid user_id s true is = is
made-IsCart cart_id uuid user_id s false is = is

unless_own-IsCart :
    (cart_id user_id : Text) (seller : Option Text) (s : Shop) {e : CartError} {s' : Shop}
    → IsCart cart_id s
    → (added : Outcome (CartError × Shop)) → (added ≡ ok (e, s') → IsCart cart_id s')
    → unless_own user_id seller s added ≡ ok (e, s')
    → IsCart cart_id s'
unless_own-IsCart cart_id user_id none s is added to h = to h
unless_own-IsCart cart_id user_id (some seller_id) s is added to h =
    split_if (text_eq seller_id user_id) (λ _ same. stays cart_id s is same) (λ _. to) h

module _ (get_listing_object : Text → Outcome Listing) (uuid : Text) where
  add_listing_to-IsCart :
      (user_id k : Text) (quantity : ℕ) (listing : Listing) (s : Shop) {e : CartError} {s' : Shop}
      → is_positive quantity ≡ true
      → IsCart (cart_id_of uuid user_id s) s
      → add_listing_to get_listing_object uuid user_id k quantity listing s ≡ ok (e, s')
      → IsCart (cart_id_of uuid user_id s) s'
  unfolding add_listing_to cart_of
  add_listing_to-IsCart user_id k quantity listing s {e} {s'} p is h =
      let cart_id = cart_id_of uuid user_id s in
      let (_, s1) = cart_of uuid user_id s in
      let is1 : IsCart cart_id s1 =
        made-IsCart cart_id uuid user_id s (text_eq (text_of (lookup user_id s.carts)) []) is in
      let to : add_to cart_id k (text_of listing.seller_id) (stock_of listing.quantity) quantity s1
            ≡ ok (e, s')
          → IsCart cart_id s' =
        add_to-IsCart cart_id k (text_of listing.seller_id) s1 is1 (stock_of listing.quantity)
          quantity p in
      unless_own-IsCart cart_id user_id listing.seller_id s is
        (add_to cart_id k (text_of listing.seller_id) (stock_of listing.quantity) quantity s1) to h

  -- Where every row of the cart in the database is the item in memory, of another listing each, and
  -- there are at most 10 of them, all that stays true, whatever `add` returns.
  pub add-IsCart :
      (user_id k : Text) (quantity : ℕ) (s : Shop) {e : CartError} {s' : Shop}
      → IsCart (cart_id_of uuid user_id s) s
      → add get_listing_object uuid user_id k quantity s ≡ ok (e, s')
      → IsCart (cart_id_of uuid user_id s) s'
  unfolding add
  add-IsCart user_id k quantity s {e} {s'} is =
      split_if (is_positive quantity)
        (λ p h.
          let (listing, _, h') =
            >>=-eq-ok (get_listing_object k)
              (λ listing. add_listing_to get_listing_object uuid user_id k quantity listing s) h in
          add_listing_to-IsCart user_id k quantity listing s p is h')
        (λ _ same. stays (cart_id_of uuid user_id s) s is same)
