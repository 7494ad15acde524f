-- ===== src/Market/Tests.antt =====
-- The cart on concrete listings.
use testshop.Prelude.{
  ◌%◌, ◌^◌, insert, ◌>>=◌, ◌≡◌, refl, ℕ, ◌+◌, some, List, [], ◌∷◌, arith, Text, text_eq, bytes,
  Outcome, ok, faults, if◌then◌else◌, lookup, min, ◌-◌,
}
use testshop.Market.Ints.{int_add, int_sub, int_less}
use testshop.Market.Cart.{
  sum_quantities, add_more, add_item, add_remainder, done, CartItem, Shop, Listing, get_quantity,
  get_listing_index, in_cart, is_full, row_quantity, cart_of, add_listing_to, add_to, add_fitting,
  is_positive, fitting, set_quantity, adjust, add, load, empty, set_quantity_at, update_rows,
}
use testshop.Market.Cart.Kept.{IsCart}
use testshop.Market.Cart.Items.{distinct}
use testshop.Market.Cart.Added.{cart_id_of, add-IsCart}
use testshop.Market.Cart.Limits.{add_lem, add_scarce_faults, add_scarce_lem}

abbrev user : Text
user = bytes "u"

abbrev uuid : Text
uuid = bytes "cart"

abbrev tea : Text
tea = bytes "tea"

abbrev pot : Text
pot = bytes "pot"

abbrev offer : ℕ → Listing
offer n = record { seller_id = some (bytes "s"); quantity = some n }

-- 120 of tea, 5 of any other listing
abbrev market : Text → Outcome Listing
unfolding text_eq
market k = if text_eq k (bytes "tea") then ok (offer 120) else ok (offer 5)

abbrev item : Text → ℕ → CartItem
item k n = record { key = k; quantity = n; seller_id = bytes "s" }

abbrev shop : List CartItem → Shop
shop items = record {
  cart = record { id = bytes "cart"; owner_id = bytes "u"; contents = items };
  carts = (bytes "u", bytes "cart") ∷ [];
  cart_items = (bytes "cart", items) ∷ [];
}

abbrev no_shop : Shop
no_shop = record {
  cart = record { id = []; owner_id = []; contents = [] };
  carts = [];
  cart_items = [];
}

abbrev two : Shop
two = shop (item tea 30 ∷ item pot 2 ∷ [])

two-IsCart : IsCart (cart_id_of uuid user two) two
unfolding cart_of text_eq lookup distinct in_cart bytes
two-IsCart = (refl, refl, refl)

abbrev three_more : Shop
three_more = shop (item tea 30 ∷ item pot 5 ∷ [])

three_added : add market uuid user pot 3 two ≡ ok (done, three_more)
unfolding add bytes text_eq add_listing_to add_to sum_quantities int_add int_sub int_less add_more
    add_item add_remainder is_full cart_of lookup get_quantity row_quantity add_fitting in_cart
    is_positive fitting set_quantity set_quantity_at get_listing_index insert update_rows
three_added = refl

add-IsCart_example : IsCart (cart_id_of uuid user two) three_more
add-IsCart_example = add-IsCart market uuid user pot 3 two two-IsCart three_added

add_lem_example :
    (s' : Shop) × (add market uuid user pot 3 two ≡ ok (done, s'))
    × (get_quantity s'.cart.contents ≡ min 100 (get_quantity two.cart.contents + 3))
    × ((j : Text)
        → row_quantity j s'.cart.contents ≡ (
            if text_eq pot j
            then row_quantity j two.cart.contents + min 3 (100 - get_quantity two.cart.contents)
            else row_quantity j two.cart.contents))
unfolding bytes text_eq is_full row_quantity get_quantity sum_quantities
add_lem_example =
    add_lem market uuid user pot (bytes "s") 3 5 two (omega arith) refl (omega arith) refl
      two-IsCart refl (omega arith) (omega arith)

abbrev one : Shop
one = shop (item tea 30 ∷ [])

one-IsCart : IsCart (cart_id_of uuid user one) one
unfolding cart_of text_eq lookup distinct in_cart bytes
one-IsCart = (refl, refl, refl)

-- Seven of a listing that has five, which is not in the cart.
add_scarce_faults_example : add market uuid user pot 7 one ≡ faults
unfolding bytes text_eq is_full in_cart get_quantity sum_quantities row_quantity
add_scarce_faults_example =
    add_scarce_faults market uuid user pot (bytes "s") 7 5 one (omega arith) refl refl one-IsCart
      refl refl (omega arith) (omega arith)

-- The cart has 30 of the tea, and gets 120, more than 100.
add_scarce_lem_example :
    (s' : Shop) × (add market uuid user tea 95 one ≡ ok (done, s'))
    × ((get_quantity s'.cart.contents + row_quantity tea one.cart.contents) % 2 ^ 32
        ≡ (120 + get_quantity one.cart.contents) % 2 ^ 32)
    × ((j : Text)
        → row_quantity j s'.cart.contents
          ≡ (if text_eq tea j then 120 else row_quantity j one.cart.contents))
unfolding bytes text_eq is_full in_cart row_quantity get_quantity sum_quantities
add_scarce_lem_example =
    add_scarce_lem market uuid user tea (bytes "s") 95 120 one (omega arith) refl refl one-IsCart
      refl refl (omega arith) (λ e. omega arith) (omega arith) (omega arith)

-- 30 and the largest `int` have no sum.
overflow_run : add market uuid user tea 2147483647 one ≡ faults
unfolding add bytes text_eq add_listing_to add_to is_full cart_of lookup get_quantity row_quantity
    is_positive int_add sum_quantities
overflow_run = refl

abbrev five_each : Text → Outcome Listing
five_each k = ok (offer 5)

abbrev unloaded : Shop
unloaded = record two { cart = no_shop.cart }

loaded_quantity : (load five_each user unloaded >>= λ s. ok (get_quantity s.cart.contents)) ≡ ok 7
unfolding load bytes text_eq lookup get_quantity adjust sum_quantities
loaded_quantity = refl

-- `add` does not set the identifier, and `empty` finds no cart.
empty_after_add :
    (add market uuid user pot 3 no_shop >>= λ (e, s). ok (get_quantity (empty s).cart.contents))
    ≡ ok 3
unfolding add empty bytes text_eq lookup get_quantity add_listing_to add_to is_full cart_of
    row_quantity add_fitting in_cart fitting is_positive sum_quantities int_add int_less add_item
empty_after_add = refl
