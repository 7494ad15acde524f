-- ===== src/Market/Cart.antt =====
-- src/core/market/cart.cpp: the cart of a user, in memory and in the tables `cart` and `cart_item` of the
-- database. An `int` or `unsigned int` is the number of its 32 bits; the overflow of a signed sum leaves
-- the defined behaviour. The quantities and the stock that `load` compares are not negative.
-- `get_listing_object` asks the node, over the client, for the listing, and reads the name of its
-- product: it is a parameter that may throw.
pub mod Items
pub mod Kept
pub mod Added
pub mod Limits
pub mod Loaded
use testshop.Prelude.{
  ℕ, zero, suc, ◌+◌, ◌-◌, ◌%◌, ◌^◌, Bool, true, false, ◌&&◌, ◌||◌, not, Option, none, some, List,
  [], ◌∷◌, ◌++◌, Text, text_eq, Dict, lookup, insert, Outcome, ok, throws, faults, ◌>>=◌, ◌==◌, ltb,
  leb, if◌then◌else◌, length,
}
use testshop.Market.Ints.{int_add, int_sub, int_less}

pub data CartError : Type 0 where
  done missing full item_out_of_stock item_quantity_surpassed : CartError
  item_quantity_not_specified seller_add_own_item : CartError

pub record CartItem : Type 0 where
  pub key : Text
  pub quantity : ℕ
  pub seller_id : Text

pub record Cart : Type 0 where
  pub id : Text
  pub owner_id : Text
  pub contents : List CartItem

-- A cart with the database: the carts by user, and the rows of `cart_item` by cart.
pub record Shop : Type 0 where
  pub cart : Cart
  pub carts : Dict Text
  pub cart_items : Dict (List CartItem)

-- What `add` and `load` read of a listing: its seller and its quantity, where they are there.
pub record Listing : Type 0 where
  pub seller_id : Option Text
  pub quantity : Option ℕ

abbrev pub max_items : ℕ
max_items = 10

abbrev pub max_quantity : ℕ
max_quantity = 100

unfoldable pub sum_quantities : List CartItem → ℕ
sum_quantities [] = 0
sum_quantities (item ∷ items) = item.quantity + sum_quantities items

-- An `int`, by its bits, which `is_full` compares as unsigned. Also SELECT SUM(quantity), of which
-- the lower 32 bits are read.
unfoldable pub get_quantity : List CartItem → ℕ
get_quantity items = sum_quantities items % 2 ^ 32

-- The position of the listing, or the size where it is not there.
unfoldable pub get_listing_index : Text → List CartItem → ℕ
get_listing_index listing_key [] = 0
get_listing_index listing_key (item ∷ items) =
    let rest = suc (get_listing_index listing_key items) in
    if text_eq item.key listing_key then 0 else rest

unfoldable pub in_cart : Text → List CartItem → Bool
in_cart listing_key [] = false
in_cart listing_key (item ∷ items) = text_eq item.key listing_key || in_cart listing_key items

unfoldable pub is_full : List CartItem → Bool
is_full contents = leb max_items (length contents) || leb max_quantity (get_quantity contents)

-- `contents[i].quantity = quantity`, out of bounds at the size.
unfoldable pub set_quantity_at : ℕ → ℕ → List CartItem → Outcome (List CartItem)
set_quantity_at i quantity [] = faults
set_quantity_at zero quantity (item ∷ items) = ok (record item { quantity = quantity } ∷ items)
set_quantity_at (suc i) quantity (item ∷ items) =
    set_quantity_at i quantity items >>= λ items'. ok (item ∷ items')

-- SELECT quantity ... WHERE listing_key, 0 where there is no row
unfoldable pub row_quantity : Text → List CartItem → ℕ
row_quantity listing_key [] = 0
row_quantity listing_key (row ∷ rows) =
    let rest = row_quantity listing_key rows in
    if text_eq row.key listing_key then row.quantity else rest

-- UPDATE cart_item SET quantity ... WHERE listing_key
unfoldable pub update_rows : Text → ℕ → List CartItem → List CartItem
update_rows listing_key quantity [] = []
update_rows listing_key quantity (row ∷ rows) =
    let rest = update_rows listing_key quantity rows in
    if text_eq row.key listing_key then record row { quantity = quantity } ∷ rest else row ∷ rest

-- INSERT INTO cart_item, which the unique index refuses where the listing has a row.
unfoldable pub insert_row : CartItem → List CartItem → List CartItem
insert_row item rows = if in_cart item.key rows then rows else rows ++ item ∷ []

abbrev or_none : Option (List CartItem) → List CartItem
or_none none = []
or_none (some rows) = rows

abbrev pub rows_of : Text → Shop → List CartItem
rows_of cart_id s = or_none (lookup cart_id s.cart_items)

abbrev pub text_of : Option Text → Text
text_of none = []
text_of (some t) = t

abbrev pub stock_of : Option ℕ → ℕ
stock_of none = 0
stock_of (some n) = n

-- The cart of the user, made where there is none; `uuid` is the one that would be generated.
unfoldable pub cart_of : Text → Text → Shop → Text × Shop
cart_of uuid user_id s =
    let cart_id = text_of (lookup user_id s.carts) in
    if text_eq cart_id []
    then (uuid, record s { carts = insert user_id uuid s.carts })
    else (cart_id, s)

abbrev pub with_items : Text → List CartItem → List CartItem → Shop → Shop
with_items cart_id rows contents s = record s {
  cart = record s.cart { contents = contents };
  cart_items = insert cart_id rows s.cart_items;
}

-- A new quantity of a listing, in the database and then in memory.
unfoldable pub set_quantity : Text → Text → ℕ → Shop → Outcome Shop
set_quantity cart_id listing_key quantity s = do
  contents ←
      set_quantity_at (get_listing_index listing_key s.cart.contents) quantity s.cart.contents
  ok (with_items cart_id (update_rows listing_key quantity (rows_of cart_id s)) contents s)

abbrev pub done_with : Shop → Outcome (CartError × Shop)
done_with s = ok (done, s)

-- What fits into the cart: `max_quantity - cart_qty` is unsigned.
unfoldable pub fitting : ℕ → ℕ → Outcome ℕ
fitting cart_qty quantity = do
  total ← int_add cart_qty quantity
  ok (if ltb max_quantity total then (max_quantity + 2 ^ 32 - cart_qty) % 2 ^ 32 else quantity)

-- What `load` keeps of a quantity.
abbrev pub cut_to : ℕ → ℕ → ℕ
cut_to stock_available quantity = if leb stock_available quantity then stock_available else quantity

-- `quantity > 0`, of an `int`
unfoldable pub is_positive : ℕ → Bool
is_positive quantity = ltb 0 quantity && ltb quantity (2 ^ 31)

-- A listing that is in the cart gets a quantity more.
unfoldable pub add_more : Text → Text → ℕ → Shop → Outcome (CartError × Shop)
add_more cart_id listing_key quantity s = do
  new_quantity ← int_add (row_quantity listing_key (rows_of cart_id s)) quantity
  s' ← set_quantity cart_id listing_key new_quantity s
  done_with s'

-- A listing with its quantity comes to the cart.
unfoldable pub add_item : Text → CartItem → Shop → Outcome (CartError × Shop)
add_item cart_id item s =
    done_with
      (with_items cart_id (insert_row item (rows_of cart_id s)) (s.cart.contents ++ item ∷ []) s)

-- `add` of a quantity that the stock allows.
unfoldable pub add_fitting : Text → Text → Text → ℕ → Shop → Outcome (CartError × Shop)
add_fitting cart_id listing_key seller_id quantity s = do
  quantity' ← fitting (get_quantity (rows_of cart_id s)) quantity
  if in_cart listing_key s.cart.contents && is_positive quantity'
      then add_more cart_id listing_key quantity' s
      else add_item cart_id
          (record { key = listing_key; quantity = quantity'; seller_id = seller_id }) s

-- `add` of more than the stock has.
unfoldable pub add_remainder : Text → Text → ℕ → Shop → Outcome (CartError × Shop)
add_remainder cart_id listing_key stock_available s =
    let item_qty = row_quantity listing_key (rows_of cart_id s) in
    (int_sub stock_available item_qty >>= λ remainder.
    if remainder == 0
    then ok (item_quantity_surpassed, s)
    else (int_add item_qty remainder >>= λ quantity.
        set_quantity cart_id listing_key quantity s >>= done_with))

-- `add` to a cart that is there.
unfoldable pub add_to : Text → Text → Text → ℕ → ℕ → Shop → Outcome (CartError × Shop)
add_to cart_id listing_key seller_id stock_available quantity s =
    if is_full s.cart.contents
    then ok (full, s)
    else if stock_available == 0
    then ok (item_out_of_stock, s)
    else (int_add (row_quantity listing_key (rows_of cart_id s)) quantity >>= λ wanted.
        if int_less stock_available wanted
        then add_remainder cart_id listing_key stock_available s
        else add_fitting cart_id listing_key seller_id quantity s)

-- The user may not be the seller; `added` is what comes after.
abbrev pub unless_own :
    Text → Option Text → Shop → Outcome (CartError × Shop) → Outcome (CartError × Shop)
unless_own user_id none s added = added
unless_own user_id (some seller_id) s added =
    if text_eq seller_id user_id then ok (seller_add_own_item, s) else added

module _ (get_listing_object : Text → Outcome Listing) (uuid : Text) where
  unfoldable pub add_listing_to : Text → Text → ℕ → Listing → Shop → Outcome (CartError × Shop)
  add_listing_to user_id listing_key quantity listing s =
      let (cart_id, s') = cart_of uuid user_id s in
      let added =
        add_to cart_id listing_key (text_of listing.seller_id) (stock_of listing.quantity) quantity
          s' in
      unless_own user_id listing.seller_id s added

  unfoldable pub add : Text → Text → ℕ → Shop → Outcome (CartError × Shop)
  add user_id listing_key quantity s =
      let added : Outcome (CartError × Shop) =
        (get_listing_object listing_key >>= λ listing.
        add_listing_to user_id listing_key quantity listing s) in
      if is_positive quantity then added else ok (item_quantity_not_specified, s)

module _ (get_listing_object : Text → Outcome Listing) where
  -- The last loop of `load`: every quantity is cut to the stock. Where nothing is in stock, the item
  -- is erased from the vector that the loop runs over, whose iterators are then invalid.
  unfoldable pub adjust : List CartItem → List CartItem → Outcome (List CartItem × List CartItem)
  adjust [] rows = ok ([], rows)
  adjust (item ∷ items) rows = get_listing_object item.key >>= λ listing.
      let stock_available = stock_of listing.quantity in
      let quantity = cut_to stock_available item.quantity in
      let rest = adjust items (update_rows item.key quantity rows) in
      let more =
        rest >>= λ (items', rows'). ok (record item { quantity = quantity } ∷ items', rows') in
      if stock_available == 0 then faults else more

  -- `load`, where no call of the database fails.
  unfoldable pub load : Text → Shop → Outcome Shop
  load user_id s =
      let cart_id = text_of (lookup user_id s.carts) in
      (adjust (s.cart.contents ++ rows_of cart_id s) (rows_of cart_id s) >>= λ (contents, rows).
      ok (record s {
        cart = record { id = cart_id; owner_id = user_id; contents = contents };
        cart_items = insert cart_id rows s.cart_items;
      }))

-- `empty`, which knows the cart by the identifier that `load` set.
unfoldable pub empty : Shop → Shop
empty s = if text_eq s.cart.id [] then s else record s {
  cart = record s.cart { contents = [] };
  cart_items = insert s.cart.id [] s.cart_items;
}
