-- ===== src/Market/Cart/Loaded.antt =====
-- src/core/market/cart.cpp: what `load` makes of the rows of the database.
use testshop.Prelude.{◌≡◌, ◌<◌, ◌≤◌, true, List, [], ◌∷◌, ◌++◌, Text, Outcome, ok, length}
use testshop.Market.Cart.{CartItem, Listing, stock_of}
use testshop.Market.Cart.Items.{distinct}

module _ (get_listing_object : Text → Outcome Listing) where
  -- The market has each listing, with at least the quantity of the item.
  unfoldable pub InStock : List CartItem → Type 0
  InStock [] = Unit
  InStock (item ∷ items) =
      ((listing : Listing) × (get_listing_object item.key ≡ ok listing)
        × (0 < stock_of listing.quantity)
        × (item.quantity ≤ stock_of listing.quantity))
      × InStock items

  -- What is left of rows that are `pre` and `items` in turn, after the loop over `items`.
  abbrev Adjusted : List CartItem → List CartItem → List CartItem × List CartItem → Type 0
  Adjusted pre items (items', rows') =
      (rows' ≡ pre ++ items')
      × (distinct rows' ≡ true)
      × (length rows' ≡ length (pre ++ items))
      × InStock items'
