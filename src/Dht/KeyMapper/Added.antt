-- ===== src/Dht/KeyMapper/Added.antt =====
-- What `KeyMapper::add` (src/core/protocol/p2p/key_mapper.cpp) adds to the index.
use testshop.Prelude.{
  ◌≡◌, refl, sym, ap, ◌∙◌, Bool, true, false, Option, none, some, List, [], ◌∷◌, ◌++◌, append-nil,
  append_assoc, Text, bytes, text_eq, text_eq_iff, text_eq_refl, lookup-insert, ok, >>=-eq-ok,
  ok_injective, if◌then◌else◌, All, All-append, arith, Bool-cases, inl, inr, subst,
}
use testshop.Dht.Platform.{Platform, string_at, get_string}
use testshop.Dht.KeyMapper.{
  Index, KeyMapper, keys_at, push, push_string, push_each, add_user, add_product, product_part,
  add_listing, add_order, add_kind, add_terms,
}

-- Under each term the keys are those of before, followed by copies of the one key.
abbrev pub Extends : Text → Index → Index → Type 0
Extends key before after =
    (term : Text)
    → (more : List Text) × All (λ (k : Text). k ≡ key) more
      × (keys_at term after ≡ keys_at term before ++ more)

module _ (key : Text) where
  Extends-refl : (i : Index) → Extends key i i
  Extends-refl i term = ([], tt, sym (append-nil (keys_at term i)))

  Extends-trans : (i j k : Index) → Extends key i j → Extends key j k → Extends key i k
  Extends-trans i j k a b term =
      let (xs, xk, xe) = a term in
      let (ys, yk, ye) = b term in
      (
        xs ++ ys,
        All-append (λ (k : Text). k ≡ key) xs ys xk yk,
        ye ∙ ap (λ (l : List Text). l ++ ys) xe ∙ append_assoc (keys_at term i) xs ys,
      )

  keys_at-push :
      (t term : Text) (i : Index)
      → keys_at term (push key t i)
        ≡ (if text_eq t term then keys_at t i ++ key ∷ [] else keys_at term i)
  unfolding push
  keys_at-push t term i = ground (arith, lookup-insert t term (keys_at t i ++ key ∷ []) i)

  push-Extends : (t : Text) (i : Index) → Extends key i (push key t i)
  push-Extends t i term = elim (Bool-cases (text_eq t term)) [
    | inl same ↦
        let e : t ≡ term = (text_eq_iff t term).0 same in
        (
          key ∷ [],
          (refl, tt),
          keys_at-push t term i ∙ rw same (ap (λ (x : Text). keys_at x i ++ key ∷ []) e),
        )
    | inr other ↦ ([], tt, keys_at-push t term i ∙ rw other (sym (append-nil (keys_at term i))))
  ]

  push_string-Extends : (t : Option Text) (i : Index) → Extends key i (push_string key t i)
  unfolding push_string
  push_string-Extends none i = Extends-refl i
  push_string-Extends (some t) i = push-Extends t i

  push_each-Extends : (ts : List (Option Text)) (i : Index) → Extends key i (push_each key ts i)
  unfolding push_each
  push_each-Extends [] i = Extends-refl i
  push_each-Extends (t ∷ ts) i =
      Extends-trans i (push_string key t i) (push_each key ts (push_string key t i))
        (push_string-Extends t i) (push_each-Extends ts (push_string key t i))

-- The fifteen indexes by name.
pub data Field : Type 0 where
  in_user_ids in_display_names in_product_ids in_product_names in_product_categories in_product_tags
        in_product_codes in_listing_ids :
      Field
  in_seller_ids in_listing_locations in_order_ids in_order_recipients in_product_ratings
        in_seller_ratings in_messages :
      Field

abbrev pub index_at : Field → KeyMapper → Index
index_at in_user_ids m = m.user_ids
index_at in_display_names m = m.display_names
index_at in_product_ids m = m.product_ids
index_at in_product_names m = m.product_names
index_at in_product_categories m = m.product_categories
index_at in_product_tags m = m.product_tags
index_at in_product_codes m = m.product_codes
index_at in_listing_ids m = m.listing_ids
index_at in_seller_ids m = m.seller_ids
index_at in_listing_locations m = m.listing_locations
index_at in_order_ids m = m.order_ids
index_at in_order_recipients m = m.order_recipients
index_at in_product_ratings m = m.product_ratings
index_at in_seller_ratings m = m.seller_ratings
index_at in_messages m = m.messages

-- Each of the fifteen indexes is extended by the one key.
abbrev pub ExtendsAll : Text → KeyMapper → KeyMapper → Type 0
ExtendsAll key m m' = (f : Field) → Extends key (index_at f m) (index_at f m')

module _ (p : Platform) (key : Text) where
  open p use {Value, parse, is_object, member}

  add_user-ExtendsAll : (json : Value) (m : KeyMapper) → ExtendsAll key m (add_user p key json m)
  unfolding add_user
  add_user-ExtendsAll json m in_user_ids = push_string-Extends key _ m.user_ids
  add_user-ExtendsAll json m in_display_names = push_string-Extends key _ m.display_names
  add_user-ExtendsAll json m _ = Extends-refl key _

  add_product-ExtendsAll :
      (product : Value) (m : KeyMapper) → ExtendsAll key m (add_product p key product m)
  unfolding add_product
  add_product-ExtendsAll product m in_product_ids = push_string-Extends key _ m.product_ids
  add_product-ExtendsAll product m in_product_names = push_string-Extends key _ m.product_names
  add_product-ExtendsAll product m in_product_categories =
      Extends-trans key m.product_categories
        (push_string key (string_at p product (bytes "category")) m.product_categories) _
        (push_string-Extends key _ m.product_categories) (push_each-Extends key _ _)
  add_product-ExtendsAll product m in_product_tags = push_each-Extends key _ m.product_tags
  add_product-ExtendsAll product m in_product_codes = push_string-Extends key _ m.product_codes
  add_product-ExtendsAll product m _ = Extends-refl key _

  product_part-ExtendsAll :
      (o : Option Value) (m : KeyMapper) → ExtendsAll key m (product_part p key o m)
  unfolding product_part
  product_part-ExtendsAll none m f = Extends-refl key _
  product_part-ExtendsAll (some product) m f = elim (Bool-cases (is_object product)) [
    | inr other ↦ rw (product_part, other) (Extends-refl key (index_at f m))
    | inl object ↦ rw (product_part, object) (add_product-ExtendsAll product m f)
  ]

  add_listing-ExtendsAll :
      (json : Value) (m : KeyMapper) → ExtendsAll key m (add_listing p key json m)
  unfolding add_listing
  add_listing-ExtendsAll json m f =
      Extends-trans key (index_at f m) (index_at f m') (index_at f (add_listing p key json m))
        (product_part-ExtendsAll (member json (bytes "product")) m f) (rest f)
    where
      m' : KeyMapper
      m' = product_part p key (member json (bytes "product")) m

      rest : ExtendsAll key m' (add_listing p key json m)
      rest in_listing_ids = push_string-Extends key _ m'.listing_ids
      rest in_seller_ids = push_string-Extends key _ m'.seller_ids
      rest in_listing_locations = push_string-Extends key _ m'.listing_locations
      rest _ = Extends-refl key _

  add_order-ExtendsAll : (json : Value) (m : KeyMapper) → ExtendsAll key m (add_order p key json m)
  unfolding add_order
  add_order-ExtendsAll json m in_order_ids = push_string-Extends key _ m.order_ids
  add_order-ExtendsAll json m in_order_recipients = push_each-Extends key _ m.order_recipients
  add_order-ExtendsAll json m _ = Extends-refl key _

  -- The three kinds with one index.
  one-ExtendsAll :
      (t : Option Text) (m : KeyMapper)
      → ExtendsAll key m (record m { product_ratings = push_string key t m.product_ratings })
        × ExtendsAll key m (record m { seller_ratings = push_string key t m.seller_ratings })
        × ExtendsAll key m (record m { messages = push_string key t m.messages })
  one-ExtendsAll t m = (ratings, sellers, recipients)
    where
      ratings :
          ExtendsAll key m (record m { product_ratings = push_string key t m.product_ratings })
      ratings in_product_ratings = push_string-Extends key t m.product_ratings
      ratings _ = Extends-refl key _

      sellers : ExtendsAll key m (record m { seller_ratings = push_string key t m.seller_ratings })
      sellers in_seller_ratings = push_string-Extends key t m.seller_ratings
      sellers _ = Extends-refl key _

      recipients : ExtendsAll key m (record m { messages = push_string key t m.messages })
      recipients in_messages = push_string-Extends key t m.messages
      recipients _ = Extends-refl key _

  pick :
      (b : Bool) (m x y : KeyMapper)
      → ExtendsAll key m x
      → ExtendsAll key m y
      → ExtendsAll key m (if b then x else y)
  pick true m x y a b' = a
  pick false m x y a b' = b'

  add_kind-ExtendsAll :
      (metadata : Text) (json : Value) (m : KeyMapper)
      → ExtendsAll key m (add_kind p key metadata json m)
  unfolding add_kind
  add_kind-ExtendsAll metadata json m = pick _ m _ _ (add_user-ExtendsAll json m) (
      pick _ m _ _ (add_listing-ExtendsAll json m) (
        pick _ m _ _ (add_order-ExtendsAll json m) (
          pick _ m _ _ (one-ExtendsAll _ m).0 (
            pick _ m _ _ (one-ExtendsAll _ m).1
              (pick _ m _ _ (one-ExtendsAll _ m).2 (λ f. Extends-refl key _))))))

  -- The terms that `add` adds keep, under every term of every index, the keys that were there, in
  -- their order, and put nothing but the value's own key after them.
  pub add_terms-ExtendsAll :
      (json : Value) (m m' : KeyMapper) → add_terms p key json m ≡ ok m' → ExtendsAll key m m'
  unfolding add_terms
  add_terms-ExtendsAll json m m' h =
      let (metadata, em, h') = >>=-eq-ok (get_string p json (bytes "metadata")) _ h in
      subst (λ (x : KeyMapper). ExtendsAll key m x) (ok_injective h')
        (add_kind-ExtendsAll metadata json m)

  product_part-listing :
      (o : Option Value) (m : KeyMapper)
      → ((product_part p key o m).listing_ids ≡ m.listing_ids)
        × ((product_part p key o m).seller_ids ≡ m.seller_ids)
  unfolding product_part add_product
  product_part-listing none m = (refl, refl)
  product_part-listing (some product) m = elim (Bool-cases (is_object product)) [
    | inr other ↦ rw (product_part, other) (refl, refl)
    | inl object ↦ rw (product_part, object) (refl, refl)
  ]

  keys_at-push_self : (t : Text) (i : Index) → keys_at t (push key t i) ≡ keys_at t i ++ key ∷ []
  keys_at-push_self t i = keys_at-push key t t i ∙ rw (text_eq_refl t) refl

  -- The terms of a listing that names an identifier and a seller put the key last under both.
  pub add_listing_terms :
      (id seller : Text) (json : Value) (m : KeyMapper)
      → string_at p json (bytes "metadata") ≡ some (bytes "listing")
      → string_at p json (bytes "id") ≡ some id
      → string_at p json (bytes "seller_id") ≡ some seller
      → (m' : KeyMapper) × (add_terms p key json m ≡ ok m')
        × (keys_at id m'.listing_ids ≡ keys_at id m.listing_ids ++ key ∷ [])
        × (keys_at seller m'.seller_ids ≡ keys_at seller m.seller_ids ++ key ∷ [])
  unfolding add_terms add_kind add_listing push_string bytes text_eq
  add_listing_terms id seller json m em ei es =
      let (ids, sellers) = product_part-listing (member json (bytes "product")) m in
      (
        add_listing p key json m,
        rw (add_terms, em) refl,
        rw (add_listing, ei, ids) (keys_at-push_self id m.listing_ids),
        rw (add_listing, es, sellers) (keys_at-push_self seller m.seller_ids),
      )
