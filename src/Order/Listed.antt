-- ===== src/Order/Listed.antt =====
-- The pages of ListOrders of services/order/internal/app/order_service.go.
use Prim.Native.Nat.{min}
use system_design_ecommerce.Table.Sorted.{All-sort_by}
use system_design_ecommerce.Table.{select_all}
use system_design_ecommerce.Text.{text_eq→eq, text_eq, Text}
use system_design_ecommerce.Uuid.{parse_uuid}
use system_design_ecommerce.Prelude.Int.{negsuc, pos, ℤ}
use system_design_ecommerce.Prelude.{
  ◌⊎◌, ◌<◌, true, refl, subst, &&-both, length-take, map, Option, Bool-cases, ltb, tests, ◌&&◌, suc,
  zero, inr, inl, ◌∷◌, [], List, ℕ, ◌+◌, ◌≤◌, ◌≡◌, false, length, take, arith, All,
}
use system_design_ecommerce.Errors.{Result, ok, >>=-eq-ok, ok-injective}
use system_design_ecommerce.Order.Domain.{Sentinel, Order, OrderLine}
use system_design_ecommerce.Order.Store.{Store, to_domain, narrow}
use system_design_ecommerce.Order.Placing.{
  before, OrderCursor, list_orders, rows_of_user, newest_first,
}
use system_design_ecommerce.Order.Pages.{decode_cursor, list, page_of, page_size, OrdersPage, Codec}

-- What a request for a size counts as: itself up to 100, and 20 where it is not positive.
abbrev pub IsAsked : ℤ → ℕ → Type 0
IsAsked (pos zero) n = n ≡ 20
IsAsked (pos (suc m)) n = ((suc m ≤ 100) × (n ≡ suc m)) ⊎ ((100 < suc m) × (n ≡ 100))
IsAsked (negsuc m) n = n ≡ 20

page_size-IsAsked : (size : ℤ) → IsAsked size (page_size size)
unfolding page_size
page_size-IsAsked (pos zero) = refl
page_size-IsAsked (pos (suc m)) = ground arith
page_size-IsAsked (negsuc m) = ground arith

-- A page ends the list, or it is full.
abbrev pub IsFilled : ℕ → OrdersPage → Type 0
IsFilled n page =
    (length page.orders ≤ n) × ((page.next_page_token ≡ []) ⊎ (length page.orders ≡ n))

page_of-IsFilled :
    (codec : Codec) (size : ℕ) (orders : List Order) → IsFilled size (page_of codec size orders)
unfolding page_of
page_of-IsFilled codec size orders = elim (Bool-cases (ltb size (length orders))) [
  | inl y ↦ rw y (rw (length-take size orders) (omega arith, inr (above (length orders) size y)))
  | inr n ↦ rw n (at_most (length orders) size n, inl refl)
]
  where
    above : (a b : ℕ) → ltb b a ≡ true → min b a ≡ b
    above a b h = grind tests

    at_most : (a b : ℕ) → ltb b a ≡ false → a ≤ b
    at_most a b h = grind tests

-- Orders of one user.
abbrev pub AllOf : Text → List Order → Type 0
AllOf user = All (λ (o : Order). o.user_id ≡ user)

AllOf-take : (user : Text) (n : ℕ) (t : List Order) → AllOf user t → AllOf user (take n t)
AllOf-take user zero t h = tt
AllOf-take user (suc n) [] h = tt
AllOf-take user (suc n) (o ∷ t) h = (h.0, AllOf-take user n t h.1)

AllOf-selected :
    (user : Text) (after : Option OrderCursor) (t : List Order)
    → AllOf user (select_all (λ r. text_eq r.user_id user && before after r) t)
AllOf-selected user after [] = tt
AllOf-selected user after (r ∷ t) = elim (Bool-cases (text_eq r.user_id user && before after r)) [
  | inl y ↦ rw y (
    text_eq→eq r.user_id user (&&-both (text_eq r.user_id user) (before after r) y).0,
    AllOf-selected user after t,
  )
  | inr n ↦ rw n (AllOf-selected user after t)
]

AllOf-map :
    (order_by_sku : List OrderLine → List OrderLine) (user : Text) (t : List Order)
    → AllOf user t
    → AllOf user (map (to_domain order_by_sku) t)
AllOf-map order_by_sku user [] h = tt
AllOf-map order_by_sku user (o ∷ t) h = (h.0, AllOf-map order_by_sku user t h.1)

AllOf-list_orders :
    (order_by_sku : List OrderLine → List OrderLine) (user : Text) (after : Option OrderCursor)
    (limit : ℤ) (s : Store)
    → AllOf user (list_orders order_by_sku user after limit s)
unfolding list_orders rows_of_user
AllOf-list_orders order_by_sku user after limit s = AllOf-map order_by_sku user _ (
    AllOf-take user (narrow limit) _ (
      All-sort_by newest_first (λ (o : Order). o.user_id ≡ user) _
        (AllOf-selected user after s.orders)))

AllOf-page_of :
    (codec : Codec) (size : ℕ) (user : Text) (t : List Order)
    → AllOf user t
    → AllOf user (page_of codec size t).orders
unfolding page_of
AllOf-page_of codec size user t h = elim (Bool-cases (ltb size (length t))) [
  | inl y ↦ rw y (AllOf-take user size t h)
  | inr n ↦ rw n h
]

-- A page of ListOrders has at most the size that was asked for, where a size above 100 counts as 100
-- and one that is not positive as 20; a page with a token for the next one has exactly that size; and
-- it holds orders of the caller only.
pub list-bounds :
    (order_by_sku : List OrderLine → List OrderLine) (uuid_of : Text → Option Text) (codec : Codec)
    (user_id : Text) (size : ℤ) (token : Text) (s : Store) (page : OrdersPage)
    → list order_by_sku uuid_of codec user_id size token s ≡ ok page
    → (n : ℕ) × IsAsked size n
      × IsFilled n page
      × ((user : Text) × (◌≡◌ {A = Result Sentinel Text}
            (parse_uuid uuid_of "user_id" user_id)
            (ok user))
          × AllOf user page.orders)
unfolding list
list-bounds order_by_sku uuid_of codec user_id size token s page h =
    let (user, u, rest) = >>=-eq-ok (parse_uuid uuid_of "user_id" user_id) _ h in
    let (after, a, rest) = >>=-eq-ok (decode_cursor codec uuid_of token) _ rest in
    let rows = list_orders order_by_sku user after (pos (page_size size + 1)) s in
    let same : page_of codec (page_size size) rows ≡ page = ok-injective rest in
    (
      page_size size,
      page_size-IsAsked size,
      subst (IsFilled (page_size size)) same (page_of-IsFilled codec (page_size size) rows),
      (
        user,
        u,
        subst (λ (x : OrdersPage). AllOf user x.orders) same
            (AllOf-page_of codec (page_size size) user rows
              (AllOf-list_orders order_by_sku user after (pos (page_size size + 1)) s)),
      ),
    )
