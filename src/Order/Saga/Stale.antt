-- ===== src/Order/Saga/Stale.antt =====
-- The transaction of ExpireStaleOrders (saga_timeout.go), on the orders and the outbox.
use system_design_ecommerce.Order.Saga.{settle_stale, expire_stale_tx, sweep_stale}
use system_design_ecommerce.Prelude.{
  ℕ, ◌+◌, ◌≡◌, refl, ◌∙◌, subst, Bool, true, false, List, [], ◌∷◌, All, map, arith,
}
use system_design_ecommerce.Prelude.Int.{◌-ℤ◌, ℤ}
use system_design_ecommerce.Errors.{Result, ok, err, >>=-eq-ok}
use system_design_ecommerce.Text.{Text, text_eq}
use system_design_ecommerce.Table.Sorted.{All-sort_by, sort_by_unique}
use system_design_ecommerce.Table.Keys.{
  FoundByKey, All-FoundByKey, All-select_all, All-take, UniqueKeys-select_all, UniqueKeys-take,
}
use system_design_ecommerce.Table.Laws.{UniqueKeys}
use system_design_ecommerce.Order.Domain.{Sentinel, Order, OrderLine, expire}
use system_design_ecommerce.Order.Store.{
  claim_stale_orders, Store, stale_rows, placed_first, to_domain, update, narrow,
}
use system_design_ecommerce.Order.Saga.Announced.{
  IsAnnounced, Advanced, update-Advanced, expire-Raised,
}

abbrev id_of : Order → Text
id_of o = o.id

module _ (locked : Text → Bool) (before : ℤ) (limit : ℕ) (s : Store)
    (unique : UniqueKeys id_of s.orders) where
  stale_rows-found : All (FoundByKey id_of s.orders) (stale_rows locked before limit s)
  unfolding stale_rows
  stale_rows-found = All-take id_of _ limit _ (
      All-sort_by placed_first _ _
        (All-select_all id_of _ _ s.orders (All-FoundByKey id_of s.orders unique)))

  stale_rows_unique : UniqueKeys id_of (stale_rows locked before limit s)
  unfolding stale_rows
  stale_rows_unique =
      UniqueKeys-take id_of limit _
        (sort_by_unique placed_first id_of _ (UniqueKeys-select_all id_of _ s.orders unique))

still_found :
    (row : Order) (rows : List Order) (s s' : Store)
    → Advanced row s s'
    → All (λ x. text_eq x.id row.id ≡ false) rows
    → All (FoundByKey id_of s.orders) rows
    → All (FoundByKey id_of s'.orders) rows
still_found row [] s s' w a f = tt
still_found row (x ∷ rows) s s' w a f =
    (w.others x.id a.0 ∙ f.0, still_found row rows s s' w a.1 f.1)

nothing-Advanced : (row : Order) (s : Store) → IsAnnounced s → Advanced row s s
nothing-Advanced row s c = record { announces = c; others = λ k ne. refl }

module _ (order_by_sku : List OrderLine → List OrderLine) where
  settle_stale-Advanced :
      (now window : ℤ) (row : Order) (x : Result Sentinel (Order × Bool)) (s s' : Store) {n : ℕ}
      → IsAnnounced s
      → FoundByKey id_of s.orders row
      → expire now window (to_domain order_by_sku row) ≡ x
      → settle_stale order_by_sku x s ≡ ok (n, s')
      → Advanced row s s'
  unfolding settle_stale
  settle_stale-Advanced now window row (err e) s s' c f x h =
      subst (Advanced row s) (ground arith) (nothing-Advanced row s c)
  settle_stale-Advanced now window row (ok (o, false)) s s' c f x h =
      subst (Advanced row s) (ground arith) (nothing-Advanced row s c)
  settle_stale-Advanced now window row (ok (o, true)) s s' c f x h =
      let ((r, t), e, last) = >>=-eq-ok (update order_by_sku o s) (λ (_, t). ok (1, t)) h in
      subst (Advanced row s) (ground arith) (
        update-Advanced order_by_sku row o s t c f (expire-Raised order_by_sku now window row o x)
          e)

  sweep_stale-IsAnnounced :
      (now window : ℤ) (rows : List Order) (swept : ℕ) (s s' : Store) {n : ℕ}
      → IsAnnounced s
      → All (FoundByKey id_of s.orders) rows
      → UniqueKeys id_of rows
      → sweep_stale order_by_sku now window (map (to_domain order_by_sku) rows) swept s ≡ ok (n, s')
      → IsAnnounced s'
  unfolding sweep_stale
  sweep_stale-IsAnnounced now window [] swept s s' c f u h = subst IsAnnounced (ground arith) c
  sweep_stale-IsAnnounced now window (row ∷ rows) swept s s' c f u h =
      let ((k, t), one, rest) =
        >>=-eq-ok (settle_stale order_by_sku (expire now window (to_domain order_by_sku row)) s)
          (λ (k, t).
            sweep_stale order_by_sku now window (map (to_domain order_by_sku) rows) (swept + k) t)
          h in
      let w = settle_stale-Advanced now window row _ s t c f.0 refl one in
      sweep_stale-IsAnnounced now window rows (swept + k) t s' w.announces
        (still_found row rows s t w u.0 f.1) u.1 rest

  pub expire_stale_tx-IsAnnounced :
      (locked : Text → Bool) (now window limit : ℤ) (s s' : Store) {n : ℕ}
      → IsAnnounced s
      → expire_stale_tx order_by_sku locked now window limit s ≡ ok (n, s')
      → IsAnnounced s'
  unfolding expire_stale_tx claim_stale_orders
  expire_stale_tx-IsAnnounced locked now window limit s s' c h =
      sweep_stale-IsAnnounced now window (stale_rows locked (now -ℤ window) (narrow limit) s) 0 s s'
        c (stale_rows-found locked (now -ℤ window) (narrow limit) s c.unique_ids)
        (stale_rows_unique locked (now -ℤ window) (narrow limit) s c.unique_ids) h
