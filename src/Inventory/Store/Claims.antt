-- ===== src/Inventory/Store/Claims.antt =====
-- The rows that ClaimExpiredReservations gives (reservations.sql).
use system_design_ecommerce.Prelude.{ℕ, Bool, All}
use system_design_ecommerce.Prelude.Int.{ℤ}
use system_design_ecommerce.Text.{Text}
use system_design_ecommerce.Table.Sorted.{All-sort_by, sort_by_unique}
use system_design_ecommerce.Table.Laws.{UniqueKeys}
use system_design_ecommerce.Table.Keys.{
  FoundByKey, All-FoundByKey, All-select_all, All-take, UniqueKeys-select_all, UniqueKeys-take,
}
use system_design_ecommerce.Inventory.Domain.{Reservation}
use system_design_ecommerce.Inventory.Store.{Store, expires_first, claim_expired_reservations}

module _ (locked : Text → Bool) (now : ℤ) (limit : ℕ) (s : Store)
    (unique : UniqueKeys (λ r. r.id) s.reservations) where
  pub claim_expired-found :
      All
        (FoundByKey (λ (r : Reservation). r.id) s.reservations)
        (claim_expired_reservations locked now limit s)
  unfolding claim_expired_reservations
  claim_expired-found =
      All-take (λ (r : Reservation). r.id) _ limit _
        (All-sort_by expires_first _ _ (
          All-select_all (λ (r : Reservation). r.id) _ _ s.reservations
            (All-FoundByKey (λ (r : Reservation). r.id) s.reservations unique)))

  pub claim_expired_unique :
      UniqueKeys (λ (r : Reservation). r.id) (claim_expired_reservations locked now limit s)
  unfolding claim_expired_reservations
  claim_expired_unique =
      UniqueKeys-take (λ (r : Reservation). r.id) limit _
        (sort_by_unique expires_first (λ (r : Reservation). r.id) _
          (UniqueKeys-select_all (λ (r : Reservation). r.id) _ s.reservations unique))
