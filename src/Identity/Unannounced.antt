-- ===== src/Identity/Unannounced.antt =====
-- Register of services/identity/internal/app/user_service.go, where its second write fails.
use system_design_ecommerce.Identity.Account.{User}
use system_design_ecommerce.Text.{Text}
use system_design_ecommerce.Identity.Registration.{after_row, create_user}
use system_design_ecommerce.Prelude.{◌++◌, ◌∷◌, [], ◌≡◌, ap, Bool, arith}
use system_design_ecommerce.Errors.{ok, err, fault, internal}
use system_design_ecommerce.Tx.{conclude, commits, begin_fails, run_tx}
use system_design_ecommerce.Identity.Store.{create_row, Store}

create_row-stored :
    (is_lowered : Text → Bool) (u row : User) (s t : Store)
    → create_row is_lowered u s ≡ ok (row, t)
    → (t ≡ record s { users = s.users ++ row ∷ [] }) × (row.email ≡ u.email) × (row.id ≡ u.id)
unfolding create_row
create_row-stored is_lowered u row s t h = (ground arith, ground arith, ground arith)

-- An account whose row is written while the write of its event fails is answered with an error, and
-- its row stays, with no event in the outbox.
pub create_user-unannounced :
    (is_lowered : Text → Bool) (u row : User) (s t : Store)
    → create_row is_lowered u s ≡ ok (row, t)
    → create_user is_lowered commits begin_fails u s
      ≡ (err (fault internal ""), record s { users = s.users ++ row ∷ [] })
unfolding create_user run_tx conclude after_row
create_user-unannounced is_lowered u row s t h =
    rw h (
      ap (λ (x : Store). (err (fault internal ""), x)) (create_row-stored is_lowered u row s t h).0)
