-- ===== src/Payment/Reads.antt =====
-- GetPayment and GetPaymentsByOrderIDs of services/payment/internal/app/payment_service.go.
use system_design_ecommerce.Table.{select_all}
use system_design_ecommerce.Prelude.{ℕ, Bool, not, Option, List, [], ◌∷◌, length, ltb, ◌==◌}
use system_design_ecommerce.Errors.{
  sentinel, fault, invalid_input, Result, ok, refuse_if, ◌>>=◌, ◌>>◌,
}
use system_design_ecommerce.Text.{Text, text_eq}
use system_design_ecommerce.Uuid.{parse_uuid}
use system_design_ecommerce.Payment.Domain.{Sentinel, Payment, payment_not_found}
use system_design_ecommerce.Payment.Store.{Store, find_by_id, find_by_order_ids}

-- maxOrderIDs
abbrev pub max_order_ids : ℕ
max_order_ids = 100

-- GetPayment
unfoldable pub get_payment : (Text → Option Text) → Text → Text → Store → Result Sentinel Payment
get_payment uuid_of user_id payment_id s = do
  user ← parse_uuid uuid_of "user_id" user_id
  id ← parse_uuid uuid_of "id" payment_id
  (p, _) ← find_by_id id s
  refuse_if (not (text_eq p.user_id user)) (sentinel payment_not_found)
  ok p

-- the loop over query.OrderIDs
unfoldable pub parse_order_ids : (Text → Option Text) → List Text → Result Sentinel (List Text)
parse_order_ids uuid_of [] = ok []
parse_order_ids uuid_of (raw ∷ rest) = do
  id ← parse_uuid uuid_of "order_id" raw
  ids ← parse_order_ids uuid_of rest
  ok (id ∷ ids)

-- the attempts that belong to the caller
unfoldable pub mine : Text → List Payment → List Payment
mine user_id found = select_all (λ p. text_eq p.user_id user_id) found

-- GetPaymentsByOrderIDs; `first` is the order in which the query lists
unfoldable pub get_payments_by_order_ids :
    (Text → Option Text)
    → (Payment → Payment → Bool)
    → Text
    → List Text
    → Store
    → Result Sentinel (List Payment)
unfolding parse_order_ids mine
get_payments_by_order_ids uuid_of first user_id order_ids s = do
  user ← parse_uuid uuid_of "user_id" user_id
  refuse_if (length order_ids == 0) (fault invalid_input "")
  refuse_if (ltb max_order_ids (length order_ids)) (fault invalid_input "")
  ids ← parse_order_ids uuid_of order_ids
  (found, _) ← find_by_order_ids first ids s
  ok (mine user found)
