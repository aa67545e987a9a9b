-- ===== src/Payment/Owned.antt =====
-- Whose attempts the reads of payment_service.go give.
use system_design_ecommerce.Errors.{refuse_if-eq-ok}
use system_design_ecommerce.Payment.Paid.{found-row}
use system_design_ecommerce.Uuid.{parse_uuid}
use system_design_ecommerce.Table.{select_one}
use system_design_ecommerce.Text.{text_eq→eq, text_eq, Text}
use system_design_ecommerce.Payment.Reads.{
  parse_order_ids, max_order_ids, get_payments_by_order_ids, get_payment, mine,
}
use system_design_ecommerce.Errors.{
  invalid_input, >>=-eq-ok, Result, fault, sentinel, ok-injective, ok,
}
use system_design_ecommerce.Prelude.{
  ℕ, subst, tests, ltb, not, length, String, ◌==◌, ◌<◌, ◌≤◌, Bool-cases, All, Bool, false, inr, inl,
  ◌≡◌, refl, sym, ◌∙◌, ap, Option, some, List, [], ◌∷◌, arith,
}
use system_design_ecommerce.Payment.Domain.{payment_not_found, Sentinel, Payment}
use system_design_ecommerce.Payment.Store.{find_by_order_ids, Store, find_by_id, found}

-- a text that parseUUID reads as an identifier
abbrev pub ReadsAs : (Text → Option Text) → String → Text → Text → Type 0
ReadsAs uuid_of field raw id = ◌≡◌ {A = Result Sentinel Text} (parse_uuid uuid_of field raw) (ok id)

owned : (r : Payment) (user : Text) → not (text_eq r.user_id user) ≡ false → r.user_id ≡ user
owned r user h = text_eq→eq r.user_id user (ground arith)

-- GetPayment gives the stored attempt of the identifier, and only to the user who made it.
pub get_payment-owned :
    (uuid_of : Text → Option Text) (user_id payment_id : Text) (s : Store) (p : Payment)
    → get_payment uuid_of user_id payment_id s ≡ ok p
    → (user : Text) × (id : Text) × ReadsAs uuid_of "user_id" user_id user
      × ReadsAs uuid_of "id" payment_id id
      × (select_one (λ (r : Payment). text_eq r.id id) s.payments ≡ some p)
      × (p.user_id ≡ user)
unfolding get_payment find_by_id
get_payment-owned uuid_of user_id payment_id s p h =
    let (user, u, rest) = >>=-eq-ok (parse_uuid uuid_of "user_id" user_id) _ h in
    let (id, i, rest) = >>=-eq-ok (parse_uuid uuid_of "id" payment_id) _ rest in
    let ((r, t), finds, rest) = >>=-eq-ok (find_by_id id s) _ rest in
    let (his, same) =
      refuse_if-eq-ok (not (text_eq r.user_id user)) (sentinel payment_not_found) (ok r) rest in
    let (at, _) = found-row id s _ refl finds in
    let row : p ≡ r = sym (ok-injective same) in
    (user, id, u, i, at ∙ ap some (sym row), ap (λ (x : Payment). x.user_id) row ∙ owned r user his)

mine-All : (user : Text) (t : List Payment) → All (λ p. p.user_id ≡ user) (mine user t)
unfolding mine
mine-All user [] = tt
mine-All user (p ∷ t) = elim (Bool-cases (text_eq p.user_id user)) [
  | inl y ↦ rw y (text_eq→eq p.user_id user y, mine-All user t)
  | inr n ↦ rw n (mine-All user t)
]

nonempty : (n : ℕ) → (n == 0) ≡ false → 0 < n
nonempty n h = ground arith

at_most : (n : ℕ) → ltb max_order_ids n ≡ false → n ≤ 100
at_most n h = grind tests

-- GetPaymentsByOrderIDs answers for one to a hundred orders, and gives the caller's own attempts.
pub get_payments_by_order_ids-owned :
    (uuid_of : Text → Option Text) (first : Payment → Payment → Bool) (user_id : Text)
    (order_ids : List Text) (s : Store) (ps : List Payment)
    → get_payments_by_order_ids uuid_of first user_id order_ids s ≡ ok ps
    → (user : Text) × ReadsAs uuid_of "user_id" user_id user
      × (0 < length order_ids)
      × (length order_ids ≤ 100)
      × All (λ (p : Payment). p.user_id ≡ user) ps
unfolding get_payments_by_order_ids
get_payments_by_order_ids-owned uuid_of first user_id order_ids s ps h =
    let (user, u, rest) = >>=-eq-ok (parse_uuid uuid_of "user_id" user_id) _ h in
    let (many, rest) = refuse_if-eq-ok (length order_ids == 0) (fault invalid_input "") _ rest in
    let (few, rest) =
      refuse_if-eq-ok (ltb max_order_ids (length order_ids)) (fault invalid_input "") _ rest in
    let (ids, i, rest) = >>=-eq-ok (parse_order_ids uuid_of order_ids) _ rest in
    let ((found, t), finds, rest) = >>=-eq-ok (find_by_order_ids first ids s) _ rest in
    (
      user,
      u,
      nonempty (length order_ids) many,
      at_most (length order_ids) few,
      subst (All (λ (p : Payment). p.user_id ≡ user)) (ok-injective rest) (mine-All user found),
    )
