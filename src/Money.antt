-- ===== src/Money.antt =====
-- services/order/internal/domain/money.go and services/payment/internal/domain/money.go, which
-- declare one Money in the same words. An amount is a ℕ: NewMoney lets no negative amount in. A code
-- with a code point beyond ASCII is refused whether its bytes or its code points are counted.
use system_design_ecommerce.Prelude.{ℕ, Bool, not, ◌&&◌, length, all, leb, ◌==◌, if◌then◌else◌}
use system_design_ecommerce.Prelude.Int.{ℤ, pos, pos_part, ltb_ℤ}
use system_design_ecommerce.Errors.{Error, validation, Result, ok, err}
use system_design_ecommerce.Text.{Text, is_empty}
use system_design_ecommerce.Text.Case.{trim_space, to_upper}

abbrev pub max_int64 : ℕ
max_int64 = 9223372036854775807

abbrev pub currency_code_len : ℕ
currency_code_len = 3

abbrev pub is_upper : ℕ → Bool
is_upper c = leb b'A' c && leb c b'Z'

abbrev pub invalid_currency {ℓ} : {S : Type ℓ} → Error S
invalid_currency = validation "currency_code" "is not a three-letter ISO 4217 code"

-- NewCurrencyCode
unfoldable pub new_currency_code {ℓ} : {S : Type ℓ} → Text → Result S Text
new_currency_code s =
    let t : Text = to_upper (trim_space s) in
    if not (length t == currency_code_len)
    then err invalid_currency
    else if all is_upper t
    then ok t
    else err invalid_currency

pub record Money : Type 0 where
  pub amount_minor : ℕ
  pub currency : Text

-- NewMoney
unfoldable pub new_money {ℓ} : {S : Type ℓ} → ℤ → Text → Result S Money
new_money amount currency =
    if is_empty currency
    then err (validation "currency_code" "is required")
    else if ltb_ℤ amount (pos 0)
    then err (validation "amount_minor" "is negative")
    else ok (record { amount_minor = pos_part amount; currency = currency })

-- IsZero
abbrev pub is_zero : Money → Bool
is_zero m = m.amount_minor == 0 && is_empty m.currency
