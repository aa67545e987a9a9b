-- ===== src/Sku.antt =====
-- services/inventory/internal/domain/sku.go (the same text stands in the order service's sku.go).
-- `len` counts bytes where `length` counts code points: a text with a code point beyond ASCII is
-- refused, with the same error, by either.
pub mod Laws
use system_design_ecommerce.Prelude.{
  ℕ, ◌+◌, Bool, true, ◌&&◌, ◌||◌, [], ◌∷◌, length, leb, ltb, ◌==◌, if◌then◌else◌,
}
use system_design_ecommerce.Errors.{Error, validation, Result, ok, err}
use system_design_ecommerce.Text.{Text}
use system_design_ecommerce.Text.Case.{trim_space, to_upper}

abbrev pub Sku : Type 0
Sku = Text

abbrev pub sku_min_len : ℕ
sku_min_len = 3

abbrev pub sku_max_len : ℕ
sku_max_len = 64

-- the cases of the `switch` in NewSKU, at index i
abbrev pub is_sku_rune : ℕ → ℕ → Bool
is_sku_rune i c = (leb b'A' c && leb c b'Z') || (leb b'0' c && leb c b'9') || (c == b'-' && ltb 0 i)

-- the loop of NewSKU, from index i
unfoldable pub are_sku_runes : ℕ → Text → Bool
are_sku_runes i [] = true
are_sku_runes i (c ∷ s) = is_sku_rune i c && are_sku_runes (i + 1) s

abbrev pub invalid_sku {ℓ} : {S : Type ℓ} → Error S
invalid_sku = validation "sku" "must be 3 to 64 characters of A-Z, 0-9, and hyphens"

unfoldable pub new_sku {ℓ} : {S : Type ℓ} → Text → Result S Sku
unfolding are_sku_runes
new_sku s =
    let t : Text = to_upper (trim_space s) in
    if ltb (length t) sku_min_len || ltb sku_max_len (length t)
    then err invalid_sku
    else if are_sku_runes 0 t
    then ok t
    else err invalid_sku
