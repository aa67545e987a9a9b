-- ===== src/Uuid.antt =====
-- parseUUID of internal/domain/id.go, which the order and the payment service declare in the same
-- words. `uuid_of` is uuid.Parse with String.
use system_design_ecommerce.Prelude.{
  ℕ, ◌+◌, not, String, Option, none, some, [], ◌∷◌, ltb, ◌==◌, if◌then◌else◌,
}
use system_design_ecommerce.Errors.{validation, Result, ok, err}
use system_design_ecommerce.Text.{Text, is_empty}
use system_design_ecommerce.Text.Case.{trim_space}

-- len of a Go string: the bytes of its code points
abbrev rune_len : ℕ → ℕ
rune_len c = if ltb c 128 then 1 else if ltb c 2048 then 2 else if ltb c 65536 then 3 else 4

unfoldable pub byte_len : Text → ℕ
byte_len [] = 0
byte_len (c ∷ s) = rune_len c + byte_len s

-- what uuid.Parse and String give
unfoldable pub uuid_or {ℓ} : {S : Type ℓ} → String → Option Text → Result S Text
uuid_or field none = err (validation field "is not a UUID")
uuid_or field (some t) = ok t

-- parseUUID of domain/id.go
unfoldable pub parse_uuid {ℓ} : {S : Type ℓ} → (Text → Option Text) → String → Text → Result S Text
unfolding byte_len uuid_or
parse_uuid uuid_of field s =
    let t : Text = trim_space s in
    if is_empty t
    then err (validation field "is required")
    else if not (byte_len t == 36)
    then err (validation field "is not a canonical UUID")
    else uuid_or field (uuid_of t)
