-- ===== src/Sku/Laws.antt =====
-- NewSKU (sku.go) and the pattern of a SKU.

use system_design_ecommerce.Prelude.{
  ◌↔◌, ◌⊎◌, inl, ℕ, ◌+◌, ◌≤◌, ◌≡◌, refl, true, false, [], ◌∷◌, List, arith, length, All,
}
use system_design_ecommerce.Errors.{ok}
use system_design_ecommerce.Text.{Text}
use system_design_ecommerce.Text.Case.{
  is_space, trim_space, upper_rune, to_upper, trim_space_id, to_upper_id,
}
use system_design_ecommerce.Sku.{Sku, new_sku, are_sku_runes, is_sku_rune}

-- [A-Z0-9]
abbrev pub IsFirstRune : ℕ → Type 0
IsFirstRune c = ((b'A' ≤ c) × (c ≤ b'Z')) ⊎ ((b'0' ≤ c) × (c ≤ b'9'))

-- [A-Z0-9-]
abbrev pub IsSkuRune : ℕ → Type 0
IsSkuRune c = IsFirstRune c ⊎ (c ≡ b'-')

-- ^[A-Z0-9][A-Z0-9-]{2,63}$
abbrev pub IsSku : Text → Type 0
IsSku [] = ⊥
IsSku (c ∷ s) = IsFirstRune c × All IsSkuRune s × (2 ≤ length s) × (length s ≤ 63)

IsFirstRune-iff : (c : ℕ) → (is_sku_rune 0 c ≡ true) ↔ IsFirstRune c
IsFirstRune-iff c = ground arith

IsSkuRune-iff : (i c : ℕ) → (is_sku_rune (i + 1) c ≡ true) ↔ IsSkuRune c
IsSkuRune-iff i c = ground arith

are_sku_runes-All : (i : ℕ) (s : Text) → are_sku_runes (i + 1) s ≡ true → All IsSkuRune s
unfolding are_sku_runes
are_sku_runes-All i [] h = tt
are_sku_runes-All i (c ∷ s) h = ground (arith, IsSkuRune-iff i c, are_sku_runes-All (i + 1) s)

All-are_sku_runes : (i : ℕ) (s : Text) → All IsSkuRune s → are_sku_runes (i + 1) s ≡ true
unfolding are_sku_runes
All-are_sku_runes i [] h = refl
All-are_sku_runes i (c ∷ s) h = ground (arith, IsSkuRune-iff i c, All-are_sku_runes (i + 1) s h.1)

accepted-IsSku : (t : Text) → 3 ≤ length t → length t ≤ 64 → are_sku_runes 0 t ≡ true → IsSku t
unfolding are_sku_runes
accepted-IsSku [] h k v = elim h [ ]
accepted-IsSku (c ∷ s) h k v = ground (arith, IsFirstRune-iff c, are_sku_runes-All 0 s)

-- A text that NewSKU returns has 3 to 64 characters of A-Z, 0-9 and hyphens, and starts with no
-- hyphen.
pub new_sku-IsSku {ℓ} : {S : Type ℓ} (s : Text) {t : Sku} → new_sku {S = S} s ≡ ok t → IsSku t
unfolding new_sku
new_sku-IsSku s h = ground (arith, accepted-IsSku (to_upper (trim_space s)))

upper_sku_rune : (c : ℕ) → IsSkuRune c → upper_rune c ≡ c
unfolding upper_rune
upper_sku_rune c h = ground arith

sku_rune_not_space : (c : ℕ) → IsSkuRune c → is_space c ≡ false
unfolding is_space
sku_rune_not_space c h = ground arith

All-map {ℓ κ} :
    {A : Type ℓ} {P Q : A → Type κ} → ((a : A) → P a → Q a) → (xs : List A) → All P xs → All Q xs
All-map f [] h = tt
All-map f (x ∷ xs) h = (f x h.0, All-map f xs h.1)

IsSku-runes : (t : Text) → IsSku t → All IsSkuRune t
IsSku-runes [] h = tt
IsSku-runes (c ∷ s) h = (inl h.0, h.1)

IsSku-are_sku_runes : (t : Text) → IsSku t → are_sku_runes 0 t ≡ true
unfolding are_sku_runes
IsSku-are_sku_runes [] h = refl
IsSku-are_sku_runes (c ∷ s) h = ground (arith, IsFirstRune-iff c, All-are_sku_runes 0 s h.1)

IsSku-length : (t : Text) → IsSku t → (3 ≤ length t) × (length t ≤ 64)
IsSku-length [] h = absurd h
IsSku-length (c ∷ s) h = omega arith

IsSku-normal : (t : Text) → IsSku t → to_upper (trim_space t) ≡ t
IsSku-normal t h =
    let runes = IsSku-runes t h in
    rw (trim_space_id t (All-map sku_rune_not_space t runes))
      (to_upper_id t (All-map upper_sku_rune t runes))

-- A text that matches the pattern is a SKU as it stands: NewSKU returns it unchanged.
pub new_sku_of_IsSku {ℓ} : {S : Type ℓ} (t : Text) → IsSku t → new_sku {S = S} t ≡ ok t
unfolding new_sku
new_sku_of_IsSku t h =
    rw (IsSku-normal t h) (ground (arith, IsSku-length t h, IsSku-are_sku_runes t h))
