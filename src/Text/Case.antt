-- ===== src/Text/Case.antt =====
-- strings.TrimSpace, strings.ToUpper and strings.ToLower, on code points. ToUpper and ToLower are
-- written out for ASCII and for the letters beyond ASCII whose other case is an ASCII letter
-- (U+0131 and U+017F, U+0130 and U+212A). They keep every other code point, where Go may change one
-- beyond ASCII into another beyond ASCII: each caller refuses both alike.
use system_design_ecommerce.Prelude.{
  ℕ, ◌+◌, ◌-◌, ◌≡◌, refl, Bool, ◌&&◌, ◌||◌, [], ◌∷◌, map, reverse, leb, ◌==◌, if◌then◌else◌, All,
  All-reverse, false, refl,
}
use mathlib.Core.List.{reverse-reverse}
use mathlib.Core.Path.{ap₂}
use system_design_ecommerce.Text.{Text}

-- unicode.IsSpace
unfoldable pub is_space : ℕ → Bool
is_space c =
    (leb 9 c && leb c 13)
    || c == 32
    || c == 133
    || c == 160
    || c == 5760
    || (leb 8192 c && leb c 8202)
    || c == 8232
    || c == 8233
    || c == 8239
    || c == 8287
    || c == 12288

unfoldable pub trim_left : Text → Text
trim_left [] = []
trim_left (c ∷ s) = if is_space c then trim_left s else c ∷ s

unfoldable pub trim_space : Text → Text
unfolding trim_left
trim_space s = reverse (trim_left (reverse (trim_left s)))

unfoldable pub upper_rune : ℕ → ℕ
upper_rune c =
    if leb b'a' c && leb c b'z'
    then c - 32
    else if c == 305
    then b'I'
    else if c == 383
    then b'S'
    else c

unfoldable pub lower_rune : ℕ → ℕ
lower_rune c =
    if leb b'A' c && leb c b'Z'
    then c + 32
    else if c == 304
    then b'i'
    else if c == 8490
    then b'k'
    else c

unfoldable pub to_upper : Text → Text
to_upper = map upper_rune

unfoldable pub to_lower : Text → Text
to_lower = map lower_rune

trims : trim_space (32 ∷ b'a' ∷ 32 ∷ b'b' ∷ 9 ∷ []) ≡ b'a' ∷ 32 ∷ b'b' ∷ []
unfolding trim_space is_space
trims = refl

abbrev NoSpace : Text → Type 0
NoSpace = All (λ c. is_space c ≡ false)

trim_left_id : (s : Text) → NoSpace s → trim_left s ≡ s
unfolding trim_left
trim_left_id [] h = refl
trim_left_id (c ∷ s) h = rw h.0

-- A text with no space in it has nothing to trim.
pub trim_space_id : (s : Text) → All (λ c. is_space c ≡ false) s → trim_space s ≡ s
unfolding trim_space
trim_space_id s h =
    rw (trim_left_id s h) (rw (trim_left_id (reverse s) (All-reverse _ s h)) (reverse-reverse s))

-- Letters that have no other upper case stay.
pub to_upper_id : (s : Text) → All (λ c. upper_rune c ≡ c) s → to_upper s ≡ s
unfolding to_upper
to_upper_id [] h = refl
to_upper_id (c ∷ s) h = ap₂ ◌∷◌ h.0 (to_upper_id s h.1)
