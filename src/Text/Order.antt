-- ===== src/Text/Order.antt =====
-- The order of cmp.Compare on strings: lexicographic. On UTF-8 bytes and on code points it is the
-- same order.
use system_design_ecommerce.Prelude.{
  ◌≡◌, refl, Bool, true, false, [], ◌∷◌, arith, ◌==◌, ltb, if◌then◌else◌,
}
use system_design_ecommerce.Text.{Text, text_eq}

-- cmp.Compare(s, t) < 0
abbrev pub text_ltb : Text → Text → Bool
text_ltb s [] = false
text_ltb [] (d ∷ t) = true
text_ltb (c ∷ s) (d ∷ t) = if c == d then text_ltb s t else ltb c d

pub text_ltb_irrefl : (s : Text) → text_ltb s s ≡ false
text_ltb_irrefl [] = refl
text_ltb_irrefl (c ∷ s) = ground (arith, text_ltb_irrefl s)

pub text_ltb_trans :
    (s t u : Text) → text_ltb s t ≡ true → text_ltb t u ≡ true → text_ltb s u ≡ true
text_ltb_trans s [] u h k = cc
text_ltb_trans s (d ∷ t) [] h k = cc
text_ltb_trans [] (d ∷ t) (e ∷ u) h k = refl
text_ltb_trans (c ∷ s) (d ∷ t) (e ∷ u) h k = ground (arith, text_ltb_trans s t u)

pub text_trichotomy :
    (s t : Text) → text_ltb s t ≡ false → text_eq s t ≡ false → text_ltb t s ≡ true
text_trichotomy [] [] h k = cc
text_trichotomy [] (d ∷ t) h k = cc
text_trichotomy (c ∷ s) [] h k = refl
text_trichotomy (c ∷ s) (d ∷ t) h k = ground (arith, text_trichotomy s t)
