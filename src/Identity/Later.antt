-- ===== src/Identity/Later.antt =====
-- How the table of refresh tokens moves on: services/identity/internal/adapter/out/postgres.
use system_design_ecommerce.Prelude.Int.{ℤ}
use system_design_ecommerce.Prelude.{
  eq_of_some, not, subst, sym, ◌&&◌, ◌≡◌, refl, ◌∙◌, Bool, true, some, List, [], ◌∷◌, ◌++◌, map,
  inl, inr, Bool-cases,
}
use system_design_ecommerce.Text.{text_eq, Text}
use system_design_ecommerce.Table.{select_one, update_one}
use system_design_ecommerce.Identity.Domain.{RefreshToken, is_revoked}
use system_design_ecommerce.Identity.Store.{ended, end_member}

-- A row as it stands later: only its end may have been written, and an end stays.
pub record Evolves (x y : RefreshToken) : Type 0 where
  pub same_id : x.id ≡ y.id
  pub same_hash : x.hash ≡ y.hash
  pub same_family : x.family_id ≡ y.family_id
  pub same_expiry : x.expires_at ≡ y.expires_at
  pub same_user : x.user_id ≡ y.user_id
  pub stays : is_revoked x ≡ true → is_revoked y ≡ true

pub Evolves-refl : (x : RefreshToken) → Evolves x x
Evolves-refl x = record {
  same_id = refl;
  same_hash = refl;
  same_family = refl;
  same_expiry = refl;
  same_user = refl;
  stays = λ h. h;
}

pub Evolves-trans : (x y z : RefreshToken) → Evolves x y → Evolves y z → Evolves x z
Evolves-trans x y z a b = record {
  same_id = a.same_id ∙ b.same_id;
  same_hash = a.same_hash ∙ b.same_hash;
  same_family = a.same_family ∙ b.same_family;
  same_expiry = a.same_expiry ∙ b.same_expiry;
  same_user = a.same_user ∙ b.same_user;
  stays = λ h. b.stays (a.stays h);
}

pub ended-Evolves : (clock at : ℤ) (x : RefreshToken) → Evolves x (ended clock at x)
ended-Evolves clock at x = record {
  same_id = refl;
  same_hash = refl;
  same_family = refl;
  same_expiry = refl;
  same_user = refl;
  stays = λ h. refl;
}

pub end_member-Evolves :
    (family : Text) (clock at : ℤ) (x : RefreshToken) → Evolves x (end_member family clock at x)
unfolding end_member
end_member-Evolves family clock at x =
    elim (Bool-cases (text_eq x.family_id family && not (is_revoked x))) [
      | inl y ↦ rw y (ended-Evolves clock at x)
      | inr n ↦ rw n (Evolves-refl x)
    ]

-- The rows of a table as they stand in a later one, where more may follow.
unfoldable pub Later : List RefreshToken → List RefreshToken → Type 0
Later [] u = Unit
Later (x ∷ t) [] = ⊥
Later (x ∷ t) (y ∷ u) = Evolves x y × Later t u

pub Later-refl : (t : List RefreshToken) → Later t t
unfolding Later
Later-refl [] = tt
Later-refl (x ∷ t) = (Evolves-refl x, Later-refl t)

pub Later-trans : (t u v : List RefreshToken) → Later t u → Later u v → Later t v
unfolding Later
Later-trans [] u v a b = tt
Later-trans (x ∷ t) [] v a b = absurd a
Later-trans (x ∷ t) (y ∷ u) [] a b = absurd b
Later-trans (x ∷ t) (y ∷ u) (z ∷ v) a b = (Evolves-trans x y z a.0 b.0, Later-trans t u v a.1 b.1)

pub Later-append : (t u : List RefreshToken) → Later t (t ++ u)
unfolding Later
Later-append [] u = tt
Later-append (x ∷ t) u = (Evolves-refl x, Later-append t u)

pub Later-map :
    (f : RefreshToken → RefreshToken) (t : List RefreshToken)
    → ((x : RefreshToken) → Evolves x (f x))
    → Later t (map f t)
unfolding Later
Later-map f [] e = tt
Later-map f (x ∷ t) e = (e x, Later-map f t e)

pub Later-update_one :
    (p : RefreshToken → Bool) (f : RefreshToken → RefreshToken) (t : List RefreshToken)
    → ((x : RefreshToken) → Evolves x (f x))
    → Later t (update_one p f t)
unfolding Later
Later-update_one p f [] e = tt
Later-update_one p f (x ∷ t) e = elim (Bool-cases (p x)) [
  | inl y ↦ rw y (e x, Later-refl t)
  | inr n ↦ rw n (Evolves-refl x, Later-update_one p f t e)
]

-- A row that is found by what never changes is found later, as it stands by then.
pub Later-select_one :
    (p : RefreshToken → Bool) (t u : List RefreshToken) {r : RefreshToken}
    → ((x y : RefreshToken) → Evolves x y → p x ≡ p y)
    → Later t u
    → select_one p t ≡ some r
    → (r' : RefreshToken) × (select_one p u ≡ some r') × Evolves r r'
unfolding Later
Later-select_one p [] u same l h = cc
Later-select_one p (x ∷ t) [] same l h = absurd l
Later-select_one p (x ∷ t) (y ∷ u) same l h = elim (Bool-cases (p x)) [
  | inl yes_x ↦
      rw (sym (same x y l.0) ∙ yes_x)
        (y, refl, subst (λ z. Evolves z y) (eq_of_some (rw yes_x at h)) l.0)
  | inr no_x ↦ rw (sym (same x y l.0) ∙ no_x) (Later-select_one p t u same l.1 (rw no_x at h))
]
