-- ===== src/Table/Keys.antt =====
-- Rows found by a unique key.
use system_design_ecommerce.Prelude.{
  ℕ, zero, suc, ◌≡◌, refl, Bool, true, false, some, List, [], ◌∷◌, All, take, Bool-cases, inl, inr,
  arith,
}
use system_design_ecommerce.Text.{Text, text_eq, text_eq_sym, text_eq_refl, text_eq_left}
use system_design_ecommerce.Table.{select_one, update_one, select_all}
use system_design_ecommerce.Table.Laws.{UniqueKeys}

module _ {ℓ} {A : Type ℓ} (key : A → Text) where
  -- The row that a SELECT by the key of `r` finds is `r`.
  abbrev pub FoundByKey : List A → A → Type ℓ
  FoundByKey t r = select_one (λ x. text_eq (key x) (key r)) t ≡ some r

  found_behind :
      (x : A) (t u : List A)
      → All (λ y. text_eq (key y) (key x) ≡ false) u
      → All (FoundByKey t) u
      → All (FoundByKey (x ∷ t)) u
  found_behind x t [] apart f = tt
  found_behind x t (y ∷ u) apart f =
      (rw (text_eq_sym (key x) (key y)) (rw apart.0 f.0), found_behind x t u apart.1 f.1)

  pub All-FoundByKey : (t : List A) → UniqueKeys key t → All (FoundByKey t) t
  All-FoundByKey [] u = tt
  All-FoundByKey (x ∷ t) u =
      (rw (text_eq_refl (key x)), found_behind x t t u.0 (All-FoundByKey t u.1))

  -- An UPDATE of rows with another key leaves what a SELECT by key finds.
  pub select_one-update_one_ne :
      (p : A → Bool) (a k : Text) (r : A) (t : List A)
      → ((x : A) → p x ≡ true → text_eq (key x) a ≡ true)
      → text_eq (key r) a ≡ true
      → text_eq k a ≡ false
      → select_one (λ x. text_eq (key x) k) (update_one p (λ _. r) t)
        ≡ select_one (λ x. text_eq (key x) k) t
  select_one-update_one_ne p a k r [] names named ne = refl
  select_one-update_one_ne p a k r (x ∷ t) names named ne = elim (Bool-cases (p x)) [
    | inl y ↦ rw y (rw (other r named) (rw (other x (names x y))))
    | inr n ↦ rw n (ground (arith, select_one-update_one_ne p a k r t names named ne))
  ]
    where
      other : (z : A) → text_eq (key z) a ≡ true → text_eq (key z) k ≡ false
      other z h = elim (Bool-cases (text_eq (key z) k)) [
        | inl e ↦ cc (text_eq_left (key z) k a e)
        | inr e ↦ e
      ]

  pub All-select_all {κ} :
      (P : A → Type κ) (p : A → Bool) (t : List A) → All P t → All P (select_all p t)
  All-select_all P p [] h = tt
  All-select_all P p (x ∷ t) h = elim (Bool-cases (p x)) [
    | inl y ↦ rw y (h.0, All-select_all P p t h.1)
    | inr n ↦ rw n (All-select_all P p t h.1)
  ]

  pub UniqueKeys-select_all :
      (p : A → Bool) (t : List A) → UniqueKeys key t → UniqueKeys key (select_all p t)
  UniqueKeys-select_all p [] u = tt
  UniqueKeys-select_all p (x ∷ t) u = elim (Bool-cases (p x)) [
    | inl y ↦ rw y (All-select_all _ p t u.0, UniqueKeys-select_all p t u.1)
    | inr n ↦ rw n (UniqueKeys-select_all p t u.1)
  ]

  pub All-take {κ} : (P : A → Type κ) (n : ℕ) (t : List A) → All P t → All P (take n t)
  All-take P zero t h = tt
  All-take P (suc n) [] h = tt
  All-take P (suc n) (x ∷ t) h = (h.0, All-take P n t h.1)

  pub UniqueKeys-take : (n : ℕ) (t : List A) → UniqueKeys key t → UniqueKeys key (take n t)
  UniqueKeys-take zero t u = tt
  UniqueKeys-take (suc n) [] u = tt
  UniqueKeys-take (suc n) (x ∷ t) u = (All-take _ n t u.0, UniqueKeys-take n t u.1)
