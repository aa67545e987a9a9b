-- ===== src/Table/Sorted.antt =====
-- Sorted rows.
use system_design_ecommerce.Prelude.{◌≡◌, Bool, false, List, [], ◌∷◌, All, Bool-cases, inl, inr}
use system_design_ecommerce.Text.{Text, text_eq, text_eq_sym}
use system_design_ecommerce.Table.{insert_by, sort_by}
use system_design_ecommerce.Table.Laws.{UniqueKeys}

module _ {ℓ} {A : Type ℓ} (first : A → A → Bool) where
  All-insert_by {κ} :
      (P : A → Type κ) (r : A) (t : List A) → P r → All P t → All P (insert_by first r t)
  unfolding insert_by
  All-insert_by P r [] p h = (p, tt)
  All-insert_by P r (x ∷ t) p h = elim (Bool-cases (first r x)) [
    | inl y ↦ rw y (p, h)
    | inr n ↦ rw n (h.0, All-insert_by P r t p h.1)
  ]

  pub All-sort_by {κ} : (P : A → Type κ) (t : List A) → All P t → All P (sort_by first t)
  unfolding sort_by
  All-sort_by P [] h = tt
  All-sort_by P (x ∷ t) h = All-insert_by P x (sort_by first t) h.0 (All-sort_by P t h.1)

  module _ (key : A → Text) where
    insert_by_unique :
        (r : A) (t : List A)
        → All (λ x. text_eq (key x) (key r) ≡ false) t
        → UniqueKeys key t
        → UniqueKeys key (insert_by first r t)
    unfolding insert_by
    insert_by_unique r [] f u = (tt, tt)
    insert_by_unique r (x ∷ t) f u = elim (Bool-cases (first r x)) [
      | inl y ↦ rw y (f, u)
      | inr n ↦ rw n (
        All-insert_by (λ z. text_eq (key z) (key x) ≡ false) r t
            (rw (text_eq_sym (key r) (key x)) f.0) u.0,
        insert_by_unique r t f.1 u.1,
      )
    ]

    pub sort_by_unique : (t : List A) → UniqueKeys key t → UniqueKeys key (sort_by first t)
    unfolding sort_by
    sort_by_unique [] u = tt
    sort_by_unique (x ∷ t) u =
        insert_by_unique x (sort_by first t) (All-sort_by _ t u.0) (sort_by_unique t u.1)
