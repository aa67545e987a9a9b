-- ===== src/Table/Laws.antt =====
-- Totals, keys and predicates over a table, under an UPDATE of one row and an INSERT.
use system_design_ecommerce.Prelude.{
  eq_of_some, sym, ◌∙◌, ap, subst, ℕ, ◌+◌, ◌≤◌, ◌≡◌, refl, Bool, true, false, none, some, List, [],
  ◌∷◌, ◌++◌, All, arith, if◌then◌else◌, Bool-cases, inl, inr,
}
use system_design_ecommerce.Text.{text_eq→eq, Text, text_eq, text_eq_sym}
use system_design_ecommerce.Table.{select_one, update_one}

-- The sum of a number over the rows.
abbrev pub total {ℓ} : {A : Type ℓ} → (A → ℕ) → List A → ℕ
total w [] = 0
total w (r ∷ t) = w r + total w t

-- No key comes twice.
abbrev pub UniqueKeys {ℓ} : {A : Type ℓ} → (A → Text) → List A → Type 0
UniqueKeys key [] = Unit
UniqueKeys key (r ∷ t) = All (λ x. text_eq (key x) (key r) ≡ false) t × UniqueKeys key t

module _ {ℓ} {A : Type ℓ} (p : A → Bool) where
  -- The row that a SELECT gives meets its condition.
  pub select_one-holds : (t : List A) {r : A} → select_one p t ≡ some r → p r ≡ true
  select_one-holds [] h = cc
  select_one-holds (x ∷ t) {r} h = elim (Bool-cases (p x)) [
    | inl y ↦ ground arith
    | inr n ↦ select_one-holds t (rw n at h)
  ]

  -- A row that is found stays found when rows are added behind it.
  pub select_one-append :
      (t u : List A) {r : A} → select_one p t ≡ some r → select_one p (t ++ u) ≡ some r
  select_one-append [] u h = cc
  select_one-append (x ∷ t) u h = elim (Bool-cases (p x)) [
    | inl y ↦ rw y (rw y at h)
    | inr n ↦ rw n (select_one-append t u (rw n at h))
  ]

  -- The row that is added is found where none was.
  pub select_one-snoc :
      (t : List A) (r : A)
      → select_one p t ≡ none
      → p r ≡ true
      → select_one p (t ++ r ∷ []) ≡ some r
  select_one-snoc [] r h y = rw y refl
  select_one-snoc (x ∷ t) r h y = elim (Bool-cases (p x)) [
    | inl y' ↦ absurd (ground (arith, rw y' at h))
    | inr n ↦ rw n (select_one-snoc t r (rw n at h) y)
  ]

  -- An UPDATE replaces the weight of the row that it finds.
  pub total-update_one :
      (w : A → ℕ) (r r' : A) (t : List A)
      → select_one p t ≡ some r
      → total w (update_one p (λ _. r') t) + w r ≡ total w t + w r'
  total-update_one w r r' [] h = cc
  total-update_one w r r' (x ∷ t) h = elim (Bool-cases (p x)) [
    | inl y ↦ let e : x ≡ r = eq_of_some (rw y at h) in rw y (omega (arith, ap w e))
    | inr n ↦ rw n (omega (arith, total-update_one w r r' t (rw n at h)))
  ]

  pub All-select_one {κ} :
      (P : A → Type κ) (t : List A) {r : A} → All P t → select_one p t ≡ some r → P r
  All-select_one P [] a h = cc
  All-select_one P (x ∷ t) {r} a h = elim (Bool-cases (p x)) [
    | inl y ↦ subst P (eq_of_some (rw y at h)) a.0
    | inr n ↦ All-select_one P t a.1 (rw n at h)
  ]

  pub All-update_one {κ} :
      (P : A → Type κ) (r' : A) (t : List A) → All P t → P r' → All P (update_one p (λ _. r') t)
  All-update_one P r' [] a q = tt
  All-update_one P r' (x ∷ t) a q = elim (Bool-cases (p x)) [
    | inl y ↦ rw y (q, a.1)
    | inr n ↦ rw n (a.0, All-update_one P r' t a.1 q)
  ]

pub total-append {ℓ} :
    {A : Type ℓ} (w : A → ℕ) (t u : List A) → total w (t ++ u) ≡ total w t + total w u
total-append w [] u = omega arith
total-append w (x ∷ t) u = omega (arith, total-append w t u)

pub All-snoc {ℓ κ} :
    {A : Type ℓ} (P : A → Type κ) (t : List A) {r : A} → All P t → P r → All P (t ++ r ∷ [])
All-snoc P [] a q = (q, tt)
All-snoc P (x ∷ t) a q = (a.0, All-snoc P t a.1 q)

module _ {ℓ} {A : Type ℓ} (key : A → Text) where
  -- No row has the key.
  abbrev pub Absent : Text → List A → Type 0
  Absent k = All (λ x. text_eq (key x) k ≡ false)

  pub select_one-Absent :
      (k : Text) (t : List A) → select_one (λ x. text_eq (key x) k) t ≡ none → Absent k t
  select_one-Absent k [] h = tt
  select_one-Absent k (x ∷ t) h = elim (Bool-cases (text_eq (key x) k)) [
    | inl y ↦ absurd (ground arith)
    | inr n ↦ (n, select_one-Absent k t (rw n at h))
  ]

  pub UniqueKeys-snoc :
      (t : List A) (r : A) → UniqueKeys key t → Absent (key r) t → UniqueKeys key (t ++ r ∷ [])
  UniqueKeys-snoc [] r u f = (tt, tt)
  UniqueKeys-snoc (x ∷ t) r u f = (
    All-snoc (λ y. text_eq (key y) (key x) ≡ false) t u.0 (rw (text_eq_sym (key r) (key x)) f.0),
    UniqueKeys-snoc t r u.1 f.1,
  )

  -- An UPDATE that leaves the key alone keeps the keys unique.
  pub UniqueKeys-update_one :
      (p : A → Bool) (r r' : A) (t : List A)
      → select_one p t ≡ some r
      → key r' ≡ key r
      → UniqueKeys key t
      → UniqueKeys key (update_one p (λ _. r') t)
  UniqueKeys-update_one p r r' [] h e u = tt
  UniqueKeys-update_one p r r' (x ∷ t) h e u = elim (Bool-cases (p x)) [
    | inl y ↦
        let same : key x ≡ key r' = ap key (eq_of_some (rw y at h)) ∙ sym e in
        rw y (subst (λ k. All (λ z. text_eq (key z) k ≡ false) t) same u.0, u.1)
    | inr n ↦
        let h' : select_one p t ≡ some r = rw n at h in
        rw n (
          All-update_one p (λ z. text_eq (key z) (key x) ≡ false) r' t u.0
              (rw e (All-select_one p (λ z. text_eq (key z) (key x) ≡ false) t u.0 h')),
          UniqueKeys-update_one p r r' t h' e u.1,
        )
  ]

  total_of_Absent :
      (w : A → ℕ) (k : Text) (t : List A)
      → Absent k t
      → total (λ x. if text_eq (key x) k then w x else 0) t ≡ 0
  total_of_Absent w k [] f = refl
  total_of_Absent w k (x ∷ t) f =
      omega (arith, ap (λ (b : Bool). if b then w x else 0) f.0, total_of_Absent w k t f.1)

  -- The one row that has a key, with its weight.
  abbrev pub Carries : (A → ℕ) → Text → List A → Type ℓ
  Carries w k t =
      (r : A) × (select_one (λ x. text_eq (key x) k) t ≡ some r)
      × (w r ≡ total (λ x. if text_eq (key x) k then w x else 0) t)

  carried_behind :
      (w : A → ℕ) (k : Text) (x : A) (t : List A)
      → text_eq (key x) k ≡ false
      → Carries w k t
      → Carries w k (x ∷ t)
  carried_behind w k x t n (r, e, f) = (r, rw n e, rw n (omega arith))

  -- Where keys are unique, the total over a key is that of the one row that has it.
  pub total_of_key :
      (w : A → ℕ) (k : Text) (t : List A)
      → UniqueKeys key t
      → 1 ≤ total (λ x. if text_eq (key x) k then w x else 0) t
      → Carries w k t
  total_of_key w k [] u h = absurd (omega arith)
  total_of_key w k (x ∷ t) u h = elim (Bool-cases (text_eq (key x) k)) [
    | inl y ↦
        let absent : Absent k t = subst (λ j. Absent j t) (text_eq→eq (key x) k y) u.0 in
        (x, rw y, rw y (omega (arith, total_of_Absent w k t absent)))
    | inr n ↦ carried_behind w k x t n (total_of_key w k t u.1 (let h' = rw n at h in omega arith))
  ]

  -- Where keys are unique, two SELECTs whose rows have one key have found one row.
  pub same_row :
      (p q : A → Bool) (t : List A) {r u : A}
      → UniqueKeys key t
      → select_one p t ≡ some r
      → select_one q t ≡ some u
      → text_eq (key r) (key u) ≡ true
      → r ≡ u
  same_row p q [] u h k e = cc
  same_row p q (x ∷ t) {r} {u = v} u h k e = elim (Bool-cases (p x)) [
    | inl px ↦ elim (Bool-cases (q x)) [
      | inl qx ↦ sym (eq_of_some (rw px at h)) ∙ eq_of_some (rw qx at k)
      | inr qx ↦
          let apart : text_eq (key v) (key x) ≡ false =
            All-select_one q (λ y. text_eq (key y) (key x) ≡ false) t u.0 (rw qx at k) in
          absurd (clash r v (eq_of_some (rw px at h)) e apart)
    ]
    | inr px ↦ elim (Bool-cases (q x)) [
      | inl qx ↦
          let apart : text_eq (key r) (key x) ≡ false =
            All-select_one p (λ y. text_eq (key y) (key x) ≡ false) t u.0 (rw px at h) in
          absurd (clash v r (eq_of_some (rw qx at k)) (rw (text_eq_sym (key v) (key r)) e) apart)
      | inr qx ↦ same_row p q t u.1 (rw px at h) (rw qx at k) e
    ]
  ]
    where
      clash :
          (a b : A) → x ≡ a → text_eq (key a) (key b) ≡ true → text_eq (key b) (key x) ≡ false → ⊥
      clash a b m y n =
          let both : text_eq (key b) (key x) ≡ true = rw (text_eq_sym (key b) (key x)) (rw m y) in
          cc
