-- ===== src/Identity/Rotation.antt =====
-- The transaction of Refresh: services/identity/internal/app/session_service.go.
use system_design_ecommerce.Identity.Later.{Evolves}
use system_design_ecommerce.Identity.Families.{
  stored-IsChained, create_token-Stores, Follows, update_one-found, Stores, live_in, IsChained,
}
use system_design_ecommerce.Prelude.Int.{ℤ}
use system_design_ecommerce.Table.{update_one, select_one}
use system_design_ecommerce.Identity.Domain.{
  is_revoked, refresh_token_revoked, successor_of, Drawn, RefreshToken,
}
use system_design_ecommerce.Text.{text_eq_sym, text_eq→eq, text_eq_refl, text_eq, Text}
use system_design_ecommerce.Identity.Session.{rotate_tx}
use system_design_ecommerce.Table.Laws.{
  UniqueKeys-update_one, All-select_one, same_row, All-update_one, total-update_one,
  select_one-holds, total,
}
use system_design_ecommerce.Errors.{sentinel, refuse_if-eq-ok, ok}
use system_design_ecommerce.Prelude.{
  &&-both, All, not, Option, some, none, refl, ◌≡◌, sym, ◌∙◌, ap, subst, true, arith,
}
use system_design_ecommerce.Identity.Store.{create_token, ended, is_live_id, spend, is_some, Store}

-- The row that was read as `t` is there, and may have ended since.
abbrev pub Known : RefreshToken → Store → Type 0
Known t s =
    (r : RefreshToken) × (select_one (λ (x : RefreshToken). text_eq x.id t.id) s.tokens ≡ some r)
    × Evolves t r

-- the table once a token of the identifier has been spent
abbrev pub spent_rows : Text → ℤ → Store → Store
spent_rows id now s = record s { tokens = update_one (is_live_id id) (ended s.clock now) s.tokens }

-- What a rotation that succeeds has found and left.
pub record Rotates (id : Text) (now : ℤ) (t : RefreshToken) (s s' : Store) : Type 0 where
  pub row : RefreshToken
  pub found : select_one (is_live_id id) s.tokens ≡ some row
  pub stored : Stores t (spent_rows id now s) s'

some_row : (o : Option RefreshToken) → is_some o ≡ true → (r : RefreshToken) × (o ≡ some r)
some_row none h = absurd (ground arith)
some_row (some r) h = (r, refl)

pub rotate_tx-Rotates :
    (id : Text) (now : ℤ) (t r : RefreshToken) (s s' : Store)
    → rotate_tx id now t s ≡ ok (r, s')
    → Rotates id now t s s'
unfolding rotate_tx spend
rotate_tx-Rotates id now t r s s' h =
    let (spent, rest) =
      refuse_if-eq-ok (not (is_some (select_one (is_live_id id) s.tokens)))
        (sentinel refresh_token_revoked) (create_token t (spent_rows id now s)) h in
    let (row, at) = some_row (select_one (is_live_id id) s.tokens) (ground arith) in
    record { row = row; found = at; stored = create_token-Stores t r (spent_rows id now s) s' rest }

live_before : (id : Text) (r : RefreshToken) → is_live_id id r ≡ true → live_in r.family_id r ≡ 1
live_before id r h =
    rw (text_eq_refl r.family_id) (rw (&&-both (text_eq r.id id) (not (is_revoked r)) h).1 refl)

live_after :
    (family : Text) (clock now : ℤ) (r : RefreshToken) → live_in family (ended clock now r) ≡ 0
live_after family clock now r = ground arith

-- Once a live token has been spent, its chain has no live one.
spent-none :
    (id : Text) (now : ℤ) (s : Store) (r : RefreshToken)
    → IsChained s
    → select_one (is_live_id id) s.tokens ≡ some r
    → total (live_in r.family_id) (spent_rows id now s).tokens ≡ 0
spent-none id now s r c h = rw (update_one-found (is_live_id id) (ended s.clock now) s.tokens h) (
    omega (
      arith,
      c.one_live r.family_id,
      total-update_one (is_live_id id) (live_in r.family_id) r (ended s.clock now r) s.tokens h,
      live_before id r (select_one-holds (is_live_id id) s.tokens h),
      live_after r.family_id s.clock now r,
    ))

spent-Follows :
    (id : Text) (now : ℤ) (s : Store) (r : RefreshToken) (chain : Text → ℤ × Text)
    → All (Follows chain) s.tokens
    → select_one (is_live_id id) s.tokens ≡ some r
    → All (Follows chain) (spent_rows id now s).tokens
spent-Follows id now s r chain f h =
    rw (update_one-found (is_live_id id) (ended s.clock now) s.tokens h) (
      All-update_one (is_live_id id) (Follows chain) (ended s.clock now r) s.tokens f
        (All-select_one (is_live_id id) (Follows chain) s.tokens f h))

spent-IsChained :
    (id : Text) (now : ℤ) (s : Store) (r : RefreshToken)
    → IsChained s
    → select_one (is_live_id id) s.tokens ≡ some r
    → IsChained (spent_rows id now s)
spent-IsChained id now s r c h =
    let at = update_one-found (is_live_id id) (ended s.clock now) s.tokens h in
    record {
      one_live = λ family. rw at (
          omega (
            arith,
            c.one_live family,
            total-update_one (is_live_id id) (live_in family) r (ended s.clock now r) s.tokens h,
            live_after family s.clock now r,
          ));
      chain = c.chain;
      follows = rw at (
          All-update_one (is_live_id id) (Follows c.chain) (ended s.clock now r) s.tokens c.follows
            (All-select_one (is_live_id id) (Follows c.chain) s.tokens c.follows h));
      unique_ids = rw at (
          UniqueKeys-update_one (λ (x : RefreshToken). x.id) (is_live_id id) r (ended s.clock now r)
            s.tokens h refl c.unique_ids);
    }

pub rotate-IsChained :
    (sha256 : Text → Text) (t : RefreshToken) (drawn : Drawn) (now : ℤ) (r : RefreshToken)
    (s s' : Store)
    → Known t s
    → IsChained s
    → rotate_tx t.id now (successor_of sha256 drawn t) s ≡ ok (r, s')
    → IsChained s'
rotate-IsChained sha256 t drawn now r s s' (k, at, e) c h =
    let made = rotate_tx-Rotates t.id now (successor_of sha256 drawn t) r s s' h in
    let met = select_one-holds (is_live_id t.id) s.tokens made.found in
    let same : k ≡ made.row =
      same_row (λ (x : RefreshToken). x.id) (λ x. text_eq x.id t.id) (is_live_id t.id) s.tokens
        c.unique_ids at made.found
        (rw
          (text_eq→eq k.id t.id
            (select_one-holds (λ (x : RefreshToken). text_eq x.id t.id) s.tokens at))
          (text_eq_sym t.id made.row.id
            ∙ (&&-both (text_eq made.row.id t.id) (not (is_revoked made.row)) met).0)) in
    let family : made.row.family_id ≡ t.family_id =
      ap (λ (x : RefreshToken). x.family_id) (sym same) ∙ sym e.same_family in
    let spent = spent-IsChained t.id now s made.row c made.found in
    stored-IsChained (successor_of sha256 drawn t) (spent_rows t.id now s) s' spent c.chain
      (spent-Follows t.id now s made.row c.chain c.follows made.found)
      (rw e.same_family (
        rw e.same_expiry (
          rw e.same_user (
            All-select_one (λ (x : RefreshToken). text_eq x.id t.id) (Follows c.chain) s.tokens
              c.follows at))))
      (subst (λ f. total (live_in f) (spent_rows t.id now s).tokens ≡ 0) family
        (spent-none t.id now s made.row c made.found))
      made.stored
