-- ===== src/Identity/Families.antt =====
-- The rotation chains of refresh tokens: services/identity/internal/app/session_service.go.
use system_design_ecommerce.Identity.Later.{end_member-Evolves, Evolves}
use system_design_ecommerce.Table.Laws.{
  select_one-Absent, UniqueKeys-snoc, All-snoc, total-append, total, UniqueKeys,
}
use system_design_ecommerce.Prelude.Int.{ℤ}
use system_design_ecommerce.Table.{update_one, select_one}
use system_design_ecommerce.Prelude.{
  eq_of_some, map, ℕ, ◌≤◌, ◌≡◌, refl, sym, ap, subst, Bool, false, not, ◌&&◌, Option, none, some,
  List, [], ◌∷◌, ◌++◌, All, arith, if◌then◌else◌, inl, inr, Bool-cases,
}
use system_design_ecommerce.Errors.{ok}
use system_design_ecommerce.Text.{Text, text_eq, text_eq→eq}
use system_design_ecommerce.Identity.Domain.{RefreshToken, is_revoked}
use system_design_ecommerce.Identity.Store.{is_some, Store, create_token, end_member}

-- Whether a token is one of the chain that can still be presented before it expires.
abbrev pub live_in : Text → RefreshToken → ℕ
live_in family t = if text_eq t.family_id family && not (is_revoked t) then 1 else 0

-- The instant at which a chain ends, and the user that it belongs to.
abbrev pub Follows : (Text → ℤ × Text) → RefreshToken → Type 0
Follows chain t = chain t.family_id ≡ (t.expires_at, t.user_id)

-- Of every chain at most one token is live, all its tokens end at the same instant and belong to the
-- same user, and identifiers are unique.
pub record IsChained (s : Store) : Type 0 where
  pub one_live : (family : Text) → total (live_in family) s.tokens ≤ 1
  pub chain : Text → ℤ × Text
  pub follows : All (Follows chain) s.tokens
  pub unique_ids : UniqueKeys (λ (t : RefreshToken). t.id) s.tokens

abbrev pub stored_row : Store → RefreshToken → RefreshToken
stored_row s t = record t {
  revoked_at = none;
  created_at = s.clock;
  updated_at = s.clock;
  version = 1;
}

-- Revoking a chain leaves no live token in it, and none more in another.
pub revoked-none :
    (family : Text) (clock at : ℤ) (t : List RefreshToken)
    → total (live_in family) (map (end_member family clock at) t) ≡ 0
unfolding end_member
revoked-none family clock at [] = refl
revoked-none family clock at (x ∷ t) = ground (arith, revoked-none family clock at t)

revoked-le :
    (family other : Text) (clock at : ℤ) (t : List RefreshToken)
    → total (live_in other) (map (end_member family clock at) t) ≤ total (live_in other) t
unfolding end_member
revoked-le family other clock at [] = omega arith
revoked-le family other clock at (x ∷ t) = ground (arith, revoked-le family other clock at t)

pub update_one-found :
    (p : RefreshToken → Bool) (f : RefreshToken → RefreshToken) (t : List RefreshToken)
    {r : RefreshToken}
    → select_one p t ≡ some r
    → update_one p f t ≡ update_one p (λ _. f r) t
update_one-found p f [] h = cc
update_one-found p f (x ∷ t) h = elim (Bool-cases (p x)) [
  | inl y ↦ rw y (ap (λ z. f z ∷ t) (eq_of_some (rw y at h)))
  | inr n ↦ rw n (ap (λ u. x ∷ u) (update_one-found p f t (rw n at h)))
]

UniqueKeys-map :
    (f : RefreshToken → RefreshToken) (t : List RefreshToken)
    → ((x : RefreshToken) → x.id ≡ (f x).id)
    → UniqueKeys (λ (x : RefreshToken). x.id) t
    → UniqueKeys (λ (x : RefreshToken). x.id) (map f t)
UniqueKeys-map f [] same u = tt
UniqueKeys-map f (x ∷ t) same u = (apart t u.0, UniqueKeys-map f t same u.1)
  where
    apart :
        (v : List RefreshToken)
        → All (λ (y : RefreshToken). text_eq y.id x.id ≡ false) v
        → All (λ (y : RefreshToken). text_eq y.id (f x).id ≡ false) (map f v)
    apart [] a = tt
    apart (y ∷ v) a = (rw (← same x) (rw (← same y) a.0), apart v a.1)

Follows-Evolves :
    (chain : Text → ℤ × Text) (x y : RefreshToken) → Evolves x y → Follows chain x → Follows chain y
Follows-Evolves chain x y e h = rw (← e.same_family) (rw (← e.same_expiry) (rw (← e.same_user) h))

All-Follows-map :
    (chain : Text → ℤ × Text) (f : RefreshToken → RefreshToken) (t : List RefreshToken)
    → ((x : RefreshToken) → Evolves x (f x))
    → All (Follows chain) t
    → All (Follows chain) (map f t)
All-Follows-map chain f [] e a = tt
All-Follows-map chain f (x ∷ t) e a =
    (Follows-Evolves chain x (f x) (e x) a.0, All-Follows-map chain f t e a.1)

pub revoke_family-IsChained :
    (family : Text) (clock at : ℤ) (s : Store)
    → IsChained s
    → IsChained (record s { tokens = map (end_member family clock at) s.tokens })
revoke_family-IsChained family clock at s c = record {
  one_live = λ other. omega (arith, c.one_live other, revoked-le family other clock at s.tokens);
  chain = c.chain;
  follows =
      All-Follows-map c.chain (end_member family clock at) s.tokens
        (end_member-Evolves family clock at) c.follows;
  unique_ids =
      UniqueKeys-map (end_member family clock at) s.tokens
        (λ x. (end_member-Evolves family clock at x).same_id) c.unique_ids;
}

-- What an INSERT that succeeds has found and left.
pub record Stores (t : RefreshToken) (s s' : Store) : Type 0 where
  pub fresh : select_one (λ (r : RefreshToken). text_eq r.id t.id) s.tokens ≡ none
  pub left : s' ≡ record s { tokens = s.tokens ++ stored_row s t ∷ [] }

nothing_found : (o : Option RefreshToken) → is_some o ≡ false → o ≡ none
nothing_found none h = refl
nothing_found (some p) h = cc

pub create_token-Stores :
    (t r : RefreshToken) (s s' : Store) → create_token t s ≡ ok (r, s') → Stores t s s'
unfolding create_token
create_token-Stores t r s s' h = record {
  fresh = nothing_found _ (ground arith);
  left = ground arith;
}

live_elsewhere :
    (family : Text) (s : Store) (t : RefreshToken)
    → text_eq t.family_id family ≡ false
    → live_in family (stored_row s t) ≡ 0
live_elsewhere family s t h = ground arith

live_le : (family : Text) (t : RefreshToken) → live_in family t ≤ 1
live_le family t = ground arith

-- A token that is stored in a chain without a live one, and that follows it.
pub stored-IsChained :
    (t : RefreshToken) (s s' : Store) (c : IsChained s) (chain : Text → ℤ × Text)
    → All (Follows chain) s.tokens
    → Follows chain t
    → total (live_in t.family_id) s.tokens ≡ 0
    → Stores t s s'
    → IsChained s'
stored-IsChained t s s' c chain follows joins none_live made =
    let stored : IsChained (record s { tokens = s.tokens ++ stored_row s t ∷ [] }) = record {
      one_live = λ family. elim (Bool-cases (text_eq t.family_id family)) [
        | inl y ↦
            let gone : total (live_in family) s.tokens ≡ 0 =
              subst (λ f. total (live_in f) s.tokens ≡ 0) (text_eq→eq t.family_id family y)
                none_live in
            omega (
              arith,
              total-append (live_in family) s.tokens (stored_row s t ∷ []),
              live_le family (stored_row s t),
            )
        | inr n ↦ omega (
          arith,
          c.one_live family,
          live_elsewhere family s t n,
          total-append (live_in family) s.tokens (stored_row s t ∷ []),
        )
      ];
      chain = chain;
      follows = All-snoc (Follows chain) s.tokens follows joins;
      unique_ids =
          UniqueKeys-snoc (λ (x : RefreshToken). x.id) s.tokens (stored_row s t) c.unique_ids
            (select_one-Absent (λ (x : RefreshToken). x.id) t.id s.tokens made.fresh);
    } in
    subst IsChained (sym made.left) stored
