-- ===== src/Identity/Chains.antt =====
-- What the sessions of services/identity/internal/app/session_service.go store, as steps.
use system_design_ecommerce.Identity.Rotation.{
  spent_rows, rotate_tx-Rotates, rotate-IsChained, Known,
}
use system_design_ecommerce.Table.Laws.{total}
use system_design_ecommerce.Errors.{Result, err}
use system_design_ecommerce.Identity.Registration.{after_row, create_user}
use system_design_ecommerce.Identity.Account.{User}
use system_design_ecommerce.Identity.Session.{rotate_tx}
use system_design_ecommerce.Identity.Later.{
  ended-Evolves, Later-update_one, end_member-Evolves, Later-trans, Later-refl, Later-append,
  Later-map, Later,
}
use system_design_ecommerce.Prelude.Int.{ℤ}
use system_design_ecommerce.Identity.Families.{
  revoke_family-IsChained, live_in, create_token-Stores, stored-IsChained, Follows, IsChained,
}
use system_design_ecommerce.Tx.{run_tx-keeps, run_tx, Server}
use system_design_ecommerce.Identity.Domain.{Sentinel, successor_of, Drawn, RefreshToken}
use system_design_ecommerce.Text.{text_eq_refl, text_eq, Text}
use system_design_ecommerce.Errors.{ok}
use system_design_ecommerce.Prelude.{
  map, subst, sym, arith, Bool, List, All, if◌then◌else◌, ◌≡◌, false, refl, ◌∷◌, [],
}
use system_design_ecommerce.Identity.Store.{
  end_member, write_events, create_row, ended, is_live_id, revoke_family, create_token, Store,
}

-- No token is of the family.
abbrev pub IsNewFamily : Text → Store → Type 0
IsNewFamily family s = All (λ (r : RefreshToken). text_eq r.family_id family ≡ false) s.tokens

-- One write of the service: a chain is opened under a family that no token has, the token that was
-- read as `t` is rotated, a chain is ended, an account is made, or time passes.
pub data Step (sha256 : Text → Text) : Store → Store → Type 0 where
  issues :
      (server : Server) (t : RefreshToken) (s : Store)
      → IsNewFamily t.family_id s
      → Step sha256 s (run_tx server (create_token t) s).1
  rotates :
      (server : Server) (t : RefreshToken) (drawn : Drawn) (now : ℤ) (s : Store)
      → Known t s
      → Step sha256 s (run_tx server (rotate_tx t.id now (successor_of sha256 drawn t)) s).1
  revokes :
      (server : Server) (family : Text) (now : ℤ) (s : Store)
      → Step sha256 s (run_tx server (revoke_family family now) s).1
  registers :
      (is_lowered : Text → Bool) (row_server event_server : Server) (u : User) (s : Store)
      → Step sha256 s (create_user is_lowered row_server event_server u s).1
  passes : (now : ℤ) (s : Store) → Step sha256 s (record s { clock = now })

-- The stores that writes lead to, one after another.
pub data Reach (sha256 : Text → Text) : Store → Store → Type 0 where
  here : (s : Store) → Reach sha256 s s
  onward : (s t u : Store) → Reach sha256 s t → Step sha256 t u → Reach sha256 s u

opened_chain : (chain : Text → ℤ × Text) (t : RefreshToken) (family : Text) → ℤ × Text
opened_chain chain t family =
    if text_eq family t.family_id then (t.expires_at, t.user_id) else chain family

opened_chain-Follows :
    (chain : Text → ℤ × Text) (t : RefreshToken) (rows : List RefreshToken)
    → All (λ (r : RefreshToken). text_eq r.family_id t.family_id ≡ false) rows
    → All (Follows chain) rows
    → All (Follows (opened_chain chain t)) rows
unfolding opened_chain
opened_chain-Follows chain t [] apart f = tt
opened_chain-Follows chain t (r ∷ rows) apart f =
    (rw apart.0 f.0, opened_chain-Follows chain t rows apart.1 f.1)

none_live :
    (family : Text) (rows : List RefreshToken)
    → All (λ (r : RefreshToken). text_eq r.family_id family ≡ false) rows
    → total (live_in family) rows ≡ 0
none_live family [] apart = refl
none_live family (r ∷ rows) apart = rw apart.0 (omega (arith, none_live family rows apart.1))

issue-IsChained :
    (t r : RefreshToken) (s s' : Store)
    → IsNewFamily t.family_id s
    → IsChained s
    → create_token t s ≡ ok (r, s')
    → IsChained s'
unfolding opened_chain
issue-IsChained t r s s' fresh c h =
    stored-IsChained t s s' c (opened_chain c.chain t)
      (opened_chain-Follows c.chain t s.tokens fresh c.follows) (rw (text_eq_refl t.family_id) refl)
      (none_live t.family_id s.tokens fresh) (create_token-Stores t r s s' h)

same_tokens : (s t : Store) → t.tokens ≡ s.tokens → IsChained s → IsChained t
same_tokens s t e c = record {
  one_live = λ family. rw e (c.one_live family);
  chain = c.chain;
  follows = rw e c.follows;
  unique_ids = rw e c.unique_ids;
}

-- Register leaves the tokens alone.
create_user-tokens :
    (is_lowered : Text → Bool) (row_server event_server : Server) (u : User) (s : Store)
    → (create_user is_lowered row_server event_server u s).1.tokens ≡ s.tokens
unfolding create_user after_row create_row write_events
create_user-tokens is_lowered row_server event_server u s =
    after_row-tokens event_server (run_tx row_server (create_row is_lowered u) s) (
      run_tx-keeps (λ t. t.tokens ≡ s.tokens) row_server (create_row is_lowered u) s refl
        λ r t h. row_tokens r t h)
  where
    row_tokens :
        (r : User) (t : Store) → create_row is_lowered u s ≡ ok (r, t) → t.tokens ≡ s.tokens
    row_tokens r t h = ground arith

    after_row-tokens :
        (server : Server) (x : Result Sentinel User × Store)
        → x.1.tokens ≡ s.tokens
        → (after_row server x).1.tokens ≡ s.tokens
    after_row-tokens server (err e, t) h = h
    after_row-tokens server (ok row, t) h =
        run_tx-keeps (λ t'. t'.tokens ≡ s.tokens) server (write_events row) t h
          λ r t' k. (ground arith)

Step-IsChained : (sha256 : Text → Text) (s t : Store) → Step sha256 s t → IsChained s → IsChained t
unfolding revoke_family
Step-IsChained sha256 _ _ (issues server t s fresh) c =
    run_tx-keeps IsChained server (create_token t) s c λ r s' h. issue-IsChained t r s s' fresh c h
Step-IsChained sha256 _ _ (rotates server t drawn now s known) c =
    run_tx-keeps IsChained server (rotate_tx t.id now (successor_of sha256 drawn t)) s c
      λ r s' h. rotate-IsChained sha256 t drawn now r s s' known c h
Step-IsChained sha256 _ _ (revokes server family now s) c =
    run_tx-keeps IsChained server (revoke_family family now) s c
      λ r s' h. subst IsChained (ground arith) (revoke_family-IsChained family s.clock now s c)
Step-IsChained sha256 _ _ (registers is_lowered row_server event_server u s) c =
    same_tokens s _ (create_user-tokens is_lowered row_server event_server u s) c
Step-IsChained sha256 _ _ (passes now s) c = same_tokens s _ refl c

-- From tokens of which every chain has at most one live, and one end, any writes of the service, in
-- any order and however they end, lead to such tokens.
pub Reach-IsChained :
    (sha256 : Text → Text) (s t : Store) → Reach sha256 s t → IsChained s → IsChained t
Reach-IsChained sha256 _ _ (here s) c = c
Reach-IsChained sha256 _ _ (onward s t u reach step) c =
    Step-IsChained sha256 t u step (Reach-IsChained sha256 s t reach c)

create_token-Later :
    (t r : RefreshToken) (s s' : Store) → create_token t s ≡ ok (r, s') → Later s.tokens s'.tokens
create_token-Later t r s s' h =
    subst (λ (u : Store). Later s.tokens u.tokens) (sym (create_token-Stores t r s s' h).left)
      (Later-append s.tokens _)

rotate_tx-Later :
    (id : Text) (now : ℤ) (t r : RefreshToken) (s s' : Store)
    → rotate_tx id now t s ≡ ok (r, s')
    → Later s.tokens s'.tokens
rotate_tx-Later id now t r s s' h =
    let made = rotate_tx-Rotates id now t r s s' h in
    subst (λ (u : Store). Later s.tokens u.tokens) (sym made.stored.left)
      (Later-trans s.tokens (spent_rows id now s).tokens _
        (Later-update_one (is_live_id id) (ended s.clock now) s.tokens (ended-Evolves s.clock now))
        (Later-append (spent_rows id now s).tokens _))

revoke_family-Later :
    (family : Text) (now : ℤ) (s s' : Store) {r : Unit {0}}
    → revoke_family family now s ≡ ok (r, s')
    → Later s.tokens s'.tokens
unfolding revoke_family
revoke_family-Later family now s s' h =
    let left : (record s { tokens = map (end_member family s.clock now) s.tokens }) ≡ s' =
      ground arith in
    subst (λ (u : Store). Later s.tokens u.tokens) left
      (Later-map (end_member family s.clock now) s.tokens (end_member-Evolves family s.clock now))

LaterOf : Store → Store → Type 0
LaterOf s t = Later s.tokens t.tokens

Step-Later : (sha256 : Text → Text) (s t : Store) → Step sha256 s t → Later s.tokens t.tokens
unfolding LaterOf
Step-Later sha256 _ _ (issues server t s fresh) =
    run_tx-keeps (LaterOf s) server (create_token t) s (Later-refl s.tokens)
      λ r s' h. create_token-Later t r s s' h
Step-Later sha256 _ _ (rotates server t drawn now s known) =
    run_tx-keeps (LaterOf s) server (rotate_tx t.id now (successor_of sha256 drawn t)) s
      (Later-refl s.tokens)
      λ r s' h. rotate_tx-Later t.id now (successor_of sha256 drawn t) r s s' h
Step-Later sha256 _ _ (revokes server family now s) =
    run_tx-keeps (LaterOf s) server (revoke_family family now) s (Later-refl s.tokens)
      λ r s' h. revoke_family-Later family now s s' h
Step-Later sha256 _ _ (registers is_lowered row_server event_server u s) =
    rw (create_user-tokens is_lowered row_server event_server u s) (Later-refl s.tokens)
Step-Later sha256 _ _ (passes now s) = Later-refl s.tokens

-- Rows that were there stay, with what identifies them, and an end stays an end.
pub Reach-Later : (sha256 : Text → Text) (s t : Store) → Reach sha256 s t → Later s.tokens t.tokens
Reach-Later sha256 _ _ (here s) = Later-refl s.tokens
Reach-Later sha256 _ _ (onward s t u reach step) =
    Later-trans s.tokens t.tokens u.tokens (Reach-Later sha256 s t reach)
      (Step-Later sha256 t u step)

pub Reach-trans :
    (sha256 : Text → Text) (s t u : Store) → Reach sha256 s t → Reach sha256 t u → Reach sha256 s u
Reach-trans sha256 s _ _ a (here t) = a
Reach-trans sha256 s _ _ a (onward t u v b step) = onward s u v (Reach-trans sha256 s t u a b) step
