-- ===== src/Identity/Accepted.antt =====
-- Refresh of services/identity/internal/app/session_service.go, where it gives a pair.
use system_design_ecommerce.Identity.Chains.{Reach-IsChained, Reach-Later}
use system_design_ecommerce.Tx.{run_tx_ok, run_tx, Server, with_parsed_ok}
use system_design_ecommerce.Table.Laws.{select_one-append}
use system_design_ecommerce.Identity.Rotation.{spent_rows, rotate_tx-Rotates}
use system_design_ecommerce.Table.Laws.{same_row, select_one-holds}
use system_design_ecommerce.Identity.Session.{
  pair_of, prepare_refresh, caused, after_rotate, refresh, refresh_checked, refresh_usable,
  end_chain_on_reuse, as_refreshed, refresh_found, TokenPair, rotate_tx,
}
use system_design_ecommerce.Identity.Later.{Later-select_one, ended-Evolves, Evolves-trans, Evolves}
use system_design_ecommerce.Identity.Families.{update_one-found, IsChained}
use system_design_ecommerce.Prelude.Int.{ℤ, ltb_ℤ}
use system_design_ecommerce.Table.{update_one, select_one}
use system_design_ecommerce.Identity.Domain.{
  refresh_token_revoked, same_sentinel, ensure_usable, Sentinel, is_revoked, RefreshToken,
}
use system_design_ecommerce.Text.{text_eq_sym, text_eq, Text}
use system_design_ecommerce.Prelude.{
  Option, none, not, &&-both, eq_of_some, Bool-cases, List, false, some, refl, inr, inl, ◌∷◌, [],
  ◌≡◌, sym, ◌∙◌, ap, subst, Bool, true, arith,
}
use system_design_ecommerce.Errors.{is, ok-injective, Error, Result, ok, err}
use system_design_ecommerce.Identity.Store.{
  token_or_missing, find_by_hash, ended, is_live_id, Store,
}
use system_design_ecommerce.Identity.Refreshed.{
  as_refreshed-store, prepared_successor, Around, call, found,
}

-- The row that an UPDATE writes is found by what it was found by.
select_one-updated :
    (p q : RefreshToken → Bool) (r r' : RefreshToken) (t : List RefreshToken)
    → select_one p t ≡ some r
    → select_one q t ≡ some r
    → p r' ≡ true
    → select_one p (update_one q (λ _. r') t) ≡ some r'
select_one-updated p q r r' [] h k e = cc
select_one-updated p q r r' (x ∷ t) h k e = elim (Bool-cases (q x)) [
  | inl y ↦ rw y (rw e refl)
  | inr n ↦ elim (Bool-cases (p x)) [
    | inl z ↦
        let here_r : x ≡ r = eq_of_some (rw z at h) in
        let met : q r ≡ true = select_one-holds q (x ∷ t) k in
        absurd (clash (q x) n (rw here_r met))
    | inr m ↦ rw n (rw m (select_one-updated p q r r' t (rw m at h) (rw n at k) e))
  ]
]
  where
    clash : (b : Bool) → b ≡ false → b ≡ true → ⊥
    clash b n y = ground arith

-- What a rotation leaves of the token that it spends.
record Spends (hash : Text) (t : RefreshToken) (s : Store) : Type 0 where
  row : RefreshToken
  there : select_one (λ (x : RefreshToken). text_eq x.hash hash) s.tokens ≡ some row
  evolved : Evolves t row
  ended : is_revoked row ≡ true

rotated-Spends :
    (hash : Text) (t k successor r : RefreshToken) (now : ℤ) (m s' : Store)
    → IsChained m
    → Evolves t k
    → select_one (λ (x : RefreshToken). text_eq x.hash hash) m.tokens ≡ some k
    → rotate_tx t.id now successor m ≡ ok (r, s')
    → Spends hash t s'
rotated-Spends hash t k successor r now m s' c e at h =
    let made = rotate_tx-Rotates t.id now successor r m s' h in
    let met = select_one-holds (is_live_id t.id) m.tokens made.found in
    let same : k ≡ made.row =
      same_row (λ (x : RefreshToken). x.id) (λ x. text_eq x.hash hash) (is_live_id t.id) m.tokens
        c.unique_ids at made.found
        (rw (← e.same_id) (
          text_eq_sym t.id made.row.id
          ∙ (&&-both (text_eq made.row.id t.id) (not (is_revoked made.row)) met).0)) in
    let k' = ended m.clock now k in
    let spent : select_one (λ (x : RefreshToken). text_eq x.hash hash)
          (spent_rows t.id now m).tokens
        ≡ some k' =
      rw
        (update_one-found (is_live_id t.id) (ended m.clock now) m.tokens
          (made.found ∙ ap some (sym same)))
        (select_one-updated (λ (x : RefreshToken). text_eq x.hash hash) (is_live_id t.id) k k'
          m.tokens at (made.found ∙ ap some (sym same))
          (select_one-holds (λ (x : RefreshToken). text_eq x.hash hash) m.tokens at)) in
    record {
      row = k';
      there =
          subst
            (λ (u : Store).
              select_one (λ (x : RefreshToken). text_eq x.hash hash) u.tokens ≡ some k')
            (sym made.stored.left)
            (select_one-append (λ (x : RefreshToken). text_eq x.hash hash)
              (spent_rows t.id now m).tokens _ spent);
      evolved = Evolves-trans t k k' e (ended-Evolves m.clock now k);
      ended = refl;
    }

usable-unexpired :
    (t : RefreshToken) (now : ℤ) → ensure_usable t now ≡ ok tt → ltb_ℤ now t.expires_at ≡ true
unfolding ensure_usable
usable-unexpired t now h = ground arith

usable-live : (t : RefreshToken) (now : ℤ) → ensure_usable t now ≡ ok tt → is_revoked t ≡ false
unfolding ensure_usable
usable-live t now h = ground arith

not_revoked : (t : RefreshToken) → is_revoked t ≡ false → t.revoked_at ≡ none
not_revoked t h = by_time t.revoked_at refl
  where
    by_time : (o : Option ℤ) → t.revoked_at ≡ o → o ≡ none
    by_time none e = refl
    by_time (some at) e = absurd (ground arith)

-- What a call of Refresh that gives a pair has done.
pub record Accepts (hash : Text) (s s' : Store) (pair : TokenPair) (now : ℤ) : Type 0 where
  pub token : RefreshToken
  pub row : RefreshToken
  pub read : select_one (λ (x : RefreshToken). text_eq x.hash hash) s.tokens ≡ some token
  pub usable : ensure_usable token now ≡ ok tt
  pub live : token.revoked_at ≡ none
  pub unexpired : ltb_ℤ now token.expires_at ≡ true
  pub there : select_one (λ (x : RefreshToken). text_eq x.hash hash) s'.tokens ≡ some row
  pub evolved : Evolves token row
  pub revoked : is_revoked row ≡ true
  pub same_expiry : pair.refresh_token_expires_at ≡ token.expires_at

caused-err :
    (cause : Error Sentinel) (x : Result Sentinel (Unit {0}) × Store) {pair : TokenPair}
    → ¬ ((caused {A = TokenPair} cause x).0 ≡ ok pair)
caused-err cause (ok _, s) h = cc
caused-err cause (err e, s) h = cc

end_chain-err :
    (server : Server) (t : RefreshToken) (now : ℤ) (cause : Error Sentinel) (s : Store)
    {pair : TokenPair}
    → ¬ ((end_chain_on_reuse {A = TokenPair} server t now cause s).0 ≡ ok pair)
unfolding end_chain_on_reuse
end_chain-err server t now cause s h =
    elim (Bool-cases (is same_sentinel cause refresh_token_revoked)) [
      | inl y ↦ caused-err cause _ (rw y at h)
      | inr n ↦ absurd (ground arith)
    ]

as_refreshed_ok :
    (x : Result Sentinel TokenPair × Store) {pair : TokenPair}
    → (as_refreshed x).0 ≡ ok pair
    → x.0 ≡ ok pair
unfolding as_refreshed
as_refreshed_ok (ok p, s) h = h
as_refreshed_ok (err e, s) h = cc

module _ (sha256 : Text → Text) (w : Around sha256) where
  after_rotate_ok :
      (t : RefreshToken) (p : TokenPair) (x : Result Sentinel RefreshToken × Store)
      {pair : TokenPair}
      → (after_rotate sha256 w.issue_access w.servers w.later t w.now p x).0 ≡ ok pair
      → (r : RefreshToken) × (x.0 ≡ ok r)
        × (p ≡ pair)
        × ((after_rotate sha256 w.issue_access w.servers w.later t w.now p x).1 ≡ x.1)
  unfolding after_rotate
  after_rotate_ok t p (ok r, s) h = (r, refl, ok-injective h, refl)
  after_rotate_ok t p (err e, s) h = elim (Bool-cases (is same_sentinel e refresh_token_revoked)) [
    | inl y ↦ absurd (caused-err e _ (rw y at h))
    | inr n ↦ absurd (ground arith)
  ]

  usable-Accepts :
      (hash : Text) (t : RefreshToken) (s : Store) {pair : TokenPair}
      → IsChained s
      → select_one (λ (x : RefreshToken). text_eq x.hash hash) s.tokens ≡ some t
      → ensure_usable t w.now ≡ ok tt
      → (refresh_usable sha256 w.issue_access w.servers w.meanwhile w.later w.drawn t w.now s).0
        ≡ ok pair
      → Accepts hash s
          (refresh_usable sha256 w.issue_access w.servers w.meanwhile w.later w.drawn t w.now s).1
          pair
          w.now
  unfolding refresh_usable
  usable-Accepts hash t s {pair} c at usable h =
      let ((successor, access), e, same) =
        with_parsed_ok (prepare_refresh sha256 w.issue_access w.drawn t w.now s) _ s h in
      let m = w.meanwhile s in
      let done = run_tx w.servers.rotating (rotate_tx t.id w.now successor) m in
      let (r, stored, given, left) =
        after_rotate_ok t (pair_of access w.drawn.value successor.expires_at) done
          (ap (λ x. x.0) (sym same) ∙ h) in
      let (k, there, evolves) =
        Later-select_one (λ x. text_eq x.hash hash) s.tokens m.tokens
          (λ x y e. ap (λ i. text_eq i hash) e.same_hash)
          (Reach-Later sha256 s m (w.meanwhile_writes s)) at in
      let spends =
        rotated-Spends hash t k successor r w.now m done.1
          (Reach-IsChained sha256 s m (w.meanwhile_writes s) c) evolves there
          (run_tx_ok w.servers.rotating (rotate_tx t.id w.now successor) m stored) in
      record {
        token = t;
        row = spends.row;
        read = at;
        usable = usable;
        live = not_revoked t (usable-live t w.now usable);
        unexpired = usable-unexpired t w.now usable;
        there =
            subst
              (λ (u : Store).
                select_one (λ (x : RefreshToken). text_eq x.hash hash) u.tokens ≡ some spends.row)
              (sym (ap (λ x. x.1) same ∙ left)) spends.there;
        evolved = spends.evolved;
        revoked = spends.ended;
        same_expiry =
            ap (λ (p : TokenPair). p.refresh_token_expires_at) (sym given)
            ∙ ap (λ (x : RefreshToken). x.expires_at)
                (prepared_successor sha256 w t successor access s e);
      }

  checked-Accepts :
      (hash : Text) (t : RefreshToken) (x : Result Sentinel (Unit {0})) (s : Store)
      {pair : TokenPair}
      → IsChained s
      → select_one (λ (x : RefreshToken). text_eq x.hash hash) s.tokens ≡ some t
      → ensure_usable t w.now ≡ x
      → (refresh_checked sha256 w.issue_access w.servers w.meanwhile w.later w.drawn t w.now x s).0
        ≡ ok pair
      → Accepts hash s
          (refresh_checked sha256 w.issue_access w.servers w.meanwhile w.later w.drawn t w.now x
            s).1
          pair
          w.now
  unfolding refresh_checked
  checked-Accepts hash t (err e) s c at u h =
      absurd (end_chain-err w.servers.ending t w.now e (w.later s) h)
  checked-Accepts hash t (ok _) s c at u h = usable-Accepts hash t s c at u h

  found-Accepts :
      (hash : Text) (o : Option RefreshToken) (s : Store) {pair : TokenPair}
      → IsChained s
      → select_one (λ (x : RefreshToken). text_eq x.hash hash) s.tokens ≡ o
      → (refresh_found sha256 w.issue_access w.servers w.meanwhile w.later w.drawn w.now
          (token_or_missing o)
          s).0
        ≡ ok pair
      → Accepts hash s
          (refresh_found sha256 w.issue_access w.servers w.meanwhile w.later w.drawn w.now
            (token_or_missing o)
            s).1
          pair
          w.now
  unfolding refresh_found token_or_missing
  found-Accepts hash none s c at h = cc
  found-Accepts hash (some t) s c at h =
      checked-Accepts hash t (ensure_usable t w.now) s c at refl h

  -- A call of Refresh that gives a pair has read a usable token under the value, one that was not
  -- revoked and had not expired, has ended it, and the pair's refresh token expires when that one
  -- does.
  pub call-Accepts :
      (value : Text) (s : Store) (pair : TokenPair)
      → IsChained s
      → (call sha256 w value s).0 ≡ ok pair
      → Accepts (sha256 value) s (call sha256 w value s).1 pair w.now
  unfolding refresh find_by_hash
  call-Accepts value s pair c h =
      subst (λ u. Accepts (sha256 value) s u pair w.now)
        (sym (as_refreshed-store sha256 w (found sha256 w value s)))
        (found-Accepts (sha256 value) _ s c refl (as_refreshed_ok (found sha256 w value s) h))
