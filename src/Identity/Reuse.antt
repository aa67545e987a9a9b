-- ===== src/Identity/Reuse.antt =====
-- A refresh token that is presented again: services/identity/internal/app/session_service.go.
use system_design_ecommerce.Identity.Later.{Later-select_one}
use system_design_ecommerce.Identity.Accepted.{call-Accepts}
use system_design_ecommerce.Table.{select_one}
use system_design_ecommerce.Identity.Chains.{Reach-Later, Reach}
use system_design_ecommerce.Identity.Families.{IsChained, revoked-none, live_in}
use system_design_ecommerce.Prelude.Int.{ltb_ℤ, ℤ}
use system_design_ecommerce.Identity.Session.{
  refresh_found, refresh, as_refresh_failure, end_chain_on_reuse, TokenPair, refresh_checked,
  as_refreshed,
}
use system_design_ecommerce.Identity.Domain.{
  is_revoked, refresh_token_revoked, refresh_token_expired, ensure_usable, Sentinel, RefreshToken,
}
use system_design_ecommerce.Tx.{commits, conclude, run_tx}
use system_design_ecommerce.Text.{text_eq, Text}
use system_design_ecommerce.Prelude.{
  some, Bool-cases, ◌⊎◌, false, refl, inr, inl, ◌≡◌, sym, ◌∙◌, ap, true,
}
use system_design_ecommerce.Errors.{unauthenticated, Error, wrapped, Result, ok, err}
use system_design_ecommerce.Table.Laws.{total}
use system_design_ecommerce.Identity.Store.{token_or_missing, find_by_hash, revoke_family, Store}
use system_design_ecommerce.Identity.Refreshed.{Around, call}

-- What Refresh answers to a token that it refuses.
abbrev pub refusal : Sentinel → Error Sentinel
refusal e = wrapped e unauthenticated "REFRESH_TOKEN_INVALID"

revoke_family-ends :
    (family : Text) (now : ℤ) (s : Store)
    → total (live_in family) (run_tx commits (revoke_family family now) s).1.tokens ≡ 0
unfolding revoke_family run_tx conclude
revoke_family-ends family now s = revoked-none family s.clock now s.tokens

module _ (sha256 : Text → Text) (w : Around sha256) where
  -- What a call of Refresh with a token that has ended comes to.
  abbrev pub IsRefused : RefreshToken → Result Sentinel TokenPair × Store → Type 0
  IsRefused t x =
      ((x.0 ≡ err (refusal refresh_token_expired)) × (ltb_ℤ w.now t.expires_at ≡ false))
      ⊎ ((x.0 ≡ err (refusal refresh_token_revoked)) × (total (live_in t.family_id) x.1.tokens ≡ 0))

  checked-IsRefused :
      (t : RefreshToken) (s : Store)
      → w.servers.ending ≡ commits
      → is_revoked t ≡ true
      → IsRefused t (
          as_refreshed (
            refresh_checked sha256 w.issue_access w.servers w.meanwhile w.later w.drawn t w.now
              (ensure_usable t w.now)
              s))
  unfolding as_refreshed refresh_checked ensure_usable end_chain_on_reuse as_refresh_failure run_tx
      conclude revoke_family
  checked-IsRefused t s works ended = elim (Bool-cases (ltb_ℤ w.now t.expires_at)) [
    | inl y ↦ rw y (
        rw ended (
          rw works
            (inr (refl, revoked-none t.family_id (w.later s).clock w.now (w.later s).tokens))))
    | inr n ↦ rw n (inl (refl, refl))
  ]

  found-IsRefused :
      (value : Text) (t : RefreshToken) (s : Store)
      → w.servers.ending ≡ commits
      → select_one (λ (x : RefreshToken). text_eq x.hash (sha256 value)) s.tokens ≡ some t
      → is_revoked t ≡ true
      → IsRefused t (call sha256 w value s)
  unfolding refresh find_by_hash token_or_missing refresh_found
  found-IsRefused value t s works at ended = rw at (checked-IsRefused t s works ended)

-- A refresh token that Refresh took once is never taken again, whatever is written since. Presented
-- again while its chain has not expired, it is refused and no token of the chain is live any more;
-- presented later, it is refused as expired. Where RevokeFamily gets through.
pub refresh-once :
    (sha256 : Text → Text) (w w' : Around sha256) (value : Text) (s t : Store) (pair : TokenPair)
    → IsChained s
    → (call sha256 w value s).0 ≡ ok pair
    → Reach sha256 (call sha256 w value s).1 t
    → w'.servers.ending ≡ commits
    → (r : RefreshToken) × (select_one
          (λ (x : RefreshToken). text_eq x.hash (sha256 value))
          t.tokens
        ≡ some r)
      × (r.expires_at ≡ pair.refresh_token_expires_at)
      × IsRefused sha256 w' r (call sha256 w' value t)
refresh-once sha256 w w' value s t pair c took reach works =
    let a = call-Accepts sha256 w value s pair c took in
    let (r, at, e) =
      Later-select_one (λ x. text_eq x.hash (sha256 value)) (call sha256 w value s).1.tokens
        t.tokens (λ x y e. ap (λ i. text_eq i (sha256 value)) e.same_hash)
        (Reach-Later sha256 (call sha256 w value s).1 t reach) a.there in
    (
      r,
      at,
      sym e.same_expiry ∙ sym a.evolved.same_expiry ∙ sym a.same_expiry,
      found-IsRefused sha256 w' value r t works at (e.stays a.revoked),
    )
