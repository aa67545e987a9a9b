-- ===== src/Identity/Refreshed.antt =====
-- Refresh of services/identity/internal/app/session_service.go, as steps of Identity/Chains.
use system_design_ecommerce.Table.Keys.{All-FoundByKey, FoundByKey}
use system_design_ecommerce.Identity.Later.{Later-select_one}
use system_design_ecommerce.Table.Laws.{All-select_one}
use system_design_ecommerce.Identity.Rotation.{Known}
use system_design_ecommerce.Table.{select_one}
use system_design_ecommerce.Identity.Families.{IsChained}
use system_design_ecommerce.Prelude.Int.{ℤ}
use system_design_ecommerce.Identity.Domain.{
  ensure_usable, successor_of, rotate, refresh_token_revoked, Drawn, same_sentinel, Sentinel,
  RefreshToken,
}
use system_design_ecommerce.Tx.{with_parsed-keeps, run_tx}
use system_design_ecommerce.Identity.Session.{
  fault_or, rotate_tx, refresh_found, as_refreshed, refresh_checked, prepare_refresh,
  refresh_usable, Servers, refresh, AccessToken, caused, TokenPair, end_chain_on_reuse,
  after_rotate,
}
use system_design_ecommerce.Identity.Chains.{
  rotates, Reach-Later, here, Reach-IsChained, Reach-trans, revokes, onward, Reach,
}
use system_design_ecommerce.Text.{text_eq, Text}
use system_design_ecommerce.Prelude.{
  Option, some, none, Bool-cases, List, refl, inr, inl, ◌≡◌, sym, ap, subst,
}
use system_design_ecommerce.Errors.{>>=-eq-ok, ◌>>◌, is, Error, Result, ok, err}
use system_design_ecommerce.Identity.Store.{
  find_user, token_or_missing, find_by_hash, revoke_family, Store,
}

-- What surrounds one call of Refresh: the issuer of access tokens, how the server answers, what
-- others store meanwhile and later, what the call draws, and when it is.
pub record Around (sha256 : Text → Text) : Type 0 where
  pub issue_access : Text → List Text → Result Sentinel AccessToken
  pub servers : Servers
  pub meanwhile : Store → Store
  pub later : Store → Store
  pub drawn : Drawn
  pub now : ℤ
  pub meanwhile_writes : (s : Store) → Reach sha256 s (meanwhile s)
  pub later_writes : (s : Store) → Reach sha256 s (later s)

module _ (sha256 : Text → Text) (w : Around sha256) where
  -- Refresh
  abbrev pub call : Text → Store → Result Sentinel TokenPair × Store
  call = refresh sha256 w.issue_access w.servers w.meanwhile w.later w.drawn w.now

  -- one write, after others
  then_ends :
      (family : Text) (s t : Store)
      → Reach sha256 s t
      → Reach sha256 s (run_tx w.servers.ending (revoke_family family w.now) t).1
  then_ends family s t r = onward s t _ r (revokes w.servers.ending family w.now t)

  caused-store :
      (cause : Error Sentinel) (x : Result Sentinel (Unit {0}) × Store)
      → (caused {A = TokenPair} cause x).1 ≡ x.1
  caused-store cause (ok _, s) = refl
  caused-store cause (err e, s) = refl

  caused-Reach :
      (t : RefreshToken) (cause : Error Sentinel) (s u : Store)
      → Reach sha256 s u
      → Reach sha256 s
          (caused {A = TokenPair} cause
            (run_tx w.servers.ending (revoke_family t.family_id w.now) u)).1
  caused-Reach t cause s u r =
      subst (Reach sha256 s)
        (sym (caused-store cause (run_tx w.servers.ending (revoke_family t.family_id w.now) u)))
        (then_ends t.family_id s u r)

  end_chain-Reach :
      (t : RefreshToken) (cause : Error Sentinel) (s u : Store)
      → Reach sha256 s u
      → Reach sha256 s (end_chain_on_reuse {A = TokenPair} w.servers.ending t w.now cause u).1
  unfolding end_chain_on_reuse
  end_chain-Reach t cause s u r = elim (Bool-cases (is same_sentinel cause refresh_token_revoked)) [
    | inl y ↦ rw y (caused-Reach t cause s u r)
    | inr n ↦ rw n r
  ]

  after_rotate-Reach :
      (t : RefreshToken) (pair : TokenPair) (s : Store) (x : Result Sentinel RefreshToken × Store)
      → Reach sha256 s x.1
      → Reach sha256 s (after_rotate sha256 w.issue_access w.servers w.later t w.now pair x).1
  unfolding after_rotate
  after_rotate-Reach t pair s (ok _, u) r = r
  after_rotate-Reach t pair s (err e, u) r =
      elim (Bool-cases (is same_sentinel e refresh_token_revoked)) [
        | inl y ↦ rw y (
            caused-Reach t e s (w.later u)
              (Reach-trans sha256 s u (w.later u) r (w.later_writes u)))
        | inr n ↦ rw n r
      ]

  pub prepared_successor :
      (t successor : RefreshToken) (access : AccessToken) (s : Store)
      → prepare_refresh sha256 w.issue_access w.drawn t w.now s ≡ ok (successor, access)
      → successor ≡ successor_of sha256 w.drawn t
  unfolding prepare_refresh rotate
  prepared_successor t successor access s h =
      let (user, u, rest) = >>=-eq-ok (find_user t.user_id s) _ h in
      let ((made, spent), e, rest) =
        >>=-eq-ok
          (ensure_usable t w.now
            >> ok (successor_of sha256 w.drawn t, record t { revoked_at = some w.now }))
          _ rest in
      let (usable, u, e) = >>=-eq-ok (ensure_usable t w.now) _ e in
      let (given, a, rest) = >>=-eq-ok (fault_or (w.issue_access user.id user.roles)) _ rest in cc

  -- A token that is found by its hash is the one of its identifier.
  pub found_by_id :
      (hash : Text) (s : Store) (t : RefreshToken)
      → IsChained s
      → select_one (λ (x : RefreshToken). text_eq x.hash hash) s.tokens ≡ some t
      → select_one (λ (x : RefreshToken). text_eq x.id t.id) s.tokens ≡ some t
  found_by_id hash s t c h =
      All-select_one (λ (x : RefreshToken). text_eq x.hash hash)
        (FoundByKey (λ (x : RefreshToken). x.id) s.tokens) s.tokens
        (All-FoundByKey (λ (x : RefreshToken). x.id) s.tokens c.unique_ids) h

  pub Later-Known :
      (t : RefreshToken) (s u : Store)
      → select_one (λ (x : RefreshToken). text_eq x.id t.id) s.tokens ≡ some t
      → Reach sha256 s u
      → Known t u
  Later-Known t s u h r =
      Later-select_one (λ x. text_eq x.id t.id) s.tokens u.tokens
        (λ x y e. ap (λ i. text_eq i t.id) e.same_id) (Reach-Later sha256 s u r) h

  refresh_usable-Reach :
      (t : RefreshToken) (s : Store)
      → select_one (λ (x : RefreshToken). text_eq x.id t.id) s.tokens ≡ some t
      → Reach sha256 s
          (refresh_usable sha256 w.issue_access w.servers w.meanwhile w.later w.drawn t w.now s).1
  unfolding refresh_usable
  refresh_usable-Reach t s h =
      with_parsed-keeps (Reach sha256 s) (prepare_refresh sha256 w.issue_access w.drawn t w.now s) _
        s (here s)
        λ (successor, access) e.
          let m = w.meanwhile_writes s in
          rw (prepared_successor t successor access s e) (
            after_rotate-Reach t _ s
              (run_tx w.servers.rotating (rotate_tx t.id w.now (successor_of sha256 w.drawn t))
                (w.meanwhile s))
              (onward s (w.meanwhile s) _ m (
                rotates w.servers.rotating t w.drawn w.now (w.meanwhile s)
                  (Later-Known t s (w.meanwhile s) h m))))

  refresh_checked-Reach :
      (t : RefreshToken) (x : Result Sentinel (Unit {0})) (s : Store)
      → select_one (λ (x : RefreshToken). text_eq x.id t.id) s.tokens ≡ some t
      → Reach sha256 s
          (refresh_checked sha256 w.issue_access w.servers w.meanwhile w.later w.drawn t w.now x
            s).1
  unfolding refresh_checked
  refresh_checked-Reach t (err e) s h = end_chain-Reach t e s (w.later s) (w.later_writes s)
  refresh_checked-Reach t (ok _) s h = refresh_usable-Reach t s h

  refresh_found-Reach :
      (hash : Text) (o : Option RefreshToken) (s : Store)
      → IsChained s
      → select_one (λ (x : RefreshToken). text_eq x.hash hash) s.tokens ≡ o
      → Reach sha256 s
          (refresh_found sha256 w.issue_access w.servers w.meanwhile w.later w.drawn w.now
            (token_or_missing o)
            s).1
  unfolding refresh_found token_or_missing
  refresh_found-Reach hash none s c h = here s
  refresh_found-Reach hash (some t) s c h =
      refresh_checked-Reach t (ensure_usable t w.now) s (found_by_id hash s t c h)

  pub as_refreshed-store : (x : Result Sentinel TokenPair × Store) → (as_refreshed x).1 ≡ x.1
  unfolding as_refreshed
  as_refreshed-store (ok pair, s) = refl
  as_refreshed-store (err e, s) = refl

  -- Refresh, before its failures are collapsed
  abbrev pub found : Text → Store → Result Sentinel TokenPair × Store
  found value s =
      refresh_found sha256 w.issue_access w.servers w.meanwhile w.later w.drawn w.now
        (find_by_hash (sha256 value) s) s

  -- Refresh as a whole, whatever others write while it runs, leads to a store that writes of the
  -- service lead to, and so keeps at most one live token in every chain, and one end.
  pub refresh-Reach :
      (value : Text) (s : Store)
      → IsChained s
      → Reach sha256 s (call value s).1 × IsChained (call value s).1
  unfolding refresh find_by_hash
  refresh-Reach value s c =
      let reached : Reach sha256 s (call value s).1 =
        subst (Reach sha256 s) (sym (as_refreshed-store (found value s)))
          (refresh_found-Reach (sha256 value) _ s c refl) in
      (reached, Reach-IsChained sha256 s _ reached c)
