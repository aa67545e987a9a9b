-- ===== src/Identity/Session.antt =====
-- SessionService of services/identity/internal/app/session_service.go. The password hasher's Verify
-- (`verify`), the issuer of access tokens (`issue_access`) and the digest (`sha256`) are parameters.
-- `meanwhile` is what other calls store between the reads of Refresh and its transaction, and
-- `later` what they store before a chain is ended. `now` is time.Now(), and how the server answers
-- to each write is an argument. A read is answered.
use system_design_ecommerce.Prelude.{Bool, not, List, if◌then◌else◌}
use system_design_ecommerce.Prelude.Int.{ℤ}
use system_design_ecommerce.Errors.{
  unauthenticated, internal, Error, sentinel, fault, wrapped, is, kind_of, is_not_found, refuse_if,
  Result, ok, err, ◌>>=◌, ◌>>◌,
}
use system_design_ecommerce.Text.{Text}
use system_design_ecommerce.Tx.{with_parsed, Server, run_tx}
use system_design_ecommerce.Identity.Domain.{
  Sentinel, invalid_credentials, refresh_token_expired, refresh_token_revoked, same_sentinel,
  sentinel_kind, RefreshToken, Drawn, ensure_usable, rotate, issue_refresh_token,
}
use system_design_ecommerce.Identity.Account.{User, new_email}
use system_design_ecommerce.Identity.Store.{
  Store, Action, create_token, find_by_hash, find_user, find_by_email, spend, revoke_family,
}

-- out.AccessToken
pub record AccessToken : Type 0 where
  pub value : Text
  pub expires_at : ℤ

-- in.TokenPair
pub record TokenPair : Type 0 where
  pub access_token : Text
  pub access_token_expires_at : ℤ
  pub refresh_token : Text
  pub refresh_token_expires_at : ℤ

-- in.Session
pub record Session : Type 0 where
  pub tokens : TokenPair
  pub user : User

-- How the server answers to the transaction of Refresh, and to RevokeFamily.
pub record Servers : Type 0 where
  pub rotating : Server
  pub ending : Server

-- errInvalidCredentials
abbrev pub err_invalid_credentials : Error Sentinel
err_invalid_credentials = wrapped invalid_credentials unauthenticated "INVALID_CREDENTIALS"

-- asRefreshFailure
unfoldable pub as_refresh_failure : Error Sentinel → Error Sentinel
as_refresh_failure e =
    if is same_sentinel e refresh_token_expired
    then wrapped refresh_token_expired unauthenticated "REFRESH_TOKEN_INVALID"
    else if is same_sentinel e refresh_token_revoked
    then wrapped refresh_token_revoked unauthenticated "REFRESH_TOKEN_INVALID"
    else e

abbrev pub fault_or {ℓ} : {A : Type ℓ} → Result Sentinel A → Result Sentinel A
fault_or (ok a) = ok a
fault_or (err e) = err (fault internal "")

-- endChainOnReuse, once RevokeFamily has answered
abbrev pub caused {ℓ} :
    {A : Type ℓ} → Error Sentinel → Result Sentinel (Unit {0}) × Store → Result Sentinel A × Store
caused cause (ok _, s) = (err cause, s)
caused cause (err e, s) = (err e, s)

-- endChainOnReuse
unfoldable pub end_chain_on_reuse {ℓ} :
    {A : Type ℓ} → Server → RefreshToken → ℤ → Error Sentinel → Store → Result Sentinel A × Store
end_chain_on_reuse server t now cause s =
    if not (is same_sentinel cause refresh_token_revoked)
    then (err cause, s)
    else caused cause (run_tx server (revoke_family t.family_id now) s)

-- the transaction of refresh
unfoldable pub rotate_tx : Text → ℤ → RefreshToken → Action RefreshToken
rotate_tx id now successor s = do
  (spent, s') ← spend id now s
  refuse_if (not spent) (sentinel refresh_token_revoked)
  create_token successor s'

-- the answer of Refresh, by that of refresh
unfoldable pub as_refreshed : Result Sentinel TokenPair × Store → Result Sentinel TokenPair × Store
unfolding as_refresh_failure
as_refreshed (ok pair, s) = (ok pair, s)
as_refreshed (err e, s) = (err (as_refresh_failure e), s)

-- the pair that both Refresh and Login give
abbrev pub pair_of : AccessToken → Text → ℤ → TokenPair
pair_of access value expires_at = record {
  access_token = access.value;
  access_token_expires_at = access.expires_at;
  refresh_token = value;
  refresh_token_expires_at = expires_at;
}

-- issue, once the token is stored
abbrev pub issued :
    AccessToken → Text → Result Sentinel RefreshToken × Store → Result Sentinel TokenPair × Store
issued access value (ok stored, s) = (ok (pair_of access value stored.expires_at), s)
issued access value (err e, s) = (err e, s)

-- Login, once the address is parsed and the user looked up: a user that is not there
unfoldable pub known_user : Result Sentinel User → Result Sentinel User
known_user (ok u) = ok u
known_user (err e) =
    if not (is_not_found (kind_of sentinel_kind e)) then err e else err err_invalid_credentials

abbrev pub email_or {ℓ} : {A : Type ℓ} → Result Sentinel A → Result Sentinel A
email_or (ok a) = ok a
email_or (err e) = err err_invalid_credentials

-- Login, up to the session: who signs in
unfoldable pub authenticate :
    (Text → Text)
    → (Text → Text → Result Sentinel Bool)
    → Text
    → Text
    → Store
    → Result Sentinel User
unfolding known_user
authenticate lower verify email password s = do
  address ← email_or (new_email lower email)
  user ← known_user (find_by_email address s)
  matches ← fault_or (verify user.password_hash password)
  refuse_if (not matches) err_invalid_credentials
  ok user

abbrev pub session_of : User → Result Sentinel TokenPair × Store → Result Sentinel Session × Store
session_of user (ok pair, s) = (ok (record { tokens = pair; user = user }), s)
session_of user (err e, s) = (err e, s)

module _ (sha256 : Text → Text)
    (issue_access : Text → List Text → Result Sentinel AccessToken) where
  -- what issue makes before it stores
  unfoldable pub prepare_issue : Drawn → ℤ → ℤ → User → Result Sentinel (RefreshToken × AccessToken)
  prepare_issue drawn ttl now user = do
    t ← fault_or (issue_refresh_token sha256 drawn user.id ttl now)
    access ← fault_or (issue_access user.id user.roles)
    ok (t, access)

  -- issue
  unfoldable pub issue : Server → Drawn → ℤ → ℤ → User → Store → Result Sentinel TokenPair × Store
  unfolding prepare_issue
  issue server drawn ttl now user =
      with_parsed (prepare_issue drawn ttl now user)
        λ (t, access) s. issued access drawn.value (run_tx server (create_token t) s)

  -- Login
  unfoldable pub login :
      (Text → Text)
      → (Text → Text → Result Sentinel Bool)
      → Server
      → Drawn
      → ℤ
      → ℤ
      → Text
      → Text
      → Store
      → Result Sentinel Session × Store
  unfolding authenticate issue
  login lower verify server drawn ttl now email password s =
      with_parsed (authenticate lower verify email password s)
        (λ user s. session_of user (issue server drawn ttl now user s)) s

  -- refresh, once its transaction has ended
  unfoldable pub after_rotate :
      Servers
      → (Store → Store)
      → RefreshToken
      → ℤ
      → TokenPair
      → Result Sentinel RefreshToken × Store
      → Result Sentinel TokenPair × Store
  unfolding end_chain_on_reuse
  after_rotate servers later t now pair (ok _, s) = (ok pair, s)
  after_rotate servers later t now pair (err e, s) =
      if is same_sentinel e refresh_token_revoked
      then end_chain_on_reuse servers.ending t now e (later s)
      else (err e, s)

  -- what refresh makes before its transaction
  unfoldable pub prepare_refresh :
      Drawn → RefreshToken → ℤ → Store → Result Sentinel (RefreshToken × AccessToken)
  unfolding rotate
  prepare_refresh drawn t now s = do
    user ← find_user t.user_id s
    (successor, spent) ← rotate sha256 drawn t now
    access ← fault_or (issue_access user.id user.roles)
    ok (successor, access)

  -- refresh of a usable token
  unfoldable pub refresh_usable :
      Servers
      → (Store → Store)
      → (Store → Store)
      → Drawn
      → RefreshToken
      → ℤ
      → Store
      → Result Sentinel TokenPair × Store
  unfolding prepare_refresh rotate_tx after_rotate
  refresh_usable servers meanwhile later drawn t now s =
      with_parsed (prepare_refresh drawn t now s)
        (λ (successor, access) s'.
          after_rotate servers later t now (pair_of access drawn.value successor.expires_at)
            (run_tx servers.rotating (rotate_tx t.id now successor) (meanwhile s')))
        s

  -- refresh, by what EnsureUsable gives
  unfoldable pub refresh_checked :
      Servers
      → (Store → Store)
      → (Store → Store)
      → Drawn
      → RefreshToken
      → ℤ
      → Result Sentinel (Unit {0})
      → Store
      → Result Sentinel TokenPair × Store
  unfolding refresh_usable end_chain_on_reuse
  refresh_checked servers meanwhile later drawn t now (err e) s =
      end_chain_on_reuse servers.ending t now e (later s)
  refresh_checked servers meanwhile later drawn t now (ok _) s =
      refresh_usable servers meanwhile later drawn t now s

  -- refresh, by what FindByHash gives
  unfoldable pub refresh_found :
      Servers
      → (Store → Store)
      → (Store → Store)
      → Drawn
      → ℤ
      → Result Sentinel RefreshToken
      → Store
      → Result Sentinel TokenPair × Store
  unfolding refresh_checked ensure_usable
  refresh_found servers meanwhile later drawn now (err e) s = (
    if is_not_found (kind_of sentinel_kind e) then err (sentinel refresh_token_revoked) else err e,
    s,
  )
  refresh_found servers meanwhile later drawn now (ok t) s =
      refresh_checked servers meanwhile later drawn t now (ensure_usable t now) s

  -- Refresh
  unfoldable pub refresh :
      Servers
      → (Store → Store)
      → (Store → Store)
      → Drawn
      → ℤ
      → Text
      → Store
      → Result Sentinel TokenPair × Store
  unfolding refresh_found as_refreshed
  refresh servers meanwhile later drawn now value s =
      as_refreshed
        (refresh_found servers meanwhile later drawn now (find_by_hash (sha256 value) s) s)

  -- Logout, by what FindByHash gives
  unfoldable pub logout_found :
      Server → ℤ → Result Sentinel RefreshToken → Store → Result Sentinel (Unit {0}) × Store
  logout_found server now (err e) s =
      (if is_not_found (kind_of sentinel_kind e) then ok tt else err e, s)
  logout_found server now (ok t) s = run_tx server (revoke_family t.family_id now) s

  -- Logout
  unfoldable pub logout : Server → ℤ → Text → Store → Result Sentinel (Unit {0}) × Store
  unfolding logout_found
  logout server now value s = logout_found server now (find_by_hash (sha256 value) s) s
