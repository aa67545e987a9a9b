-- ===== src/Identity/Domain.antt =====
-- services/identity/internal/domain/refresh_token.go and errors.go. A hash is a text of bytes, and
-- `revoked_at` is none where the code has the zero time. `sha256` is the digest. What a call draws,
-- two identifiers and the value of a token, is an argument.
use system_design_ecommerce.Prelude.{ℕ, Bool, true, false, not, Option, none, some, if◌then◌else◌}
use system_design_ecommerce.Prelude.Int.{ℤ, pos, ltb_ℤ, leb_ℤ, ◌+ℤ◌}
use system_design_ecommerce.Errors.{
  Kind, unauthenticated, internal, sentinel, fault, Result, ok, refuse_if, ◌>>◌,
}
use system_design_ecommerce.Text.{Text}

-- the sentinels of errors.go
pub data Sentinel : Type 0 where
  invalid_credentials refresh_token_expired refresh_token_revoked : Sentinel

abbrev pub same_sentinel : Sentinel → Sentinel → Bool
same_sentinel invalid_credentials invalid_credentials = true
same_sentinel refresh_token_expired refresh_token_expired = true
same_sentinel refresh_token_revoked refresh_token_revoked = true
same_sentinel _ _ = false

-- ErrorKind
abbrev pub sentinel_kind : Sentinel → Kind
sentinel_kind _ = unauthenticated

pub record RefreshToken : Type 0 where
  pub id : Text
  pub user_id : Text
  pub hash : Text
  pub family_id : Text
  pub expires_at : ℤ
  pub revoked_at : Option ℤ
  pub created_at : ℤ
  pub updated_at : ℤ
  pub version : ℕ

-- what uuid.NewString and newTokenValue draw for one token
pub record Drawn : Type 0 where
  pub id : Text
  pub family_id : Text
  pub value : Text

-- IsRevoked
abbrev pub is_revoked : RefreshToken → Bool
is_revoked t = revoked t.revoked_at
  where
    revoked : Option ℤ → Bool
    revoked none = false
    revoked (some at) = true

-- EnsureUsable
unfoldable pub ensure_usable : RefreshToken → ℤ → Result Sentinel (Unit {0})
ensure_usable t now =
    refuse_if (not (ltb_ℤ now t.expires_at)) (sentinel refresh_token_expired)
    >> refuse_if (is_revoked t) (sentinel refresh_token_revoked)

-- Revoke
unfoldable pub revoke : RefreshToken → ℤ → RefreshToken
revoke t now = if is_revoked t then t else record t { revoked_at = some now }

module _ (sha256 : Text → Text) where
  -- HashRefreshToken
  abbrev pub hash_refresh_token : Text → Text
  hash_refresh_token value = sha256 value

  -- IssueRefreshToken
  unfoldable pub issue_refresh_token : Drawn → Text → ℤ → ℤ → Result Sentinel RefreshToken
  issue_refresh_token drawn user_id ttl now =
      refuse_if (leb_ℤ ttl (pos 0)) (fault internal "")
      >> ok (record {
        id = drawn.id;
        user_id = user_id;
        hash = hash_refresh_token drawn.value;
        family_id = drawn.family_id;
        expires_at = now +ℤ ttl;
        revoked_at = none;
        created_at = pos 0;
        updated_at = pos 0;
        version = 1;
      })

  -- the token that Rotate makes of a usable one
  abbrev pub successor_of : Drawn → RefreshToken → RefreshToken
  successor_of drawn t = record {
    id = drawn.id;
    user_id = t.user_id;
    hash = hash_refresh_token drawn.value;
    family_id = t.family_id;
    expires_at = t.expires_at;
    revoked_at = none;
    created_at = pos 0;
    updated_at = pos 0;
    version = 1;
  }

  -- Rotate: the successor, and the token as it was spent
  unfoldable pub rotate : Drawn → RefreshToken → ℤ → Result Sentinel (RefreshToken × RefreshToken)
  unfolding ensure_usable
  rotate drawn t now =
      ensure_usable t now >> ok (successor_of drawn t, record t { revoked_at = some now })
