-- ===== src/Identity/Store.antt =====
-- The tables of the identity service and the repositories on them: services/identity/internal/
-- adapter/out/postgres. `outbox` holds the payloads of the records that writeEvents appends, in
-- order. `clock` is now(), the start of the running transaction. `is_lowered` is the CHECK on the
-- address, email = lower(email). A live token has version 1 and an update ends it, so that `version`
-- stays within its column.
use system_design_ecommerce.Prelude.{
  ◌+◌, Bool, true, false, ◌&&◌, ◌||◌, not, Option, none, some, List, [], ◌∷◌, ◌++◌, map,
  if◌then◌else◌,
}
use system_design_ecommerce.Prelude.Int.{ℤ}
use system_design_ecommerce.Errors.{fault, internal, conflict, not_found, Result, ok, err}
use system_design_ecommerce.Text.{Text, text_eq}
use system_design_ecommerce.Table.{select_one, update_one, select_all}
use system_design_ecommerce.Tx
use system_design_ecommerce.Identity.Domain.{Sentinel, RefreshToken, is_revoked}
use system_design_ecommerce.Identity.Account.{User, Event, user_registered}

pub record Store : Type 0 where
  pub users : List User
  pub tokens : List RefreshToken
  pub outbox : List Event
  pub clock : ℤ

abbrev pub Action : Type 0 → Type 0
Action A = Tx.Action Store Sentinel A

abbrev pub is_some {ℓ} : {A : Type ℓ} → Option A → Bool
is_some none = false
is_some (some a) = true

-- Create of the refresh tokens: the keys on id and token_hash, and the reference to users
unfoldable pub create_token : RefreshToken → Action RefreshToken
create_token t s =
    if is_some (select_one (λ r. text_eq r.id t.id) s.tokens)
    then err (fault internal "")
    else if is_some (select_one (λ r. text_eq r.hash t.hash) s.tokens)
    then err (fault internal "")
    else if not (is_some (select_one (λ u. text_eq u.id t.user_id) s.users))
    then err (fault internal "")
    else let row : RefreshToken = record t {
      revoked_at = none;
      created_at = s.clock;
      updated_at = s.clock;
      version = 1;
    } in
      ok (row, record s { tokens = s.tokens ++ row ∷ [] })

-- FindByHash
unfoldable pub token_or_missing : Option RefreshToken → Result Sentinel RefreshToken
token_or_missing none = err (fault not_found "REFRESH_TOKEN_NOT_FOUND")
token_or_missing (some t) = ok t

unfoldable pub find_by_hash : Text → Store → Result Sentinel RefreshToken
unfolding token_or_missing
find_by_hash hash s = token_or_missing (select_one (λ r. text_eq r.hash hash) s.tokens)

-- what both UPDATEs of refresh_tokens set
abbrev pub ended : ℤ → ℤ → RefreshToken → RefreshToken
ended clock revoked_at r = record r {
  revoked_at = some revoked_at;
  updated_at = clock;
  version = r.version + 1;
}

-- WHERE id = $1 AND revoked_at IS NULL
abbrev pub is_live_id : Text → RefreshToken → Bool
is_live_id id r = text_eq r.id id && not (is_revoked r)

-- Spend: whether a row was updated
unfoldable pub spend : Text → ℤ → Action Bool
spend id revoked_at s = ok (
  is_some (select_one (is_live_id id) s.tokens),
  record s { tokens = update_one (is_live_id id) (ended s.clock revoked_at) s.tokens },
)

-- one row, under UPDATE ... WHERE family_id = $1 AND revoked_at IS NULL
unfoldable pub end_member : Text → ℤ → ℤ → RefreshToken → RefreshToken
end_member family clock revoked_at r =
    if text_eq r.family_id family && not (is_revoked r) then ended clock revoked_at r else r

-- RevokeFamily
unfoldable pub revoke_family : Text → ℤ → Action (Unit {0})
unfolding end_member
revoke_family family revoked_at s =
    ok (tt, record s { tokens = map (end_member family s.clock revoked_at) s.tokens })

-- CreateUser: the CHECK on the address, the keys on id and email
unfoldable pub create_row : (Text → Bool) → User → Action User
create_row is_lowered u s =
    if not (is_lowered u.email)
    then err (fault internal "")
    else if is_some (select_one (λ r. text_eq r.id u.id) s.users)
    then err (fault internal "")
    else if is_some (select_one (λ r. text_eq r.email u.email) s.users)
    then err (fault conflict "EMAIL_ALREADY_REGISTERED")
    else let row : User = record u { created_at = s.clock; updated_at = s.clock; version = 1 } in
      ok (row, record s { users = s.users ++ row ∷ [] })

-- toPayload
abbrev pub to_payload : User → Event
to_payload row = user_registered row.id row.email row.roles row.created_at

-- writeEvents, of a user that NewUser made
unfoldable pub write_events : User → Action User
write_events row s = ok (row, record s { outbox = s.outbox ++ to_payload row ∷ [] })

-- FindByID and FindByEmail
unfoldable pub user_or_missing : Option User → Result Sentinel User
user_or_missing none = err (fault not_found "USER_NOT_FOUND")
user_or_missing (some u) = ok u

unfoldable pub find_user : Text → Store → Result Sentinel User
unfolding user_or_missing
find_user id s = user_or_missing (select_one (λ r. text_eq r.id id) s.users)

unfoldable pub find_by_email : Text → Store → Result Sentinel User
unfolding user_or_missing
find_by_email email s = user_or_missing (select_one (λ r. text_eq r.email email) s.users)

abbrev is_any : List Text → Text → Bool
is_any [] k = false
is_any (j ∷ js) k = text_eq k j || is_any js k

-- FindByIDs
unfoldable pub find_users : List Text → Store → List User
find_users ids s = select_all (λ r. is_any ids r.id) s.users
