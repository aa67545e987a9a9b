-- ===== src/Identity/Registration.antt =====
-- UserService of services/identity/internal/app/user_service.go. `hash_password` is the password
-- hasher's Hash, `lower` strings.ToLower, `is_uuid` uuid.Validate, and `is_lowered` the CHECK on the
-- address. Register opens no transaction: each of its two writes is one of its own, and how the
-- server answers to each is an argument.
use system_design_ecommerce.Prelude.{Bool, List, [], ◌∷◌}
use system_design_ecommerce.Errors.{fault, internal, Result, ok, err, ◌>>=◌}
use system_design_ecommerce.Text.{Text}
use system_design_ecommerce.Tx.{with_parsed, Server, run_tx}
use system_design_ecommerce.Identity.Domain.{Sentinel}
use system_design_ecommerce.Identity.Account.{User, new_user, new_email, parse_user_id}
use system_design_ecommerce.Identity.Store.{Store, create_row, write_events, find_user, find_users}

-- RegisterCommand
pub record RegisterCommand : Type 0 where
  pub email : Text
  pub password : Text

-- Create of the user repository, once the row has been written
unfoldable pub after_row : Server → Result Sentinel User × Store → Result Sentinel User × Store
after_row server (err e, s) = (err e, s)
after_row server (ok row, s) = run_tx server (write_events row) s

-- Create of the user repository, outside a transaction
unfoldable pub create_user :
    (Text → Bool) → Server → Server → User → Store → Result Sentinel User × Store
unfolding after_row
create_user is_lowered row_server event_server u s =
    after_row event_server (run_tx row_server (create_row is_lowered u) s)

-- the password's hash, where Hash gives one
abbrev pub hash_or {ℓ} : {A : Type ℓ} → Result Sentinel A → Result Sentinel A
hash_or (ok h) = ok h
hash_or (err e) = err (fault internal "")

-- what Register makes of its command
unfoldable pub build_user :
    (Text → Text) → (Text → Result Sentinel Text) → Text → RegisterCommand → Result Sentinel User
build_user lower hash_password drawn cmd = do
  email ← new_email lower cmd.email
  hash ← hash_or (hash_password cmd.password)
  new_user drawn email hash

-- Register
unfoldable pub register :
    (Text → Text)
    → (Text → Bool)
    → (Text → Result Sentinel Text)
    → Server
    → Server
    → Text
    → RegisterCommand
    → Store
    → Result Sentinel User × Store
unfolding build_user create_user
register lower is_lowered hash_password row_server event_server drawn cmd =
    with_parsed (build_user lower hash_password drawn cmd)
      (create_user is_lowered row_server event_server)

-- GetUser
unfoldable pub get_user : (Text → Text) → (Text → Bool) → Text → Store → Result Sentinel User
get_user lower is_uuid id s = do user_id ← parse_user_id lower is_uuid id; find_user user_id s

-- the loop of GetUsersByIDs
unfoldable pub parse_user_ids :
    (Text → Text) → (Text → Bool) → List Text → Result Sentinel (List Text)
parse_user_ids lower is_uuid [] = ok []
parse_user_ids lower is_uuid (id ∷ ids) = do
  user_id ← parse_user_id lower is_uuid id
  rest ← parse_user_ids lower is_uuid ids
  ok (user_id ∷ rest)

-- GetUsersByIDs
unfoldable pub get_users_by_ids :
    (Text → Text) → (Text → Bool) → List Text → Store → Result Sentinel (List User)
unfolding parse_user_ids
get_users_by_ids lower is_uuid ids s = do
  user_ids ← parse_user_ids lower is_uuid ids
  ok (find_users user_ids s)
