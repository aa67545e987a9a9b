-- ===== src/Identity/Account.antt =====
-- services/identity/internal/domain/user.go and event.go. `lower` is strings.ToLower, and `is_uuid`
-- says where uuid.Validate gives no error. The identifier that a call draws is an argument.
use system_design_ecommerce.Uuid.{byte_len}
use system_design_ecommerce.Text.Case.{trim_space}
use system_design_ecommerce.Prelude.{
  ℕ, Bool, false, ◌||◌, not, Option, none, some, List, [], ◌∷◌, ltb, ◌==◌, if◌then◌else◌,
}
use system_design_ecommerce.Prelude.Int.{ℤ, pos}
use system_design_ecommerce.Errors.{validation, Result, ok, err, refuse_if, ◌>>◌}
use system_design_ecommerce.Text.{Text, is_empty}
use system_design_ecommerce.Identity.Domain.{Sentinel}

-- UserRegistered, once the adapter has stamped it: its payload is the user, the address, the roles
-- and when the row was written
pub data Event : Type 0 where
  user_registered : Text → Text → List Text → ℤ → Event

pub record User : Type 0 where
  pub id : Text
  pub email : Text
  pub password_hash : Text
  pub roles : List Text
  pub created_at : ℤ
  pub updated_at : ℤ
  pub version : ℕ

-- RoleCustomer
abbrev pub role_customer : Text
role_customer = b'c' ∷ b'u' ∷ b's' ∷ b't' ∷ b'o' ∷ b'm' ∷ b'e' ∷ b'r' ∷ []

-- NewUser; its event is made of the same fields
unfoldable pub new_user : Text → Text → Text → Result Sentinel User
new_user drawn email password_hash =
    refuse_if (is_empty password_hash) (validation "password" "hash is empty")
    >> ok (record {
      id = drawn;
      email = email;
      password_hash = password_hash;
      roles = role_customer ∷ [];
      created_at = pos 0;
      updated_at = pos 0;
      version = 1;
    })

-- ParseUserID
unfoldable pub parse_user_id : (Text → Text) → (Text → Bool) → Text → Result Sentinel Text
parse_user_id lower is_uuid s =
    refuse_if (not (byte_len s == 36)) (validation "id" "not a UUID")
    >> (refuse_if (not (is_uuid (lower s))) (validation "id" "not a UUID") >> ok (lower s))

-- strings.Cut, with a separator of one code point
unfoldable pub cut : ℕ → Text → Option (Text × Text)
cut sep [] = none
cut sep (c ∷ s) = if c == sep then some ([], s) else behind c (cut sep s)
  where
    behind : ℕ → Option (Text × Text) → Option (Text × Text)
    behind c none = none
    behind c (some (before, after)) = some (c ∷ before, after)

-- strings.ContainsAny
abbrev contains_any : List ℕ → Text → Bool
contains_any chars [] = false
contains_any chars (c ∷ s) = is_one_of chars || contains_any chars s
  where
    is_one_of : List ℕ → Bool
    is_one_of [] = false
    is_one_of (d ∷ ds) = c == d || is_one_of ds

-- emailMaxLen
abbrev email_max_len : ℕ
email_max_len = 254

-- what NewEmail asks of the parts around the first @
unfoldable pub check_parts : Text → Option (Text × Text) → Result Sentinel Text
check_parts s none = err (validation "email" "not a valid address")
check_parts s (some (local, domain)) =
    refuse_if (is_empty local || is_empty domain || contains_any (b'@' ∷ []) domain)
      (validation "email" "not a valid address")
    >> (refuse_if (not (contains_any (b'.' ∷ []) domain) || contains_any (32 ∷ 9 ∷ 13 ∷ 10 ∷ []) s)
          (validation "email" "not a valid address")
        >> ok s)

-- NewEmail, of the address without the space around it, in lower case
unfoldable pub check_email : Text → Result Sentinel Text
unfolding check_parts cut
check_email s =
    refuse_if (is_empty s) (validation "email" "is required")
    >> (refuse_if (ltb email_max_len (byte_len s)) (validation "email" "is longer than 254 bytes")
        >> check_parts s (cut b'@' s))

-- NewEmail
unfoldable pub new_email : (Text → Text) → Text → Result Sentinel Text
unfolding check_email
new_email lower s = check_email (lower (trim_space s))
