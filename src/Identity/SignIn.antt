-- ===== src/Identity/SignIn.antt =====
-- Login of services/identity/internal/app/session_service.go.
use system_design_ecommerce.Table.{select_one}
use system_design_ecommerce.Identity.Account.{new_email, User}
use system_design_ecommerce.Identity.Session.{
  fault_or, email_or, err_invalid_credentials, known_user, authenticate,
}
use system_design_ecommerce.Text.{text_eq, Text}
use system_design_ecommerce.Prelude.{
  not, Option, ◌⊎◌, false, some, none, inr, inl, ◌≡◌, refl, Bool, true,
}
use system_design_ecommerce.Errors.{refuse_if, ◌>>◌, ◌>>=◌, Result, ok, err}
use system_design_ecommerce.Identity.Domain.{Sentinel}
use system_design_ecommerce.Identity.Store.{user_or_missing, find_by_email, Store}

-- The password hasher gives an answer of its own.
abbrev pub Answers : (Text → Text → Result Sentinel Bool) → Type 0
Answers verify = (hash password : Text) → (b : Bool) × (verify hash password ≡ ok b)

module _ (lower : Text → Text) (verify : Text → Text → Result Sentinel Bool) (email password : Text)
    (s : Store) where
  -- What signing in asks of a user.
  abbrev pub SignsIn : User → Type 0
  SignsIn user =
      (address : Text) × (new_email lower email ≡ ok address)
      × (select_one (λ (u : User). text_eq u.email address) s.users ≡ some user)
      × (verify user.password_hash password ≡ ok true)

  -- An answer that is a user who signs in, or the one error.
  abbrev pub IsAnswer : Result Sentinel User → Type 0
  IsAnswer x = ((user : User) × (x ≡ ok user) × SignsIn user) ⊎ (x ≡ err err_invalid_credentials)

  by_verify :
      (address : Text) (user : User) (x : Result Sentinel Bool)
      → new_email lower email ≡ ok address
      → select_one (λ (u : User). text_eq u.email address) s.users ≡ some user
      → verify user.password_hash password ≡ x
      → (b : Bool) × (x ≡ ok b)
      → IsAnswer (fault_or x >>= λ m. refuse_if (not m) err_invalid_credentials >> ok user)
  by_verify address user (ok true) e at v total = inl (user, refl, (address, e, at, v))
  by_verify address user (ok false) e at v total = inr refl
  by_verify address user (err f) e at v (b, clash) = cc

  by_user :
      (address : Text) (o : Option User)
      → Answers verify
      → new_email lower email ≡ ok address
      → select_one (λ (u : User). text_eq u.email address) s.users ≡ o
      → IsAnswer (
          known_user (user_or_missing o) >>= λ user.
          fault_or (verify user.password_hash password) >>= λ m.
          refuse_if (not m) err_invalid_credentials >> ok user)
  unfolding known_user user_or_missing
  by_user address none total e at = inr refl
  by_user address (some user) total e at =
      by_verify address user (verify user.password_hash password) e at refl
        (total user.password_hash password)

  by_address :
      (x : Result Sentinel Text)
      → Answers verify
      → new_email lower email ≡ x
      → IsAnswer (
          email_or x >>= λ address. known_user (find_by_email address s) >>= λ user.
          fault_or (verify user.password_hash password) >>= λ m.
          refuse_if (not m) err_invalid_credentials >> ok user)
  unfolding find_by_email
  by_address (err f) total e = inr refl
  by_address (ok address) total e = by_user address _ total e refl

  -- Who signs in with an address and a password is the user stored under the address, where the
  -- password is theirs; and every other attempt, with an address that is none, that nobody has, or
  -- with a wrong password, gets one and the same error. Where the hasher gives an answer.
  pub authenticate_lem : Answers verify → IsAnswer (authenticate lower verify email password s)
  unfolding authenticate
  authenticate_lem total = by_address (new_email lower email) total refl
