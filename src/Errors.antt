-- ===== src/Errors.antt =====
-- The errors of the services: pkg/errorx/errorx.go, and the `ValidationError` and `sentinelError`
-- that each service's internal/domain/errors.go declares in the same words. `S` is a service's
-- sentinels. Messages built with Sprintf and metadata are left out: no code branches on them.
use system_design_ecommerce.Prelude.{String, ◌≡◌, refl, Bool, true, false}

-- errorx.Kind
pub data Kind : Type 0 where
  not_found invalid_input conflict unauthenticated unauthorized internal : Kind

-- What a function returns as its `error`. `fault` is errorx.New with its kind and reason, and
-- `wrapped` is errorx.Wrap around a sentinel. A failure of a driver, wrapped as Internal, is a
-- `fault` too.
pub data Error {ℓ} (S : Type ℓ) : Type ℓ where
  validation : String → String → Error S
  sentinel : S → Error S
  fault : Kind → String → Error S
  wrapped : S → Kind → String → Error S

pub data Result {ℓ κ} (S : Type ℓ) (A : Type κ) : Type (ℓ ⊔ κ) where
  ok : A → Result S A
  err : Error S → Result S A

infixl 5 ◌>>=◌ ◌>>◌
abbrev pub ◌>>=◌ {ℓ κ μ} :
    {S : Type ℓ} {A : Type κ} {B : Type μ} → Result S A → (A → Result S B) → Result S B
err refusal >>= next = err refusal
ok given >>= next = next given

abbrev pub ◌>>◌ {ℓ μ} : {S : Type ℓ} {B : Type μ} → Result S (Unit {0}) → Result S B → Result S B
m >> k = m >>= λ _. k

-- if c { return nil, e }
abbrev pub refuse_if {ℓ} : {S : Type ℓ} → Bool → Error S → Result S (Unit {0})
refuse_if true e = err e
refuse_if false e = ok tt

-- errors.Is(err, s), with the equality of the service's sentinels
abbrev pub is {ℓ} : {S : Type ℓ} → (S → S → Bool) → Error S → S → Bool
is eq (validation _ _) s = false
is eq (sentinel t) s = eq t s
is eq (fault _ _) s = false
is eq (wrapped t _ _) s = eq t s

-- errorx.KindOf, with the kinds that the service's sentinels declare
abbrev pub kind_of {ℓ} : {S : Type ℓ} → (S → Kind) → Error S → Kind
kind_of kind (validation _ _) = invalid_input
kind_of kind (sentinel t) = kind t
kind_of kind (fault k _) = k
kind_of kind (wrapped _ k _) = k

-- Whether a kind is errorx.KindNotFound.
abbrev pub is_not_found : Kind → Bool
is_not_found not_found = true
is_not_found _ = false

-- Inversion of a bind that succeeds.
pub >>=-eq-ok {ℓ κ μ} :
    {S : Type ℓ} {A : Type κ} {B : Type μ} (first : Result S A) (next : A → Result S B) {result : B}
    → (first >>= next) ≡ ok result
    → (given : A) × (first ≡ ok given) × (next given ≡ ok result)
>>=-eq-ok (err refusal) next h = cc
>>=-eq-ok (ok given) next h = (given, refl, h)

pub ok-injective {ℓ κ} :
    {S : Type ℓ} {A : Type κ} {a b : A} → ◌≡◌ {A = Result S A} (ok a) (ok b) → a ≡ b
ok-injective h = cc

-- A check that was passed.
pub refuse_if-eq-ok {ℓ} :
    {S A : Type ℓ} (b : Bool) (e : Error S) (x : Result S A) {r : A}
    → ◌≡◌ {A = Result S A} (refuse_if b e >>= λ _. x) (ok r)
    → (b ≡ false) × (x ≡ ok r)
refuse_if-eq-ok true e x h = cc
refuse_if-eq-ok false e x h = (refl, h)
