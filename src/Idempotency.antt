-- ===== src/Idempotency.antt =====
-- The idempotency keys of the order and the payment service (internal/adapter/out/postgres/
-- idempotency_store.go, which both declare in the same words up to the name of the answer): a table
-- whose primary key is the user and the key, and whose rows say what was asked and which row of the
-- service answers it. A hash is a text of bytes.
pub mod Laws
use system_design_ecommerce.Prelude.{
  Bool, true, false, ◌&&◌, Option, none, some, List, [], ◌∷◌, ◌++◌,
}
use system_design_ecommerce.Text.{Text, text_eq}
use system_design_ecommerce.Table.{select_one}

pub record Claim : Type 0 where
  pub user_id : Text
  pub key : Text
  pub request_hash : Text
  pub answer : Text

-- WHERE user_id = $1 AND key = $2
abbrev pub is_claim_of : Text → Text → Claim → Bool
is_claim_of user_id key c = text_eq c.user_id user_id && text_eq c.key key

-- Find
unfoldable pub find_claim : Text → Text → List Claim → Option Claim
find_claim user_id key claims = select_one (is_claim_of user_id key) claims

-- INSERT ... ON CONFLICT DO NOTHING, by the row that stands in the way
unfoldable pub claimed_or : Claim → List Claim → Option Claim → Claim × Bool × List Claim
claimed_or c claims none = (c, true, claims ++ c ∷ [])
claimed_or c claims (some existing) = (existing, false, claims)

-- Claim: the claim that stands, whether this call took it, and the table
unfoldable pub take_claim : Claim → List Claim → Claim × Bool × List Claim
unfolding find_claim claimed_or
take_claim c claims = claimed_or c claims (find_claim c.user_id c.key claims)
