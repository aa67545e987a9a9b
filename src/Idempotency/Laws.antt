-- ===== src/Idempotency/Laws.antt =====
-- The table of idempotency keys, over its operations.
use system_design_ecommerce.Table.Laws.{select_one-append, select_one-snoc}
use system_design_ecommerce.Text.{text_eq_refl}
use system_design_ecommerce.Idempotency.{
  is_claim_of, Text, Claim, claimed_or, take_claim, find_claim,
}
use system_design_ecommerce.Prelude.{arith, true, ◌≡◌, refl, Option, none, some, List, [], ◌∷◌}

-- A claim is found by every later call, whatever was claimed since.
pub take_claim-keeps :
    (user_id key : Text) (c : Claim) (claims : List Claim) {standing : Claim}
    → find_claim user_id key claims ≡ some standing
    → find_claim user_id key (take_claim c claims).2 ≡ some standing
unfolding find_claim take_claim claimed_or
take_claim-keeps user_id key c claims {standing} h = kept (find_claim c.user_id c.key claims)
  where
    kept : (o : Option Claim) → find_claim user_id key (claimed_or c claims o).2 ≡ some standing
    kept none = select_one-append (is_claim_of user_id key) claims (c ∷ []) h
    kept (some existing) = h

-- The claim that a call is told of is the one that is found from then on.
pub take_claim-finds :
    (c : Claim) (claims : List Claim)
    → find_claim c.user_id c.key (take_claim c claims).2 ≡ some (take_claim c claims).0
unfolding find_claim take_claim claimed_or
take_claim-finds c claims = told (find_claim c.user_id c.key claims) refl
  where
    told :
        (o : Option Claim)
        → find_claim c.user_id c.key claims ≡ o
        → find_claim c.user_id c.key (claimed_or c claims o).2 ≡ some (claimed_or c claims o).0
    told none h =
        select_one-snoc (is_claim_of c.user_id c.key) claims c h
          (rw (text_eq_refl c.user_id) (text_eq_refl c.key))
    told (some existing) h = h

-- A call that takes the claim is told of its own.
pub claim_taken :
    (c : Claim) (claims : List Claim) → (take_claim c claims).1 ≡ true → (take_claim c claims).0 ≡ c
unfolding take_claim claimed_or
claim_taken c claims = taken (find_claim c.user_id c.key claims)
  where
    taken : (o : Option Claim) → (claimed_or c claims o).1 ≡ true → (claimed_or c claims o).0 ≡ c
    taken none h = refl
    taken (some d) h = absurd (ground arith)
