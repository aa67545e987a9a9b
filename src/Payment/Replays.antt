-- ===== src/Payment/Replays.antt =====
-- InitiatePayment of payment_service.go, called again under the key of an earlier call.
use system_design_ecommerce.Prelude.Int.{ℤ}
use system_design_ecommerce.Tx.{Server, run_tx-keeps, run_tx_ok, run_tx}
use system_design_ecommerce.Table.Laws.{select_one-holds}
use system_design_ecommerce.Payment.Paid.{inserted_row, create-Inserts}
use system_design_ecommerce.Idempotency.Laws.{claim_taken, take_claim-finds}
use system_design_ecommerce.Table.Laws.{select_one-snoc}
use system_design_ecommerce.Payment.Keys.{
  settle_tx-Grows, Grows-trans, run-Grows, Grows, open_tx-creates,
}
use system_design_ecommerce.Table.{select_one}
use system_design_ecommerce.Text.{text_eq→eq, eq→text_eq, text_eq_refl, text_eq, Text}
use system_design_ecommerce.Idempotency.{find_claim, Claim}
use system_design_ecommerce.Payment.Initiate.{
  key_reused, with_next_action, refused, answers, replayed, PayableOrder, Stop, after_charge,
  after_open, open_attempt, Outcome, initiate, ChargeCommand, after_replay, replay_of, open_tx,
  replay, Request,
}
use system_design_ecommerce.Errors.{Result, wrapped, fault, validation, sentinel, err, ok}
use system_design_ecommerce.Prelude.{
  false, ◌⊎◌, inr, inl, subst, true, ◌≡◌, refl, sym, ◌∙◌, ap, Option, none, some, List, [], ◌∷◌,
  arith,
}
use system_design_ecommerce.Payment.Domain.{Sentinel, Payment, ChargeResult}
use system_design_ecommerce.Payment.Store.{is_some, claim_key, create, Store, find_by_id, found}
use system_design_ecommerce.Payment.Settle.{settle_tx, settle}
use system_design_ecommerce.Payment.Runs.{claim_of, Step, run}

-- The request has been claimed for an attempt that is stored.
pub record IsAnswered (q : Request) (id : Text) (s : Store) : Type 0 where
  pub claim : Claim
  pub stands : find_claim q.user_id q.key s.claims ≡ some claim
  pub asked : claim.request_hash ≡ q.hash
  pub names : claim.answer ≡ id
  pub stored : is_some (select_one (λ (r : Payment). text_eq r.id id) s.payments) ≡ true

pub IsAnswered-Grows :
    (q : Request) (id : Text) (s t : Store) → Grows s t → IsAnswered q id s → IsAnswered q id t
IsAnswered-Grows q id s t g a = record {
  claim = a.claim;
  stands = g.claims_stay q.user_id q.key a.claim a.stands;
  asked = a.asked;
  names = a.names;
  stored = g.rows_stay id a.stored;
}

claim_key-finds :
    (c : Claim) (s : Store)
    → (claim_key c s).0.1 ≡ true
    → find_claim c.user_id c.key (claim_key c s).1.claims ≡ some c
unfolding claim_key
claim_key-finds c s h = take_claim-finds c s.claims ∙ ap some (claim_taken c s.claims h)

create-stored :
    (p : Payment) (s t : Store) {r : Payment}
    → create p s ≡ ok (r, t)
    → (is_some (select_one (λ (r : Payment). text_eq r.id p.id) t.payments) ≡ true)
      × (t.claims ≡ s.claims)
create-stored p s t {r} h =
    let made = create-Inserts p r s t h in
    let row =
      select_one-snoc (λ (x : Payment). text_eq x.id p.id) s.payments (inserted_row s p) made.fresh
        (text_eq_refl p.id) in
    subst
      (λ u.
        (is_some (select_one (λ (r : Payment). text_eq r.id p.id) u.payments) ≡ true)
        × (u.claims ≡ s.claims))
      (sym made.left) (ap is_some row, refl)

open_tx-IsAnswered :
    (q : Request) (built : Payment) (s t : Store) {r : Payment}
    → open_tx q built s ≡ ok (r, t)
    → IsAnswered q built.id t
open_tx-IsAnswered q built s t h =
    let (taken, made) = open_tx-creates q built s t h in
    let (row, same) = create-stored built (claim_key (claim_of q built) s).1 t made in
    record {
      claim = claim_of q built;
      stands =
          subst (λ c. find_claim q.user_id q.key c ≡ some (claim_of q built)) (sym same)
            (claim_key-finds (claim_of q built) s taken);
      asked = refl;
      names = refl;
      stored = row;
    }

replay_of-found :
    (hash : Text) (s : Store) (c : Claim) (p : Payment)
    → c.request_hash ≡ hash
    → select_one (λ (r : Payment). text_eq r.id c.answer) s.payments ≡ some p
    → replay_of hash s (some c) ≡ ok (some p)
unfolding replay_of find_by_id found
replay_of-found hash s c p same h = rw (eq→text_eq c.request_hash hash same) (rw h refl)

some_row : (o : Option Payment) → is_some o ≡ true → (p : Payment) × (o ≡ some p)
some_row none h = absurd (ground arith)
some_row (some p) h = (p, refl)

-- A request that is answered is replayed with the attempt.
replay-answered :
    (q : Request) (id : Text) (s : Store)
    → IsAnswered q id s
    → (p : Payment) × (p.id ≡ id) × (replay q s ≡ ok (some p))
unfolding replay
replay-answered q id s a =
    let (p, at) = some_row (select_one (λ (r : Payment). text_eq r.id id) s.payments) a.stored in
    (
      p,
      text_eq→eq p.id id (select_one-holds (λ (r : Payment). text_eq r.id id) s.payments at),
      rw a.stands (replay_of-found q.hash s a.claim p a.asked (rw a.names at)),
    )

-- What surrounds one call of InitiatePayment: the services that it calls, what others store while
-- it waits for the provider, how the server answers, and the identifier that it mints.
pub record Around : Type 0 where
  pub retrieve : Text → Option Text
  pub charge : ChargeCommand → Result Sentinel (ChargeResult × Text)
  pub get_order : Text → Result Sentinel PayableOrder
  pub open_server : Server
  pub settle_server : Server
  pub others : List (ℤ × Step)
  pub minted : Text

-- InitiatePayment, once the command has been parsed
abbrev pub call : Around → Result Sentinel Request → Store → Outcome
call w =
    initiate w.retrieve w.charge w.settle_server (run w.others) w.get_order w.open_server w.minted

-- A call asked for no money, or it opened an attempt under the key and asked for that one.
Asked : Request → Outcome → Type 0
Asked q o =
    (o.charges ≡ [])
    ⊎ ((cmd : ChargeCommand) × (o.charges ≡ cmd ∷ []) × IsAnswered q cmd.payment_id o.stored)

after_charge-Asked :
    (w : Around) (q : Request) (cmd : ChargeCommand) (x : Result Sentinel (ChargeResult × Text))
    (s : Store)
    → IsAnswered q cmd.payment_id s
    → Asked q (after_charge w.retrieve w.charge w.settle_server (run w.others) cmd x s)
unfolding Asked after_charge settle
after_charge-Asked w q cmd (err e) s a =
    inr (cmd, refl, IsAnswered-Grows q cmd.payment_id s (run w.others s) (run-Grows w.others s) a)
after_charge-Asked w q cmd (ok (result, url)) s a =
    let t : Store = run w.others s in
    let settles =
      run_tx-keeps (Grows s) w.settle_server (settle_tx cmd.payment_id result) t
        (run-Grows w.others s)
        λ r u h.
          Grows-trans s t u (run-Grows w.others s) (settle_tx-Grows cmd.payment_id result t u h) in
    inr (cmd, refl, IsAnswered-Grows q cmd.payment_id s _ settles a)

after_open-Asked :
    (w : Around) (q : Request) (built : Payment) (x : Result Stop Payment × Store)
    → ((r : Payment) → x.0 ≡ ok r → IsAnswered q built.id x.1)
    → Asked q (after_open w.retrieve w.charge w.settle_server (run w.others) built x)
unfolding Asked after_open
after_open-Asked w q built (ok r, s) a = after_charge-Asked w q _ _ s (a r refl)
after_open-Asked w q built (err (sentinel (replayed id)), s) a = inl refl
after_open-Asked w q built (err (sentinel (refused e)), s) a = inl refl
after_open-Asked w q built (err (validation f m), s) a = inl refl
after_open-Asked w q built (err (fault k r), s) a = inl refl
after_open-Asked w q built (err (wrapped c k r), s) a = inl refl

open_attempt-Asked :
    (w : Around) (q : Request) (x : Result Sentinel Payment) (s : Store)
    → Asked q (open_attempt w.retrieve w.charge w.settle_server (run w.others) w.open_server q x s)
unfolding Asked open_attempt
open_attempt-Asked w q (err e) s = inl refl
open_attempt-Asked w q (ok built) s =
    after_open-Asked w q built (run_tx w.open_server (open_tx q built) s)
      λ r h. open_tx-IsAnswered q built s _ (run_tx_ok w.open_server (open_tx q built) s h)

after_replay-Asked :
    (w : Around) (q : Request) (x : Result Sentinel (Option Payment)) (s : Store)
    → Asked q (
        after_replay w.retrieve w.charge w.settle_server
          (run w.others)
          w.get_order
          w.open_server
          w.minted
          q
          x
          s)
unfolding Asked after_replay
after_replay-Asked w q (err e) s = inl refl
after_replay-Asked w q (ok (some p)) s = inl refl
after_replay-Asked w q (ok none) s = open_attempt-Asked w q _ s

call-Asked : (w : Around) (q : Request) (s : Store) → Asked q (call w (ok q) s)
unfolding initiate
call-Asked w q s = after_replay-Asked w q (replay q s) s

head_eq : {a b : ChargeCommand} {t u : List ChargeCommand} → a ∷ t ≡ b ∷ u → a ≡ b
head_eq h = cc

-- Once a call has asked the provider for money, every later call with the same user, key and
-- request, after any transactions of others, answers with that attempt, asks for no money and
-- stores nothing.
pub initiate-once :
    (w w' : Around) (q : Request) (s : Store) (between : List (ℤ × Step)) (cmd : ChargeCommand)
    (rest : List ChargeCommand)
    → (call w (ok q) s).charges ≡ cmd ∷ rest
    → (p : Payment) × (p.id ≡ cmd.payment_id)
      × (call w' (ok q) (run between (call w (ok q) s).stored)
          ≡ answers (ok (with_next_action w'.retrieve p)) (run between (call w (ok q) s).stored))
unfolding initiate after_replay Asked
initiate-once w w' q s between cmd rest h = elim (call-Asked w q s) [
  | inl none_asked ↦ absurd (ground (arith, none_asked, h))
  | inr (c, one, a) ↦
      let t : Store = (call w (ok q) s).stored in
      let (p, same, again) =
        replay-answered q c.payment_id (run between t)
          (IsAnswered-Grows q c.payment_id t (run between t) (run-Grows between t) a) in
      (p, same ∙ ap (λ (x : ChargeCommand). x.payment_id) (head_eq (sym one ∙ h)), rw again refl)
]

replay_of-refused :
    (hash : Text) (s : Store) (c : Claim)
    → text_eq c.request_hash hash ≡ false
    → replay_of hash s (some c) ≡ err key_reused
unfolding replay_of
replay_of-refused hash s c h = rw h refl

-- Once a call has asked the provider for money, every later call with the same user and key but
-- another request, after any transactions of others, is refused with IDEMPOTENCY_KEY_REUSED, asks
-- for no money and stores nothing.
pub initiate-refuses :
    (w w' : Around) (q q' : Request) (s : Store) (between : List (ℤ × Step)) (cmd : ChargeCommand)
    (rest : List ChargeCommand)
    → (call w (ok q) s).charges ≡ cmd ∷ rest
    → q'.user_id ≡ q.user_id
    → q'.key ≡ q.key
    → text_eq q.hash q'.hash ≡ false
    → call w' (ok q') (run between (call w (ok q) s).stored)
      ≡ answers (err key_reused) (run between (call w (ok q) s).stored)
unfolding initiate after_replay replay Asked
initiate-refuses w w' q q' s between cmd rest h user key other = elim (call-Asked w q s) [
  | inl none_asked ↦ absurd (ground (arith, none_asked, h))
  | inr (c, one, a) ↦
      let t : Store = (call w (ok q) s).stored in
      let g = run-Grows between t in
      rw user (
        rw key (
          rw (g.claims_stay q.user_id q.key a.claim a.stands)
            (rw (replay_of-refused q'.hash (run between t) a.claim (rw a.asked other)) refl)))
]
