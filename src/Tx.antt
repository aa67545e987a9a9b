-- ===== src/Tx.antt =====
-- pkg/txmanager/txmanager.go: the transaction of a use case. An action reads
-- and writes the rows of a service through `A`, a state; one that fails says what failed, and what
-- it wrote so far is what a rollback takes back.
use system_design_ecommerce.Prelude.{◌≡◌, arith, refl}
use system_design_ecommerce.Errors.{Error, fault, internal, Result, ok, err}

abbrev pub Action {ℓ} : Type ℓ → Type ℓ → Type ℓ → Type ℓ
Action D S A = D → Result S (A × D)

-- How the database answers Begin and Commit. A commit that fails was not applied, or it was applied
-- and its answer was lost.
pub data Server : Type 0 where
  commits begin_fails commit_fails commit_lost : Server

-- What is answered and stored, by what the action gave: rollback where it gave an error, and an
-- error too where the commit gives one, whatever the database made of it.
unfoldable pub conclude {ℓ} : {D S A : Type ℓ} → Server → D → Result S (A × D) → Result S A × D
conclude begin_fails d x = (err (fault internal ""), d)
conclude commits d (ok (a, d')) = (ok a, d')
conclude commits d (err e) = (err e, d)
conclude commit_fails d (ok (a, d')) = (err (fault internal ""), d)
conclude commit_fails d (err e) = (err e, d)
conclude commit_lost d (ok (a, d')) = (err (fault internal ""), d')
conclude commit_lost d (err e) = (err e, d)

-- Manager.Do, at the outermost level. Where Begin fails the action is not run.
unfoldable pub run_tx {ℓ} : {D S A : Type ℓ} → Server → Action D S A → D → Result S A × D
unfolding conclude
run_tx server f d = conclude server d (f d)

-- A statement outside a transaction commits by itself.
abbrev pub run_single {ℓ} : {D S A : Type ℓ} → Action D S A → D → Result S A × D
run_single = run_tx commits

-- A call that refuses its input before it reads or writes anything.
unfoldable pub with_parsed {ℓ} :
    {D S A B : Type ℓ} → Result S B → (B → D → Result S A × D) → D → Result S A × D
with_parsed (err e) k d = (err e, d)
with_parsed (ok b) k d = k b d

conclude-keeps {ℓ κ} :
    {D S A : Type ℓ} (P : D → Type κ) (server : Server) (d : D) (x : Result S (A × D))
    → P d
    → ((a : A) (d' : D) → x ≡ ok (a, d') → P d')
    → P (conclude server d x).1
unfolding conclude
conclude-keeps P begin_fails d x h k = h
conclude-keeps P commits d (ok (a, d')) h k = k a d' refl
conclude-keeps P commits d (err e) h k = h
conclude-keeps P commit_fails d (ok (a, d')) h k = h
conclude-keeps P commit_fails d (err e) h k = h
conclude-keeps P commit_lost d (ok (a, d')) h k = k a d' refl
conclude-keeps P commit_lost d (err e) h k = h

-- How a transaction that gave an error has ended: undone, or stored by a commit that was not heard of.
pub data Failed {ℓ} {D S A : Type ℓ} (server : Server) (f : Action D S A) (d d' : D) (e : Error S)
    : Type ℓ where
  undone : d' ≡ d → Failed server f d d' e
  unheard :
      server ≡ commit_lost
      → e ≡ fault internal ""
      → (a : A) → f d ≡ ok (a, d')
      → Failed server f d d' e

lost_error {ℓ κ} :
    {S : Type ℓ} {A : Type κ} {x e : Error S} → ◌≡◌ {A = Result S A} (err x) (err e) → e ≡ x
lost_error h = cc

run_tx-Failed_by {ℓ} :
    {D S A : Type ℓ} (server : Server) (f : Action D S A) (d : D) (x : Result S (A × D))
    {e : Error S}
    → f d ≡ x
    → (conclude server d x).0 ≡ err e
    → Failed server f d (conclude server d x).1 e
unfolding conclude
run_tx-Failed_by begin_fails f d x r h = undone refl
run_tx-Failed_by commits f d (ok (a, d')) r h = cc
run_tx-Failed_by commits f d (err e) r h = undone refl
run_tx-Failed_by commit_fails f d (ok (a, d')) r h = undone refl
run_tx-Failed_by commit_fails f d (err e) r h = undone refl
run_tx-Failed_by commit_lost f d (ok (a, d')) r h = unheard refl (lost_error h) a r
run_tx-Failed_by commit_lost f d (err e) r h = undone refl

-- A transaction that gives an error has stored nothing, or its commit was applied and the answer lost.
pub run_tx-Failed {ℓ} :
    {D S A : Type ℓ} (server : Server) (f : Action D S A) (d : D) {e : Error S}
    → (run_tx server f d).0 ≡ err e
    → Failed server f d (run_tx server f d).1 e
unfolding run_tx
run_tx-Failed server f d h = run_tx-Failed_by server f d (f d) refl h

-- A transaction keeps what its action keeps where it gives no error.
pub run_tx-keeps {ℓ κ} :
    {D S A : Type ℓ} (P : D → Type κ) (server : Server) (f : Action D S A) (d : D)
    → P d
    → ((a : A) (d' : D) → f d ≡ ok (a, d') → P d')
    → P (run_tx server f d).1
unfolding run_tx
run_tx-keeps P server f d h k = conclude-keeps P server d (f d) h k

pub with_parsed-keeps {ℓ κ} :
    {D S A B : Type ℓ} (P : D → Type κ) (x : Result S B) (k : B → D → Result S A × D) (d : D)
    → P d
    → ((b : B) → x ≡ ok b → P (k b d).1)
    → P (with_parsed x k d).1
unfolding with_parsed
with_parsed-keeps P (err e) k d h f = h
with_parsed-keeps P (ok b) k d h f = f b refl

conclude_ok {ℓ} :
    {D S A : Type ℓ} (server : Server) (d : D) (x : Result S (A × D)) {a : A}
    → (conclude server d x).0 ≡ ok a
    → x ≡ ok (a, (conclude server d x).1)
unfolding conclude
conclude_ok begin_fails d x h = cc
conclude_ok commits d (ok (a, d')) h = ground arith
conclude_ok commits d (err e) h = cc
conclude_ok commit_fails d (ok (a, d')) h = cc
conclude_ok commit_fails d (err e) h = cc
conclude_ok commit_lost d (ok (a, d')) h = cc
conclude_ok commit_lost d (err e) h = cc

-- A transaction that gives a value has stored what its action left.
pub run_tx_ok {ℓ} :
    {D S A : Type ℓ} (server : Server) (f : Action D S A) (d : D) {a : A}
    → (run_tx server f d).0 ≡ ok a
    → f d ≡ ok (a, (run_tx server f d).1)
unfolding run_tx
run_tx_ok server f d h = conclude_ok server d (f d) h

-- A call that gives a value has parsed its input.
pub with_parsed_ok {ℓ} :
    {D S A B : Type ℓ} (x : Result S B) (k : B → D → Result S A × D) (d : D) {a : A}
    → (with_parsed x k d).0 ≡ ok a
    → (b : B) × (x ≡ ok b) × (with_parsed x k d ≡ k b d)
unfolding with_parsed
with_parsed_ok (err e) k d h = cc
with_parsed_ok (ok b) k d h = (b, refl, refl)
