-- ===== src/Tests/Identity.antt =====
-- The theorems of the identity service at concrete inputs: a session that is refreshed, whose spent
-- token comes back.
use system_design_ecommerce.Tx.{with_parsed}
use system_design_ecommerce.Identity.Unannounced.{create_user-unannounced}
use system_design_ecommerce.Identity.SignIn.{authenticate_lem, IsAnswer}
use system_design_ecommerce.Identity.Families.{live_in, IsChained}
use system_design_ecommerce.Identity.Chains.{Reach-IsChained, here, Reach}
use system_design_ecommerce.Prelude.Int.{pos}
use system_design_ecommerce.Identity.Registration.{create_user}
use system_design_ecommerce.Identity.Accepted.{call-Accepts, Accepts}
use system_design_ecommerce.Text.{text_eq, Text}
use system_design_ecommerce.Prelude.{Bool, ◌≤◌, arith, ◌≡◌, refl, true, [], ◌∷◌, List, some, none}
use system_design_ecommerce.Errors.{Result, ok, err, fault, internal}
use system_design_ecommerce.Tx.{commits, begin_fails, run_tx}
use system_design_ecommerce.Table.Laws.{total}
use system_design_ecommerce.Table.{select_one}
use system_design_ecommerce.Identity.Domain.{Sentinel, RefreshToken}
use system_design_ecommerce.Identity.Account.{User}
use system_design_ecommerce.Identity.Store.{
  Store, create_token, create_row, find_user, find_by_hash, spend,
}
use system_design_ecommerce.Identity.Session.{authenticate, AccessToken, TokenPair, refresh}
use system_design_ecommerce.Identity.Refreshed.{Around, call, refresh-Reach}
use system_design_ecommerce.Identity.Reuse.{IsRefused, refresh-once}

abbrev ann : User
ann = record {
  id = b'a' ∷ [];
  email = b'a' ∷ b'@' ∷ b'b' ∷ b'.' ∷ b'c' ∷ [];
  password_hash = b'h' ∷ [];
  roles = [];
  created_at = pos 0;
  updated_at = pos 0;
  version = 1;
}

abbrev head : RefreshToken
head = record {
  id = b't' ∷ [];
  user_id = b'a' ∷ [];
  hash = b'v' ∷ [];
  family_id = b'f' ∷ [];
  expires_at = pos 90;
  revoked_at = none;
  created_at = pos 0;
  updated_at = pos 0;
  version = 1;
}

abbrev signed_in : Store
signed_in = record { users = ann ∷ []; tokens = head ∷ []; outbox = []; clock = pos 5 }

head_counts : (k : Text) → total (live_in k) (head ∷ []) ≤ 1
head_counts k = ground arith

signed_in-IsChained : IsChained signed_in
signed_in-IsChained = record {
  one_live = head_counts;
  chain = λ k. (pos 90, b'a' ∷ []);
  follows = (refl, tt);
  unique_ids = (tt, tt);
}

-- a digest that keeps its text
abbrev plain : Text → Text
plain t = t

abbrev signing : Text → List Text → Result Sentinel AccessToken
signing user_id roles = ok (record { value = b'j' ∷ []; expires_at = pos 20 })

abbrev alone : Store → Store
alone s = s

abbrev first : Around plain
first = record {
  issue_access = signing;
  servers = record { rotating = commits; ending = commits };
  meanwhile = alone;
  later = alone;
  drawn = record { id = b'w' ∷ []; family_id = []; value = b'x' ∷ [] };
  now = pos 6;
  meanwhile_writes = λ s. here s;
  later_writes = λ s. here s;
}

abbrev second : Around plain
second = record first {
  drawn = record { id = b'y' ∷ []; family_id = []; value = b'z' ∷ [] };
  now = pos 7;
}

abbrev refreshed : TokenPair
refreshed = record {
  access_token = b'j' ∷ [];
  access_token_expires_at = pos 20;
  refresh_token = b'x' ∷ [];
  refresh_token_expires_at = pos 90;
}

first_gives : (call plain first (b'v' ∷ []) signed_in).0 ≡ ok refreshed
unfolding refresh find_by_hash with_parsed find_user run_tx spend create_token
first_gives = refl

Reach-IsChained_example : IsChained (call plain first (b'v' ∷ []) signed_in).1
Reach-IsChained_example =
    Reach-IsChained plain signed_in (call plain first (b'v' ∷ []) signed_in).1
      (refresh-Reach plain first (b'v' ∷ []) signed_in signed_in-IsChained).0 signed_in-IsChained

refresh-Reach_example :
    Reach plain signed_in (call plain first (b'v' ∷ []) signed_in).1
    × IsChained (call plain first (b'v' ∷ []) signed_in).1
refresh-Reach_example = refresh-Reach plain first (b'v' ∷ []) signed_in signed_in-IsChained

call-Accepts_example :
    Accepts (b'v' ∷ []) signed_in (call plain first (b'v' ∷ []) signed_in).1 refreshed (pos 6)
call-Accepts_example =
    call-Accepts plain first (b'v' ∷ []) signed_in refreshed signed_in-IsChained first_gives

refresh-once_example :
    (r : RefreshToken) × (select_one
        (λ (x : RefreshToken). text_eq x.hash (b'v' ∷ []))
        (call plain first (b'v' ∷ []) signed_in).1.tokens
      ≡ some r)
    × (r.expires_at ≡ pos 90)
    × IsRefused plain second r
        (call plain second (b'v' ∷ []) (call plain first (b'v' ∷ []) signed_in).1)
refresh-once_example =
    refresh-once plain first second (b'v' ∷ []) signed_in (call plain first (b'v' ∷ []) signed_in).1
      refreshed signed_in-IsChained first_gives (here (call plain first (b'v' ∷ []) signed_in).1)
      refl

abbrev matching : Text → Text → Result Sentinel Bool
matching hash password = ok (text_eq hash password)

authenticate_lem_example :
    IsAnswer plain matching
      (b'a' ∷ b'@' ∷ b'b' ∷ b'.' ∷ b'c' ∷ [])
      (b'h' ∷ [])
      signed_in
      (authenticate plain matching (b'a' ∷ b'@' ∷ b'b' ∷ b'.' ∷ b'c' ∷ []) (b'h' ∷ []) signed_in)
authenticate_lem_example =
    authenticate_lem plain matching (b'a' ∷ b'@' ∷ b'b' ∷ b'.' ∷ b'c' ∷ []) (b'h' ∷ []) signed_in
      λ hash password. (text_eq hash password, refl)

abbrev empty : Store
empty = record { users = []; tokens = []; outbox = []; clock = pos 0 }

ann_stored : create_row (λ t. true) ann empty ≡ ok (ann, record empty { users = ann ∷ [] })
unfolding create_row
ann_stored = refl

create_user-unannounced_example :
    create_user (λ t. true) commits begin_fails ann empty
    ≡ (err (fault internal ""), record empty { users = ann ∷ [] })
create_user-unannounced_example =
    create_user-unannounced (λ t. true) ann ann empty (record empty { users = ann ∷ [] }) ann_stored
