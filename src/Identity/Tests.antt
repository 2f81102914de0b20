-- ===== src/Identity/Tests.antt =====
-- Runs of crates/identity/src at concrete accounts and sessions.
use tiny_shop.Prelude.{
  String, ◌≡◌, ◌≢◌, refl, Bool, true, false, none, some, [], ◌∷◌, ◌==◌, string_eq, find?, filter,
  any, if◌then◌else◌,
}
use tiny_shop.Prelude.Int.{ℤ, pos, leb_ℤ, ltb_ℤ}
use tiny_shop.Sql.{ok, Conn, transaction, query}
use tiny_shop.Shared.Json.{trees}
use tiny_shop.Events.Outbox.{no_rows}
use tiny_shop.Identity.{
  Account, AccountRow, RoleRow, NewSession, customer, seller, has_email, Session,
}
use tiny_shop.Identity.Sessions.{session_of, create, revoke, revoke_all_for_account}
use tiny_shop.Identity.Revocation.{verified, create_lem, revoke_lem}
use tiny_shop.Identity.Accounts.{Tables, fetch_roles, account_of, authenticate}
use tiny_shop.Identity.Logout.{of_account, revoke_all_lem}
use tiny_shop.Identity.Login.{authenticate_lem}

abbrev plain : String → String
plain s = s

-- A check that compares the texts.
abbrev matches : String → String → Bool
matches hash password = hash == password

abbrev ann : AccountRow
ann = record {
  id = "a1";
  email = "ann@example.org";
  pass_hash = "secret";
  email_verified_at = none;
  created_at = pos 1;
  updated_at = pos 1;
}

abbrev role_of : String → RoleRow
role_of role = record { account_id = "a1"; role = role; granted_at = pos 1 }

abbrev tables : Tables trees
tables = record {
  accounts = ann ∷ [];
  account_roles = role_of "customer" ∷ role_of "seller" ∷ [];
  sessions = [];
  sellers = [];
  outbox = no_rows;
}

abbrev quiet : Conn (Tables trees)
quiet = record { tables = tables; faults = [] }

abbrev ann_in : Account
ann_in = account_of trees ann (customer ∷ seller ∷ [])

ann_gets_in : (authenticate trees matches "ann@example.org" "secret" quiet).0 ≡ ok (some ann_in)
unfolding authenticate transaction query find? filter
ann_gets_in = refl

authenticate_lem_example :
    (matches "secret" "secret" ≡ true)
    × (◌≡◌ {A = String} "ann@example.org" "ann@example.org")
    × ((r : AccountRow) × (find? (has_email "ann@example.org") tables.accounts ≡ some r)
        × (fetch_roles trees r.id tables ≡ ok (customer ∷ seller ∷ []))
        × (ann_in ≡ account_of trees r (customer ∷ seller ∷ [])))
authenticate_lem_example =
    authenticate_lem trees matches "ann@example.org" "secret" quiet ann_in ann_gets_in

abbrev until_nine : NewSession
until_nine = record { account_id = "a1"; expires_at = pos 9; user_agent = none; ip_addr = none }

create_runs : (create plain (pos 5) "t1" until_nine quiet).0 ≡ ok "t1"
unfolding create transaction any
create_runs = refl

create_lem_example :
    (◌≡◌ {A = String} "t1" "t1")
    × (leb_ℤ (pos 9) (pos 5) ≡ false)
    × ((now : ℤ)
        → verified plain now "t1" (create plain (pos 5) "t1" until_nine quiet).1.tables
          ≡ ok (if ltb_ℤ now (pos 9) then some (session_of "t1" (pos 5) until_nine) else none))
    × ((now : ℤ) (other : String)
        → ◌≢◌ {A = String} "t1" other
        → verified plain now other (create plain (pos 5) "t1" until_nine quiet).1.tables
          ≡ verified plain now other tables)
create_lem_example = create_lem plain (pos 5) "t1" "t1" until_nine quiet create_runs

abbrev with_session : Conn (Tables trees)
with_session = (create plain (pos 5) "t1" until_nine quiet).1

revoke_runs : (revoke plain "t1" with_session).0 ≡ ok tt
unfolding revoke create transaction any
revoke_runs = refl

revoke_lem_example :
    ((now : ℤ) → verified plain now "t1" (revoke plain "t1" with_session).1.tables ≡ ok none)
    × ((now : ℤ) (other : String)
        → ◌≢◌ {A = String} "t1" other
        → verified plain now other (revoke plain "t1" with_session).1.tables
          ≡ verified plain now other with_session.tables)
revoke_lem_example = revoke_lem plain "t1" with_session revoke_runs

logout_runs : (revoke_all_for_account "a1" with_session).0 ≡ ok tt
unfolding revoke_all_for_account create transaction any
logout_runs = refl

revoke_all_lem_example :
    ((now : ℤ) (raw : String) (s : Session)
      → verified plain now raw (revoke_all_for_account "a1" with_session).1.tables ≡ ok (some s)
      → of_account "a1" s ≡ false)
    × ((now : ℤ) (raw : String) (s : Session)
        → verified plain now raw with_session.tables ≡ ok (some s)
        → of_account "a1" s ≡ false
        → verified plain now raw (revoke_all_for_account "a1" with_session).1.tables ≡ ok (some s))
revoke_all_lem_example = revoke_all_lem plain "a1" with_session logout_runs
