-- ===== src/Identity.antt =====
-- crates/identity/src/account.rs and crates/identity/src/session.rs, and the tables of
-- migrations/identity with the statements that both repositories run on them.
pub mod Sessions
pub mod Revocation
pub mod Logout
pub mod Accounts
pub mod Login
mod Tests
use tiny_shop.Prelude.{
  ℕ, String, Bool, true, false, not, ◌&&◌, Option, none, some, List, [], ◌∷◌, ◌++◌, ◌==◌, string_eq,
  any, if◌then◌else◌,
}
use tiny_shop.Prelude.Int.{ℤ}
use tiny_shop.Sql.{SqlError, constraint, protocol, Result, ok, err, Tx}
use tiny_shop.Events.Outbox.{Outbox, DbError, sqlx, json}

pub data AccountRole : Type 0 where
  customer seller admin : AccountRole

unfoldable pub as_str : AccountRole → String
as_str customer = "customer"
as_str seller = "seller"
as_str admin = "admin"

unfoldable pub parse : String → Option AccountRole
parse s =
    if s == "customer"
    then some customer
    else if s == "seller"
    then some seller
    else if s == "admin"
    then some admin
    else none

pub record Account : Type 0 where
  pub id : String
  pub email : String
  pub pass_hash : String
  pub email_verified_at : Option ℤ
  pub created_at : ℤ
  pub updated_at : ℤ
  pub roles : List AccountRole

pub record NewAccount : Type 0 where
  pub id : String
  pub email : String
  pub password : String

pub record Seller : Type 0 where
  pub account_id : String
  pub display_name : String
  pub split_receiver_id : Option String
  pub verified_at : Option ℤ
  pub created_at : ℤ

pub record NewSeller : Type 0 where
  pub account_id : String
  pub display_name : String

pub record Session : Type 0 where
  pub token_hash : String
  pub account_id : String
  pub expires_at : ℤ
  pub user_agent : Option String
  pub ip_addr : Option String
  pub created_at : ℤ

pub record NewSession : Type 0 where
  pub account_id : String
  pub expires_at : ℤ
  pub user_agent : Option String
  pub ip_addr : Option String

-- A row of `accounts`.
pub record AccountRow : Type 0 where
  pub id : String
  pub email : String
  pub pass_hash : String
  pub email_verified_at : Option ℤ
  pub created_at : ℤ
  pub updated_at : ℤ

-- A row of `account_roles`; the role is text.
pub record RoleRow : Type 0 where
  pub account_id : String
  pub role : String
  pub granted_at : ℤ

pub record IdentityTables (T : Type 0) : Type 0 where
  pub accounts : List AccountRow
  pub account_roles : List RoleRow
  pub sessions : List Session
  pub sellers : List Seller
  pub outbox : Outbox T

pub data AccountError : Type 0 where
  email_taken : AccountError
  db : SqlError → AccountError
  hash_error : String → AccountError
  join : String → AccountError
  invalid_role : String → String → AccountError

-- `From<db::DbError>`
unfoldable pub from_db : DbError → AccountError
from_db (sqlx e) = db e
from_db json = db protocol

abbrev pub has_email : String → AccountRow → Bool
has_email email a = a.email == email

abbrev pub has_account : String → AccountRow → Bool
has_account id a = a.id == id

abbrev pub is_role : String → String → RoleRow → Bool
is_role account_id role r = (r.account_id == account_id) && (r.role == role)

abbrev pub row_of_account : String → String → String → ℤ → AccountRow
row_of_account id email pass_hash ts = record {
  id = id;
  email = email;
  pass_hash = pass_hash;
  email_verified_at = none;
  created_at = ts;
  updated_at = ts;
}

module _ {T : Type 0} where
  -- The index of `email` is checked before that of `id`, and its violation is `EmailTaken`.
  unfoldable pub insert_account : AccountRow → Tx AccountError (IdentityTables T) (Unit {0})
  insert_account a t =
      if any (has_email a.email) t.accounts
      then err email_taken
      else if any (has_account a.id) t.accounts
      then err (db (constraint "UNIQUE accounts.id"))
      else ok (tt, record t { accounts = t.accounts ++ a ∷ [] })

  -- A grant that may be there already (`ON CONFLICT DO NOTHING`).
  unfoldable pub insert_role_once :
      String → String → ℤ → Tx AccountError (IdentityTables T) (Unit {0})
  insert_role_once account_id role ts t =
      if any (is_role account_id role) t.account_roles
      then ok (tt, t)
      else if not (any (has_account account_id) t.accounts)
      then err (db (constraint "FOREIGN KEY"))
      else ok (
        tt,
        record t {
          account_roles =
              t.account_roles
              ++ record { account_id = account_id; role = role; granted_at = ts } ∷ [];
        },
      )

  -- The plain INSERT of `register`.
  unfoldable pub insert_role : String → String → ℤ → Tx AccountError (IdentityTables T) (Unit {0})
  unfolding insert_role_once
  insert_role account_id role ts t =
      if any (is_role account_id role) t.account_roles
      then err (db (constraint "UNIQUE account_roles"))
      else insert_role_once account_id role ts t

  unfoldable pub insert_seller : Seller → Tx AccountError (IdentityTables T) (Unit {0})
  insert_seller s t =
      if any (λ (r : Seller). r.account_id == s.account_id) t.sellers
      then err (db (constraint "UNIQUE sellers.account_id"))
      else if not (any (has_account s.account_id) t.accounts)
      then err (db (constraint "FOREIGN KEY"))
      else ok (tt, record t { sellers = t.sellers ++ s ∷ [] })
