-- ===== src/Identity/Accounts.antt =====
-- `AccountRepo` of crates/identity/src/account_repo.rs. Argon2 is a parameter: `hash_password` and
-- `verify_password` with what they answer.
use tiny_shop.Prelude.{
  String, Bool, true, false, Option, none, some, List, [], ◌∷◌, ◌==◌, string_eq, find?, filter,
  delete_where,
}
use tiny_shop.Prelude.Int.{ℤ}
use tiny_shop.Sql.{Result, ok, err, Tx, Db, transaction, query, ◌>>◌, attempt}
use tiny_shop.Shared.{NewEvent}
use tiny_shop.Shared.Json.{Json}
use tiny_shop.Events.Outbox.{enqueue}
use tiny_shop.Identity.{
  AccountRole, Account, NewAccount, Seller, NewSeller, AccountRow, RoleRow, IdentityTables,
  AccountError, db, invalid_role, from_db, as_str, parse, has_email, has_account, is_role,
  row_of_account, insert_account, insert_role, insert_role_once, insert_seller,
}

-- The hash of a fixed password, checked where the email is unknown.
abbrev pub dummy_hash : String
dummy_hash =
    "$argon2id$v=19$m=19456,t=2,p=1$Y2hvb2NvbGF0ZQ$MTIzNDU2Nzg5MDEyMzQ1Njc4OTAxMjM0NTY3ODkwMTI"

module _ (J : Json) where
  open J use {Value, Encoded, text, object}

  abbrev pub Tables : Type 0
  Tables = IdentityTables Encoded

  abbrev pub account_registered : NewAccount → NewEvent Value
  account_registered new = record {
    aggregate = "account";
    aggregate_id = new.id;
    event_type = "AccountRegistered";
    payload = object (("account_id", text new.id) ∷ ("email", text new.email) ∷ []);
  }

  unfoldable pub enqueue_event : ℤ → NewEvent Value → Tx AccountError Tables (Unit {0})
  unfolding enqueue from_db
  enqueue_event now ev t = elim (enqueue J now ev t.outbox) [
    | ok (id, o) ↦ ok (tt, record t { outbox = o })
    | err e ↦ err (from_db e)
  ]

  unfoldable pub fetch_roles : String → Tables → Result AccountError (List AccountRole)
  unfolding parse
  fetch_roles account_id t =
      parse_all (filter (λ (r : RoleRow). r.account_id == account_id) t.account_roles)
    where
      parse_all : List RoleRow → Result AccountError (List AccountRole)
      parse_all [] = ok []
      parse_all (r ∷ rs) =
          let rest = parse_all rs in
          elim (parse r.role) [
            | none ↦ err (invalid_role account_id r.role)
            | some role ↦ elim rest [ ok roles ↦ ok (role ∷ roles) | err e ↦ err e ]
          ]

  abbrev pub account_of : AccountRow → List AccountRole → Account
  account_of r roles = record {
    id = r.id;
    email = r.email;
    pass_hash = r.pass_hash;
    email_verified_at = r.email_verified_at;
    created_at = r.created_at;
    updated_at = r.updated_at;
    roles = roles;
  }

  -- A second SELECT, for the roles.
  unfoldable pub hydrate : Option AccountRow → Db AccountError Tables (Option Account)
  unfolding fetch_roles
  hydrate none c = (ok none, c)
  hydrate (some r) c =
      let (roles, c') = query db (fetch_roles r.id) c in
      elim roles [ err e ↦ (err e, c') | ok rs ↦ (ok (some (account_of r rs)), c') ]

  -- The row that a test picks, then its roles.
  unfoldable pub find_account : (AccountRow → Bool) → Db AccountError Tables (Option Account)
  unfolding hydrate
  find_account p c =
      let (row, c') = query db (λ t. ok (find? p t.accounts)) c in
      elim row [ err e ↦ (err e, c') | ok r ↦ hydrate r c' ]

  unfoldable pub find_by_email : String → Db AccountError Tables (Option Account)
  unfolding find_account
  find_by_email email = find_account (has_email email)

  unfoldable pub find_by_id : String → Db AccountError Tables (Option Account)
  unfolding find_account
  find_by_id id = find_account (has_account id)

  unfoldable pub grant_role : ℤ → String → AccountRole → Db AccountError Tables (Unit {0})
  unfolding insert_role_once as_str
  grant_role now account_id role = transaction db (insert_role_once account_id (as_str role) now)

  unfoldable pub revoke_role : String → AccountRole → Db AccountError Tables (Unit {0})
  unfolding as_str
  revoke_role account_id role = transaction db λ t. ok (
    tt,
    record t { account_roles = delete_where (is_role account_id (as_str role)) t.account_roles },
  )

  unfoldable pub register_seller : ℤ → NewSeller → Db AccountError Tables (Unit {0})
  unfolding insert_seller insert_role_once
  register_seller ts new = transaction db (do
    insert_seller (record {
      account_id = new.account_id;
      display_name = new.display_name;
      split_receiver_id = none;
      verified_at = none;
      created_at = ts;
    })
    insert_role_once new.account_id "seller" ts)

  unfoldable pub get_seller : String → Db AccountError Tables (Option Seller)
  get_seller account_id =
      query db λ t. ok (find? (λ (s : Seller). s.account_id == account_id) t.sellers)

  module _ (hash_password : String → Result AccountError String) where
    unfoldable pub register : ℤ → NewAccount → Db AccountError Tables (Unit {0})
    unfolding insert_account insert_role enqueue_event
    register ts new = attempt (hash_password new.password) λ pass_hash. transaction db (do
      insert_account (row_of_account new.id new.email pass_hash ts)
      insert_role new.id "customer" ts
      enqueue_event ts (account_registered new))

  module _ (verify_password : String → String → Bool) where
    -- The hash that is checked.
    abbrev pub hash_to_check : Option Account → String
    hash_to_check none = dummy_hash
    hash_to_check (some a) = a.pass_hash

    -- `account.filter(|_| ok)`
    abbrev pub kept_if : Bool → Option Account → Option Account
    kept_if true a = a
    kept_if false a = none

    unfoldable pub authenticate : String → String → Db AccountError Tables (Option Account)
    unfolding find_by_email
    authenticate email password c =
        let (found, c') = find_by_email email c in
        elim found [
          | err e ↦ (err e, c')
          | ok account ↦
              (ok (kept_if (verify_password (hash_to_check account) password) account), c')
        ]
