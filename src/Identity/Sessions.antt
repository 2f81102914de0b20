-- ===== src/Identity/Sessions.antt =====
-- `SessionRepo` of crates/identity/src/session_repo.rs. The hash (BLAKE3) is a parameter, and the
-- random token is an argument.
use tiny_shop.Prelude.{
  String, Bool, not, ◌&&◌, Option, [], ◌∷◌, ◌++◌, ◌==◌, string_eq, any, find?, delete_where,
  if◌then◌else◌,
}
use tiny_shop.Prelude.Int.{ℤ, leb_ℤ, ltb_ℤ}
use tiny_shop.Sql.{SqlError, constraint, ok, err, Tx, Db, transaction, query, reject}
use tiny_shop.Identity.{Session, NewSession, IdentityTables, has_account}

pub data SessionError : Type 0 where
  invalid_expiry : SessionError
  db : SqlError → SessionError

abbrev pub has_token : String → Session → Bool
has_token token_hash s = s.token_hash == token_hash

abbrev pub is_live : String → ℤ → Session → Bool
is_live token_hash now s = has_token token_hash s && ltb_ℤ now s.expires_at

abbrev pub session_of : String → ℤ → NewSession → Session
session_of token_hash ts new = record {
  token_hash = token_hash;
  account_id = new.account_id;
  expires_at = new.expires_at;
  user_agent = new.user_agent;
  ip_addr = new.ip_addr;
  created_at = ts;
}

module _ {T : Type 0} where
  unfoldable pub insert_session : Session → Tx SessionError (IdentityTables T) (Unit {0})
  insert_session s t =
      if any (has_token s.token_hash) t.sessions
      then err (db (constraint "UNIQUE sessions.token_hash"))
      else if not (any (has_account s.account_id) t.accounts)
      then err (db (constraint "FOREIGN KEY"))
      else ok (tt, record t { sessions = t.sessions ++ s ∷ [] })

  -- The INSERT, then the raw token.
  unfoldable pub store : Session → String → Tx SessionError (IdentityTables T) String
  unfolding insert_session
  store s raw t = elim (insert_session s t) [ ok (_, t') ↦ ok (raw, t') | err e ↦ err e ]

  module _ (hash_token : String → String) where
    -- The second argument is the token that the call draws.
    unfoldable pub create : ℤ → String → NewSession → Db SessionError (IdentityTables T) String
    unfolding store
    create ts raw new =
        if leb_ℤ new.expires_at ts
        then reject invalid_expiry
        else transaction db (store (session_of (hash_token raw) ts new) raw)

    unfoldable pub verify : ℤ → String → Db SessionError (IdentityTables T) (Option Session)
    verify now raw_token = query db λ t. ok (find? (is_live (hash_token raw_token) now) t.sessions)

    unfoldable pub revoke : String → Db SessionError (IdentityTables T) (Unit {0})
    revoke raw_token = transaction db λ t.
        ok (tt, record t { sessions = delete_where (has_token (hash_token raw_token)) t.sessions })

  unfoldable pub revoke_all_for_account : String → Db SessionError (IdentityTables T) (Unit {0})
  revoke_all_for_account account_id = transaction db λ t. ok (
    tt,
    record t { sessions = delete_where (λ (s : Session). s.account_id == account_id) t.sessions },
  )
