-- ===== src/Identity/Logout.antt =====
-- Which tokens `verify` of crates/identity/src/session_repo.rs accepts after
-- `revoke_all_for_account`.
use tiny_shop.Prelude.{
  String, ◌≡◌, sym, ap, ◌∙◌, Bool, false, Option, some, List, [], ◌∷◌, arith, ◌==◌, string_eq,
  find?, delete_where, filter, Bool-cases, inl, inr,
}
use tiny_shop.Prelude.Int.{ℤ}
use tiny_shop.Sql.{Result, ok, Conn}
use tiny_shop.Sql.Laws.{transaction-eq-ok}
use tiny_shop.Identity.{Session, IdentityTables}
use tiny_shop.Identity.Sessions.{SessionError, db, is_live, revoke_all_for_account}
use tiny_shop.Identity.Revocation.{verified, verified_lem, find_live}

abbrev pub of_account : String → Session → Bool
of_account account_id s = s.account_id == account_id

-- What is still found was not to be deleted.
found_kept :
    (p q : Session → Bool) (xs : List Session) (s : Session)
    → find? p (delete_where q xs) ≡ some s
    → q s ≡ false
unfolding find? delete_where filter
found_kept p q [] s h = absurd (cc)
found_kept p q (x ∷ xs) s h = elim (Bool-cases (q x)) [
  | inl e ↦ found_kept p q xs s (ground (arith, e))
  | inr e ↦ elim (Bool-cases (p x)) [
    | inl hit ↦ ground (arith, e, hit)
    | inr miss ↦ found_kept p q xs s (ground (arith, e, miss))
  ]
]

-- What was found and was not to be deleted is still found.
kept_found :
    (p q : Session → Bool) (xs : List Session) (s : Session)
    → find? p xs ≡ some s
    → q s ≡ false
    → find? p (delete_where q xs) ≡ some s
unfolding find? delete_where filter
kept_found p q [] s h k = absurd (cc)
kept_found p q (x ∷ xs) s h k = elim (Bool-cases (p x)) [
  | inl hit ↦ ground (arith, hit)
  | inr miss ↦ elim (Bool-cases (q x)) [
    | inl e ↦ rw e (kept_found p q xs s (ground (arith, miss)) k)
    | inr e ↦ rw (e, miss) (kept_found p q xs s (ground (arith, miss)) k)
  ]
]

ok_injective :
    (a b : Option Session) → ◌≡◌ {A = Result SessionError (Option Session)} (ok a) (ok b) → a ≡ b
ok_injective a b h = cc

module _ {T : Type 0} where
  all_left :
      (account_id : String) (c : Conn (IdentityTables T))
      → (revoke_all_for_account account_id c).0 ≡ ok tt
      → (revoke_all_for_account account_id c).1.tables.sessions
        ≡ delete_where (of_account account_id) c.tables.sessions
  unfolding revoke_all_for_account
  all_left account_id c h =
      let (t, ran, left) = transaction-eq-ok db _ c tt h in
      ap (λ (s : IdentityTables T). s.sessions) left ∙ ground arith

  -- After `revoke_all_for_account` succeeded, no token gives a session of the account, whatever the
  -- time, and a token that gave a session of another account still gives it.
  pub revoke_all_lem :
      (hash_token : String → String) (account_id : String) (c : Conn (IdentityTables T))
      → (revoke_all_for_account account_id c).0 ≡ ok tt
      → ((now : ℤ) (raw : String) (s : Session)
          → verified hash_token now raw (revoke_all_for_account account_id c).1.tables ≡ ok (some s)
          → of_account account_id s ≡ false)
        × ((now : ℤ) (raw : String) (s : Session)
            → verified hash_token now raw c.tables ≡ ok (some s)
            → of_account account_id s ≡ false
            → verified hash_token now raw (revoke_all_for_account account_id c).1.tables
              ≡ ok (some s))
  unfolding find_live
  revoke_all_lem hash_token account_id c h = (
    (λ now raw s q.
        found_kept (is_live (hash_token raw) now) (of_account account_id) c.tables.sessions s (
          ok_injective _ (some s) (
            sym (
              verified_lem hash_token now raw (revoke_all_for_account account_id c).1.tables
              ∙ ap (find_live (hash_token raw) now) (all_left account_id c h))
            ∙ q))),
    (λ now raw s q other.
        verified_lem hash_token now raw (revoke_all_for_account account_id c).1.tables
        ∙ ap (find_live (hash_token raw) now) (all_left account_id c h)
        ∙ ap ok (
            kept_found (is_live (hash_token raw) now) (of_account account_id) c.tables.sessions s
              (ok_injective _ (some s) (sym (verified_lem hash_token now raw c.tables) ∙ q))
              other)),
  )
