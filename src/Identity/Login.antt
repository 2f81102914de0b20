-- ===== src/Identity/Login.antt =====
-- Whom `authenticate` of crates/identity/src/account_repo.rs lets in.
use tiny_shop.Prelude.{
  String, ◌≡◌, refl, sym, ap, ◌∙◌, subst, Bool, true, false, Option, none, some, List, ==_iff,
  string_eq, find?, find?-fits, inl, inr,
}
use tiny_shop.Sql.{Result, ok, err, Conn, query}
use tiny_shop.Sql.Laws.{Result-cases, query-eq-ok, tables-query}
use tiny_shop.Shared.Json.{Json}
use tiny_shop.Identity.{AccountRole, Account, AccountRow, AccountError, db, has_email}
use tiny_shop.Identity.Accounts.{
  Tables, fetch_roles, account_of, hydrate, find_account, find_by_email, authenticate,
  hash_to_check, kept_if,
}

ok_injective : {A : Type 0} (x y : A) → ◌≡◌ {A = Result AccountError A} (ok x) (ok y) → x ≡ y
ok_injective x y h = cc

some_injective : {A : Type 0} (x y : A) → some x ≡ some y → x ≡ y
some_injective x y h = cc

module _ (J : Json) where
  hydrate-none : (c : Conn (Tables J)) → (hydrate J none c).0 ≡ ok none
  unfolding hydrate
  hydrate-none c = refl

  hydrate_lem :
      (r : AccountRow) (c : Conn (Tables J)) (rs : List AccountRole)
      → (query db (fetch_roles J r.id) c).0 ≡ ok rs
      → (hydrate J (some r) c).0 ≡ ok (some (account_of J r rs))
  unfolding hydrate
  hydrate_lem r c rs e = rw (e, hydrate) refl

  hydrate_fails :
      (r : AccountRow) (c : Conn (Tables J)) (x : AccountError)
      → (query db (fetch_roles J r.id) c).0 ≡ err x
      → (hydrate J (some r) c).0 ≡ err x
  unfolding hydrate
  hydrate_fails r c x e = rw (e, hydrate) refl

  hydrate-eq-ok :
      (row : Option AccountRow) (c : Conn (Tables J)) (a : Account)
      → (hydrate J row c).0 ≡ ok (some a)
      → (r : AccountRow) × (rs : List AccountRole) × (row ≡ some r)
        × (a ≡ account_of J r rs)
        × (fetch_roles J r.id c.tables ≡ ok rs)
  hydrate-eq-ok none c a h = absurd (cc (h, hydrate-none c))
  hydrate-eq-ok (some r) c a h = elim (Result-cases (query db (fetch_roles J r.id) c).0) [
    | inr (x, e) ↦ absurd (cc (h, hydrate_fails r c x e))
    | inl (rs, e) ↦
        let whole = sym (hydrate_lem r c rs e) ∙ h in
        (
          r,
          rs,
          refl,
          sym (some_injective (account_of J r rs) a (ok_injective _ _ whole)),
          query-eq-ok db (fetch_roles J r.id) c rs e,
        )
  ]

  abbrev first_read :
      String → Conn (Tables J) → Result AccountError (Option AccountRow) × Conn (Tables J)
  first_read email c = query db (λ t. ok (find? (has_email email) t.accounts)) c

  find_lem :
      (email : String) (c : Conn (Tables J)) (row : Option AccountRow)
      → (first_read email c).0 ≡ ok row
      → (find_by_email J email c).0 ≡ (hydrate J row (first_read email c).1).0
  unfolding find_by_email find_account
  find_lem email c row e = rw (e, find_account) refl

  find_fails :
      (email : String) (c : Conn (Tables J)) (x : AccountError)
      → (first_read email c).0 ≡ err x
      → (find_by_email J email c).0 ≡ err x
  unfolding find_by_email find_account
  find_fails email c x e = rw (e, find_account) refl

  find_by_email-eq-ok :
      (email : String) (c : Conn (Tables J)) (a : Account)
      → (find_by_email J email c).0 ≡ ok (some a)
      → (r : AccountRow) × (rs : List AccountRole) × (find? (has_email email) c.tables.accounts
          ≡ some r)
        × (fetch_roles J r.id c.tables ≡ ok rs)
        × (a ≡ account_of J r rs)
  find_by_email-eq-ok email c a h = elim (Result-cases (first_read email c).0) [
    | inr (x, e) ↦ absurd (cc (h, find_fails email c x e))
    | inl (row, e) ↦
        let (r, rs, found, whole, roles) =
          hydrate-eq-ok row (first_read email c).1 a (sym (find_lem email c row e) ∙ h) in
        (
          r,
          rs,
          ok_injective _ row (query-eq-ok db _ c row e) ∙ found,
          subst (λ t. fetch_roles J r.id t ≡ ok rs) (tables-query db _ c) roles,
          whole,
        )
  ]

  module _ (verify_password : String → String → Bool) where
    checked :
        (email password : String) (c : Conn (Tables J)) (found : Option Account)
        → (find_by_email J email c).0 ≡ ok found
        → (authenticate J verify_password email password c).0
          ≡ ok (
              kept_if J verify_password
                (verify_password (hash_to_check J verify_password found) password)
                found)
    unfolding authenticate
    checked email password c found e = rw (e, authenticate) refl

    unchecked :
        (email password : String) (c : Conn (Tables J)) (x : AccountError)
        → (find_by_email J email c).0 ≡ err x
        → (authenticate J verify_password email password c).0 ≡ err x
    unfolding authenticate
    unchecked email password c x e = rw (e, authenticate) refl

    kept_if-some :
        (b : Bool) (found : Option Account) (a : Account)
        → kept_if J verify_password b found ≡ some a
        → (b ≡ true) × (found ≡ some a)
    kept_if-some true found a h = (refl, h)
    kept_if-some false found a h = absurd (cc)

    -- Whoever is let in has the account that stands under the given email, with the roles that are
    -- stored for it, and the given password passed the check against that account's own hash.
    pub authenticate_lem :
        (email password : String) (c : Conn (Tables J)) (a : Account)
        → (authenticate J verify_password email password c).0 ≡ ok (some a)
        → (verify_password a.pass_hash password ≡ true)
          × (a.email ≡ email)
          × ((r : AccountRow) × (find? (has_email email) c.tables.accounts ≡ some r)
              × (fetch_roles J r.id c.tables ≡ ok a.roles)
              × (a ≡ account_of J r a.roles))
    authenticate_lem email password c a h = elim (Result-cases (find_by_email J email c).0) [
      | inr (x, e) ↦ absurd (cc (h, unchecked email password c x e))
      | inl (found, e) ↦
          let (passed, same) =
            kept_if-some _ found a
              (ok_injective _ _ (sym (checked email password c found e) ∙ h)) in
          let (r, rs, row, roles, whole) = find_by_email-eq-ok email c a (e ∙ ap ok same) in
          (
            sym (ap (λ f. verify_password (hash_to_check J verify_password f) password) same)
                ∙ passed,
            ap (λ (b : Account). b.email) whole
                ∙ (==_iff r.email email).0 (find?-fits (has_email email) c.tables.accounts r row),
            (
              r,
              row,
              roles ∙ ap (λ (b : Account). ok b.roles) (sym whole),
              whole ∙ ap (λ (b : Account). account_of J r b.roles) (sym whole),
            ),
          )
    ]
