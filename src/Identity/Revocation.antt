-- ===== src/Identity/Revocation.antt =====
-- Which tokens `verify` of crates/identity/src/session_repo.rs accepts after `create`, `revoke` and
-- `revoke_all_for_account`.
use tiny_shop.Prelude.{
  String, ◌≡◌, ◌≢◌, refl, sym, ap, ◌∙◌, true, false, Option, none, some, List, [], ◌∷◌, ◌++◌, arith,
  ==_iff, ==_self, string_eq, any, find?, delete_where, filter, find?-delete_ne, Bool-cases, inl,
  inr, if◌then◌else◌,
}
use tiny_shop.Prelude.Int.{ℤ, leb_ℤ, ltb_ℤ}
use tiny_shop.Sql.{Result, ok, err, Conn, transaction, query}
use tiny_shop.Sql.Laws.{transaction-eq-ok}
use tiny_shop.Identity.{Session, NewSession, IdentityTables}
use tiny_shop.Identity.Sessions.{
  SessionError, db, store, invalid_expiry, has_token, is_live, session_of, insert_session, create,
  verify, revoke,
}

other_token :
    (a b : String) (now : ℤ) (s : Session) → a ≢ b → has_token a s ≡ true → is_live b now s ≡ false
other_token a b now s ne h = elim (Bool-cases (has_token b s)) [
  | inl e ↦ absurd (ne (sym ((==_iff s.token_hash a).0 h) ∙ (==_iff s.token_hash b).0 e))
  | inr e ↦ ground (arith, e)
]

-- No session is left under the token.
gone :
    (a : String) (now : ℤ) (xs : List Session)
    → find? (is_live a now) (delete_where (has_token a) xs) ≡ none
unfolding find? delete_where filter
gone a now [] = refl
gone a now (x ∷ xs) = elim (Bool-cases (has_token a x)) [
  | inl e ↦ rw e (gone a now xs)
  | inr e ↦ rw (e, e) (gone a now xs)
]

unfoldable pub find_live : String → ℤ → List Session → Result SessionError (Option Session)
find_live token_hash now xs = ok (find? (is_live token_hash now) xs)

-- A session behind the others, none of which has its token.
fresh_live :
    (a : String) (now : ℤ) (xs : List Session) (s : Session)
    → any (has_token a) xs ≡ false
    → find? (is_live a now) (xs ++ s ∷ []) ≡ (if is_live a now s then some s else none)
unfolding find? any
fresh_live a now [] s h = refl
fresh_live a now (x ∷ xs) s h = elim (Bool-cases (has_token a x)) [
  | inl e ↦ absurd (ground (arith, e))
  | inr e ↦ rw e (fresh_live a now xs s (ground (arith, e)))
]

-- A session that is not live is not found.
foreign_live :
    (a : String) (now : ℤ) (xs : List Session) (s : Session)
    → is_live a now s ≡ false
    → find? (is_live a now) (xs ++ s ∷ []) ≡ find? (is_live a now) xs
unfolding find?
foreign_live a now [] s h = rw h refl
foreign_live a now (x ∷ xs) s h = rw (foreign_live a now xs s h) refl

own_token :
    (a : String) (now ts : ℤ) (new : NewSession)
    → (if is_live a now (session_of a ts new) then some (session_of a ts new) else none)
      ≡ (if ltb_ℤ now new.expires_at then some (session_of a ts new) else none)
own_token a now ts new = rw (==_self a) refl

module _ {T : Type 0} (hash_token : String → String) where
  -- What `verify` answers on these tables, where the engine does not fail.
  abbrev pub verified : ℤ → String → IdentityTables T → Result SessionError (Option Session)
  verified now raw t = (verify hash_token now raw (record { tables = t; faults = [] })).0

  pub verified_lem :
      (now : ℤ) (raw : String) (t : IdentityTables T)
      → verified now raw t ≡ ok (find? (is_live (hash_token raw) now) t.sessions)
  unfolding verify query transaction
  verified_lem now raw t = refl

  revoke_left :
      (raw : String) (c : Conn (IdentityTables T))
      → (revoke hash_token raw c).0 ≡ ok tt
      → (revoke hash_token raw c).1.tables.sessions
        ≡ delete_where (has_token (hash_token raw)) c.tables.sessions
  unfolding revoke
  revoke_left raw c h =
      let (t, ran, left) = transaction-eq-ok db _ c tt h in
      ap (λ (s : IdentityTables T). s.sessions) left ∙ ground arith

  -- After a revocation that succeeded, `verify` refuses the token at every time, and answers for
  -- every token of another hash what it answered before.
  pub revoke_lem :
      (raw : String) (c : Conn (IdentityTables T))
      → (revoke hash_token raw c).0 ≡ ok tt
      → ((now : ℤ) → verified now raw (revoke hash_token raw c).1.tables ≡ ok none)
        × ((now : ℤ) (other : String)
            → hash_token raw ≢ hash_token other
            → verified now other (revoke hash_token raw c).1.tables ≡ verified now other c.tables)
  unfolding find_live
  revoke_lem raw c h = (
    (λ now.
        verified_lem now raw (revoke hash_token raw c).1.tables
        ∙ ap (find_live (hash_token raw) now) (revoke_left raw c h)
        ∙ ap ok (gone (hash_token raw) now c.tables.sessions)),
    (λ now other ne.
        verified_lem now other (revoke hash_token raw c).1.tables
        ∙ ap (find_live (hash_token other) now) (revoke_left raw c h)
        ∙ ap ok (
            find?-delete_ne (is_live (hash_token other) now) (has_token (hash_token raw))
              c.tables.sessions (λ s. other_token (hash_token raw) (hash_token other) now s ne))
        ∙ sym (verified_lem now other c.tables)),
  )

  store-eq-ok :
      (s : Session) (raw r : String) (t t' : IdentityTables T)
      → store s raw t ≡ ok (r, t')
      → (r ≡ raw)
        × (any (has_token s.token_hash) t.sessions ≡ false)
        × (t'.sessions ≡ t.sessions ++ s ∷ [])
  unfolding store insert_session
  store-eq-ok s raw r t t' h = ground arith

  create_refused :
      (ts : ℤ) (raw : String) (new : NewSession) (c : Conn (IdentityTables T))
      → leb_ℤ new.expires_at ts ≡ true
      → create hash_token ts raw new c ≡ (err invalid_expiry, c)
  unfolding create
  create_refused ts raw new c past = rw (past, create) refl

  create_taken :
      (ts : ℤ) (raw : String) (new : NewSession) (c : Conn (IdentityTables T))
      → leb_ℤ new.expires_at ts ≡ false
      → create hash_token ts raw new c
        ≡ transaction db (store (session_of (hash_token raw) ts new) raw) c
  unfolding create
  create_taken ts raw new c future = rw (future, create) refl

  create_left :
      (ts : ℤ) (raw r : String) (new : NewSession) (c : Conn (IdentityTables T))
      → (create hash_token ts raw new c).0 ≡ ok r
      → (r ≡ raw)
        × (leb_ℤ new.expires_at ts ≡ false)
        × (any (has_token (hash_token raw)) c.tables.sessions ≡ false)
        × ((create hash_token ts raw new c).1.tables.sessions
            ≡ c.tables.sessions ++ session_of (hash_token raw) ts new ∷ [])
  create_left ts raw r new c h = elim (Bool-cases (leb_ℤ new.expires_at ts)) [
    | inl past ↦ absurd (cc (h, create_refused ts raw new c past))
    | inr future ↦
        let whole = create_taken ts raw new c future in
        let (t, ran, left) =
          transaction-eq-ok db (store (session_of (hash_token raw) ts new) raw) c r
            (sym (ap (λ o. o.0) whole) ∙ h) in
        let (same, new_token, grown) =
          store-eq-ok (session_of (hash_token raw) ts new) raw r c.tables t ran in
        (
          same,
          future,
          new_token,
          ap (λ o. o.1.tables.sessions) whole
              ∙ ap (λ (s : IdentityTables T). s.sessions) left
              ∙ grown,
        )
  ]

  -- A session that was created returns the token it was drawn with, and its expiry lay in the
  -- future. `verify` then gives that session before its expiry and nothing from its expiry on, and
  -- answers for every token of another hash what it answered before.
  pub create_lem :
      (ts : ℤ) (raw r : String) (new : NewSession) (c : Conn (IdentityTables T))
      → (create hash_token ts raw new c).0 ≡ ok r
      → (r ≡ raw)
        × (leb_ℤ new.expires_at ts ≡ false)
        × ((now : ℤ)
            → verified now raw (create hash_token ts raw new c).1.tables
              ≡ ok (
                  if ltb_ℤ now new.expires_at
                  then some (session_of (hash_token raw) ts new)
                  else none))
        × ((now : ℤ) (other : String)
            → hash_token raw ≢ hash_token other
            → verified now other (create hash_token ts raw new c).1.tables
              ≡ verified now other c.tables)
  unfolding find_live
  create_lem ts raw r new c h =
      let (same, future, new_token, grown) = create_left ts raw r new c h in
      (
        same,
        future,
        (λ now.
            verified_lem now raw (create hash_token ts raw new c).1.tables
            ∙ ap (find_live (hash_token raw) now) grown
            ∙ ap ok (
                fresh_live (hash_token raw) now c.tables.sessions _ new_token
                ∙ own_token (hash_token raw) now ts new)),
        (λ now other ne.
            verified_lem now other (create hash_token ts raw new c).1.tables
            ∙ ap (find_live (hash_token other) now) grown
            ∙ ap ok (
                foreign_live (hash_token other) now c.tables.sessions _ (
                  other_token (hash_token raw) (hash_token other) now
                    (session_of (hash_token raw) ts new) ne (==_self (hash_token raw))))
            ∙ sym (verified_lem now other c.tables)),
      )
