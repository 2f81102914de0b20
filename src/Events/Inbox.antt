-- ===== src/Events/Inbox.antt =====
-- crates/db/src/inbox.rs, over the table `inbox_processed` of a consumer's migrations.
use tiny_shop.Prelude.{
  ℕ, String, ◌≡◌, refl, ◌∙◌, Bool, true, false, ◌&&◌, List, [], ◌∷◌, ◌++◌, ◌==◌, nat_eq, string_eq,
  any, any-append, arith, filter, length, suc, ◌||◌, sym, ap, ==_iff, Bool-cases, inl, inr,
  if◌then◌else◌,
}
use tiny_shop.Prelude.Int.{ℤ}
use tiny_shop.Sql.{ok, err, Tx}
use tiny_shop.Events.Outbox.{DbError}

pub record InboxRow : Type 0 where
  pub source : String
  pub event_id : ℕ
  pub processed_at : ℤ

-- PRIMARY KEY (source, event_id)
abbrev pub is_event : String → ℕ → InboxRow → Bool
is_event source event_id r = (r.source == source) && (r.event_id == event_id)

-- INSERT OR IGNORE, and whether it inserted.
unfoldable pub mark_processed : ℤ → String → ℕ → Tx DbError (List InboxRow) Bool
mark_processed now source event_id rows =
    if any (is_event source event_id) rows
    then ok (false, rows)
    else ok (true, rows ++ record { source = source; event_id = event_id; processed_at = now } ∷ [])

-- Of a sequence of calls that commit, those that `mark_processed` answers with `true`.
unfoldable pub newly : ℤ → List (String × ℕ) → List InboxRow → List (String × ℕ)
unfolding mark_processed
newly now [] rows = []
newly now (p ∷ ps) rows = elim (mark_processed now p.0 p.1 rows) [
  | err e ↦ []
  | ok (new, rows') ↦ let rest = newly now ps rows' in if new then p ∷ rest else rest
]

abbrev pub is_key : String → ℕ → String × ℕ → Bool
is_key source event_id p = (p.0 == source) && (p.1 == event_id)

-- How often an event stands in a sequence.
abbrev pub times : String → ℕ → List (String × ℕ) → ℕ
times source event_id ps = length (filter (is_key source event_id) ps)

abbrev processed : ℤ → String × ℕ → InboxRow
processed now p = record { source = p.0; event_id = p.1; processed_at = now }

repeat_skipped :
    (now : ℤ) (p : String × ℕ) (ps : List (String × ℕ)) (rows : List InboxRow)
    → any (is_event p.0 p.1) rows ≡ true
    → newly now (p ∷ ps) rows ≡ newly now ps rows
unfolding newly mark_processed
repeat_skipped now p ps rows old = rw (old, newly) refl

first_answered :
    (now : ℤ) (p : String × ℕ) (ps : List (String × ℕ)) (rows : List InboxRow)
    → any (is_event p.0 p.1) rows ≡ false
    → newly now (p ∷ ps) rows ≡ p ∷ newly now ps (rows ++ processed now p ∷ [])
unfolding newly mark_processed
first_answered now p ps rows new = rw (new, newly) refl

times_cons :
    (source : String) (event_id : ℕ) (p : String × ℕ) (ps : List (String × ℕ))
    → times source event_id (p ∷ ps) ≡ (
        if is_key source event_id p
        then suc (times source event_id ps)
        else times source event_id ps)
unfolding filter
times_cons source event_id p ps = elim (Bool-cases (is_key source event_id p)) [
  | inl e ↦ rw e refl
  | inr e ↦ rw e refl
]

-- The same event has been processed under both names of its key.
same_key :
    (source : String) (event_id : ℕ) (p : String × ℕ) (rows : List InboxRow)
    → is_key source event_id p ≡ true
    → any (is_event p.0 p.1) rows ≡ any (is_event source event_id) rows
same_key source event_id p rows h =
    ap (λ s. any (is_event s p.1) rows) ((==_iff p.0 source).0 (ground (arith, h)))
    ∙ ap (λ n. any (is_event source n) rows) ((==_iff p.1 event_id).0 (ground (arith, h)))

count_old :
    (a b c : Bool) (n : ℕ)
    → (b ≡ true → a ≡ true)
    → n ≡ (if a then 0 else if c then 1 else 0)
    → n ≡ (if a then 0 else if b || c then 1 else 0)
count_old a b c n k h = ground (arith, k)

count_new :
    (a b c : Bool) (n : ℕ)
    → (b ≡ true → a ≡ false)
    → n ≡ (if a || (b || false) then 0 else if c then 1 else 0)
    → (if b then suc n else n) ≡ (if a then 0 else if b || c then 1 else 0)
count_new a b c n k h = ground (arith, k)

-- In any sequence of calls of `mark_processed` on an inbox, whatever sources and ids they name and
-- however often: an event that the inbox has not is answered with `true` exactly once if it is
-- called for at all, and one that it has never is.
pub times-newly :
    (now : ℤ) (source : String) (event_id : ℕ) (ps : List (String × ℕ)) (rows : List InboxRow)
    → times source event_id (newly now ps rows) ≡ (
        if any (is_event source event_id) rows
        then 0
        else if any (is_key source event_id) ps
        then 1
        else 0)
unfolding newly filter any
times-newly now source event_id [] rows = ground arith
times-newly now source event_id (p ∷ ps) rows = elim (Bool-cases (any (is_event p.0 p.1) rows)) [
  | inl old ↦ rw (repeat_skipped now p ps rows old) (
      count_old _ (is_key source event_id p) _ _
        (λ e. sym (same_key source event_id p rows e) ∙ old)
        (times-newly now source event_id ps rows))
  | inr new ↦
      rw
        (
          first_answered now p ps rows new,
          times_cons source event_id p (newly now ps (rows ++ processed now p ∷ [])),
        )
        (count_new _ (is_key source event_id p) _ _
          (λ e. sym (same_key source event_id p rows e) ∙ new)
          (times-newly now source event_id ps (rows ++ processed now p ∷ [])
            ∙ ap (λ b. if b then 0 else if any (is_key source event_id) ps then 1 else 0)
                (any-append (is_event source event_id) rows (processed now p ∷ []))))
]
