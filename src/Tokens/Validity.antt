-- ===== src/Tokens/Validity.antt =====
-- `is_token_valid` against the rows, and what `cleanup_expired` does to it.
use sbom_graph.Prelude.{
  ℕ, ◌≡◌, ◌↔◌, inl, inr, refl, ◌∙◌, sym, Bool, true, false, not, some, [], String, arith, eq_iff,
  All, All-map, All-In, In, Option-cases, Bool-cases, length, if◌then◌else◌, ◌+◌,
}
use sbom_graph.Table.{
  first, select, first_holds, first-none, select-All_true, select_of_All, select-All_false,
}
use sbom_graph.Table.Keys.{first-In, All-key, length-select-not, In-select, In-of_In-select}
use sbom_graph.Tokens.{
  StoredToken, TokenDb, Crypto, is_token_valid, cleanup_expired, has_hash, is_dead, is_past,
}
use sbom_graph.Tokens.Invariant.{IsValid, perform-IsValid}
use sbom_graph.Tokens.Calls.{cleanup, perform}

-- A row for the token, if there is one, is neither revoked nor expired.
abbrev pub Clears : Crypto → ℕ → String → StoredToken → Type 0
Clears c now token t = t.token_hash ≡ c.sha256 token → is_dead now t ≡ false

-- With the database up, a token is valid exactly when no row that carries its hash is revoked or
-- expired; a token with no row is valid.
pub is_token_valid_iff :
    (c : Crypto) (now : ℕ) (token : String) (db : TokenDb)
    → IsValid db
    → (is_token_valid c false now token db ≡ true) ↔ All (Clears c now token) db.rows
unfolding is_token_valid is_dead
is_token_valid_iff c now token db v =
    elim (Option-cases (first (has_hash (c.sha256 token)) db.rows)) [
      | inl e ↦ (
        λ _.
            All-map (λ t. has_hash (c.sha256 token) t ≡ false) (Clears c now token) db.rows
              (λ t h same. unfold has_hash in ground (arith, eq_iff t.token_hash (c.sha256 token)))
              (first-none (has_hash (c.sha256 token)) db.rows e),
        λ _. rw e,
      )
      | inr (t, e) ↦ (
        λ h.
            All-map (λ r. r.token_hash ≡ t.token_hash → r ≡ t) (Clears c now token) db.rows
              (λ r only same. rw (only (same ∙ sym (named t e))) (clear t (rw e at h)))
              (All-key (λ r. r.token_hash) db.rows t v.hashes
                (first-In (has_hash (c.sha256 token)) db.rows t e)),
        λ all. rw e (
            valid t (
              All-In (Clears c now token) t db.rows all
                (first-In (has_hash (c.sha256 token)) db.rows t e) (named t e))),
      )
    ]
  where
    named :
        (t : StoredToken)
        → first (has_hash (c.sha256 token)) db.rows ≡ some t
        → t.token_hash ≡ c.sha256 token
    named t e =
        (eq_iff t.token_hash (c.sha256 token)).0
          (unfold has_hash in first_holds (has_hash (c.sha256 token)) db.rows t e)

    clear :
        (t : StoredToken)
        → (if t.is_revoked then false else if is_past now t.expires_at then false else true) ≡ true
        → is_dead now t ≡ false
    clear t h = ground arith

    valid :
        (t : StoredToken)
        → is_dead now t ≡ false
        → (if t.is_revoked then false else if is_past now t.expires_at then false else true) ≡ true
    valid t h = ground arith

-- While its row stays in the table, a revoked token is not valid, whatever the time and the database.
pub is_token_valid-revoked :
    (c : Crypto) (fault : Bool) (now : ℕ) (token : String) (db : TokenDb) (t : StoredToken)
    → IsValid db
    → In t db.rows
    → t.token_hash ≡ c.sha256 token
    → t.is_revoked ≡ true
    → is_token_valid c fault now token db ≡ false
is_token_valid-revoked c true now token db t v m same dead = unfold is_token_valid in refl
is_token_valid-revoked c false now token db t v m same dead =
    elim (Bool-cases (is_token_valid c false now token db)) [
      | inl h ↦
          let live =
            All-In (Clears c now token) t db.rows ((is_token_valid_iff c now token db v).0 h) m
              same in
          unfold is_dead in ground arith
      | inr h ↦ h
    ]

-- Right after `cleanup_expired` every token is valid, the revoked and the expired ones included,
-- since no row tells against them any more.
pub is_token_valid-cleanup_expired :
    (c : Crypto) (now : ℕ) (token : String) (db : TokenDb)
    → IsValid db
    → is_token_valid c false now token (cleanup_expired false now db).1 ≡ true
is_token_valid-cleanup_expired c now token db v = (is_token_valid_iff c now token _ cleaned).1 (
    All-map (λ t. not (is_dead now t) ≡ true) (Clears c now token) _ (λ t h _. ground arith)
      (unfold cleanup_expired in select-All_true (λ r. not (is_dead now r)) db.rows))
  where
    cleaned : IsValid (cleanup_expired false now db).1
    cleaned = unfold perform in perform-IsValid c (cleanup false now) db v

-- `cleanup_expired` returns the number of rows that it removes, removes exactly the rows that are
-- revoked or expired, and removes nothing when it is called again at the same time.
pub cleanup_expired_lem :
    (now : ℕ) (db : TokenDb)
    → let (removed, cleaned) = cleanup_expired false now db in
      (removed + length cleaned.rows ≡ length db.rows)
      × ((t : StoredToken) → In t cleaned.rows ↔ In t db.rows × (is_dead now t ≡ false))
      × (cleanup_expired false now cleaned ≡ (0, cleaned))
unfolding cleanup_expired
cleanup_expired_lem now db = (
  length-select-not (is_dead now) db.rows,
  λ t. (
    λ m. let (n, h) = In-of_In-select (λ r. not (is_dead now r)) db.rows t m in (n, ground arith),
    λ m. In-select (λ r. not (is_dead now r)) db.rows t m.0 (ground arith),
  ),
  λ i. (length (none_dead i), record { rows = all_live i; next_id = db.next_id }),
)
  where
    live : All (λ r. not (is_dead now r) ≡ true) (select (λ r. not (is_dead now r)) db.rows)
    live = select-All_true (λ r. not (is_dead now r)) db.rows

    none_dead : select (is_dead now) (select (λ r. not (is_dead now r)) db.rows) ≡ []
    none_dead = select-All_false (is_dead now) _ (
        All-map (λ r. not (is_dead now r) ≡ true) (λ r. is_dead now r ≡ false) _
          (λ r h. ground arith) live)

    all_live :
        select (λ r. not (is_dead now r)) (select (λ r. not (is_dead now r)) db.rows)
        ≡ select (λ r. not (is_dead now r)) db.rows
    all_live = select_of_All (λ r. not (is_dead now r)) _ live
