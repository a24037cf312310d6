-- ===== src/Tokens/Revocation.antt =====
-- `revoke_token`, `is_token_valid` and `cleanup_expired` over time.
use sbom_graph.Prelude.{
  ℕ, ◌+◌, ◌<◌, ◌≡◌, ◌⊎◌, inl, inr, refl, ap, Bool, true, false, none, some, List, [], ◌∷◌, ◌++◌,
  String, arith, All, All-map, All-append, All-In, Option-cases,
}
use sbom_graph.Table.{
  first, update, first_holds, first-All_false, All-select, All-update, All-update_cases,
}
use sbom_graph.Table.Keys.{first-In}
use sbom_graph.Tokens.{
  StoredToken, TokenDb, Crypto, get_token, revoke_token, has_id, is_owned, is_owned_active,
}
use sbom_graph.Tokens.Invariant.{IsValid, IsBelow}
use sbom_graph.Tokens.Calls.{Call, perform_all, Mild, Rule, perform_all_ind}

-- The id has been given, and no row under it is active.
abbrev IsRevokedRow : ℕ → StoredToken → Type 0
IsRevokedRow i t = t.ident ≡ i → t.is_revoked ≡ true

record IsRevokedId (i : ℕ) (db : TokenDb) : Type 0 where
  given : i < db.next_id
  revoked : All (IsRevokedRow i) db.rows

module _ (i : ℕ) where
  insert-IsRevokedId :
      (t : StoredToken) (db : TokenDb)
      → t.ident ≡ db.next_id
      → IsRevokedId i db
      → IsRevokedId i (record { rows = db.rows ++ t ∷ []; next_id = db.next_id + 1 })
  insert-IsRevokedId t db fresh h = record {
    given = omega (arith, h.given);
    revoked =
        All-append (IsRevokedRow i) db.rows (t ∷ []) h.revoked
          ((λ e. absurd (omega (arith, h.given))), tt);
  }

  update-IsRevokedId :
      (test : StoredToken → Bool) (change : StoredToken → StoredToken) (db : TokenDb)
      → Mild change
      → IsRevokedId i db
      → IsRevokedId i (record db { rows = update test change db.rows })
  update-IsRevokedId test change db m h = record {
    given = h.given;
    revoked =
        All-update (IsRevokedRow i) test change db.rows
          (λ t k _ e. m.revoked t (k (rw (m.ident t) at e))) h.revoked;
  }

  IsRevokedId-Rule : Rule (IsRevokedId i)
  IsRevokedId-Rule = record {
    insert = λ t db fresh _ _ h. insert-IsRevokedId t db fresh h;
    change = update-IsRevokedId;
    remove = λ test db h. record {
      given = h.given;
      revoked = All-select (IsRevokedRow i) test db.rows h.revoked;
    };
  }

  get_token-IsRevokedId :
      (c : Crypto) (fault : Bool) (now : ℕ) (u : String) (db : TokenDb)
      → IsRevokedId i db
      → get_token c fault now i u db ≡ (none, db)
  unfolding get_token
  get_token-IsRevokedId c true now u db h = refl
  get_token-IsRevokedId c false now u db h = rw (
      first-All_false (is_owned_active i u) db.rows (
        All-map (IsRevokedRow i) (λ t. is_owned_active i u t ≡ false) db.rows
          (λ t k. unfold is_owned_active in ground (arith, k)) h.revoked))

-- The row that the owner's query finds, after its revocation.
revoked_row :
    (i : ℕ) (u : String) (db : TokenDb) (t : StoredToken)
    → IsValid db
    → first (is_owned i u) db.rows ≡ some t
    → IsRevokedId i
        (record db { rows = update (has_id t.ident) (λ r. record r { is_revoked = true }) db.rows })
revoked_row i u db t v e = record {
  given =
      rw (← named)
        (All-In (IsBelow db.next_id) t db.rows v.bounded (first-In (is_owned i u) db.rows t e));
  revoked =
      All-update_cases (IsRevokedRow i) (has_id t.ident) (λ r. record r { is_revoked = true })
        db.rows (λ r _ _. refl) (λ r miss same. unfold has_id in ground (arith, named));
}
  where
    named : t.ident ≡ i
    named = unfold is_owned in ground (arith, first_holds (is_owned i u) db.rows t e)

-- Once `revoke_token` has answered true for an id, no `get_token` of that id finds a token, for any
-- user, whatever calls are made in between.
pub get_token-revoke_token :
    (c : Crypto) (i : ℕ) (u : String) (db : TokenDb)
    → IsValid db
    → (revoke_token false i u db).0 ≡ true
    → (calls : List Call) (fault : Bool) (now : ℕ) (v : String)
    → (get_token c fault now i v (perform_all c calls (revoke_token false i u db).1)).0 ≡ none
get_token-revoke_token c i u db valid done calls fault now v =
    ap (λ p. p.0)
      (get_token-IsRevokedId i c fault now v _ (
        perform_all_ind (IsRevokedId-Rule i) c calls _
          (start (Option-cases (first (is_owned i u) db.rows)))))
  where
    start :
        (first (is_owned i u) db.rows ≡ none)
          ⊎ ((t : StoredToken) × (first (is_owned i u) db.rows ≡ some t))
        → IsRevokedId i (revoke_token false i u db).1
    start (inl e) = unfold revoke_token in cc (rw e at done)
    start (inr (t, e)) = unfold revoke_token in rw e (revoked_row i u db t valid e)
