-- ===== src/Tokens/Listing.antt =====
-- Which tokens `list_tokens` shows.
use sbom_graph.Prelude.{
  ℕ, ◌≡◌, ◌↔◌, ◌⊎◌, Bool, true, false, List, String, arith, eq_iff, In, In-map, In-of_In-map,
}
use sbom_graph.Table.{select}
use sbom_graph.Table.Keys.{In-select, In-of_In-select}
use sbom_graph.Tokens.{StoredToken, TokenDb, TokenSummary, list_tokens, is_listed, summary}

-- What `ORDER BY` is relied on for: it keeps the rows.
abbrev pub KeepsRows : (List StoredToken → List StoredToken) → Type 0
KeepsRows order_by = (rows : List StoredToken) (t : StoredToken) → In t (order_by rows) ↔ In t rows

-- The user's row is shown: it is not revoked, or the revoked ones are asked for.
abbrev pub IsShown : String → Bool → StoredToken → Type 0
IsShown username include_revoked t =
    (t.username ≡ username) × ((include_revoked ≡ true) ⊎ (t.is_revoked ≡ false))

is_listed_iff :
    (username : String) (include_revoked : Bool) (t : StoredToken)
    → (is_listed username include_revoked t ≡ true) ↔ IsShown username include_revoked t
unfolding is_listed
is_listed_iff username include_revoked t = (
  λ h. ground (arith, eq_iff t.username username),
  λ (same, shown). ground (arith, eq_iff t.username username),
)

-- `list_tokens` shows exactly the summaries of the user's rows that are not revoked, and those of the
-- revoked ones too when they are asked for, whatever order the database puts them in.
pub list_tokens_iff :
    (order_by : List StoredToken → List StoredToken) (now : ℕ) (username : String)
    (include_revoked : Bool) (db : TokenDb) (s : TokenSummary)
    → KeepsRows order_by
    → In s (list_tokens order_by false now username include_revoked db) ↔ (
        (t : StoredToken) × In t db.rows × IsShown username include_revoked t × (s ≡ summary now t))
unfolding list_tokens
list_tokens_iff order_by now username include_revoked db s keeps = (
  λ m.
      let (t, n, e) = In-of_In-map (summary now) s (order_by (select wanted db.rows)) m in
      let (k, h) = In-of_In-select wanted db.rows t ((keeps (select wanted db.rows) t).0 n) in
      (t, k, (is_listed_iff username include_revoked t).0 h, e),
  λ (t, k, shown, e). rw e (
      In-map (summary now) t (order_by (select wanted db.rows)) (
        (keeps (select wanted db.rows) t).1
          (In-select wanted db.rows t k ((is_listed_iff username include_revoked t).1 shown)))),
)
  where
    wanted : StoredToken → Bool
    wanted = is_listed username include_revoked
