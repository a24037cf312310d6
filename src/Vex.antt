-- ===== src/Vex.antt =====
-- The OpenVEX processor of sbom-graph-model/src/sbom_graph_model/vex.py, with `VexStatus.from_str` of
-- sbom-graph-model/src/sbom_graph_model/model.py. Processing a document is the list of the calls of
-- the graph database in order, and how it ended.
pub mod Named
pub mod Links
pub mod Counts
pub mod Tests
use sbom_graph.Prelude.{
  ℕ, ◌+◌, Bool, true, false, ◌||◌, Option, none, some, List, [], ◌∷◌, ◌++◌, String, ◌==◌,
  if◌then◌else◌,
}
use sbom_graph.Members.{member}
use sbom_graph.Json.{
  Json, null, boolean, number, text, array, object, nil, Items, cons, Fields, blank, Error, invalid,
  raises, Result, ok, err, ◌>>=◌, items, get, get_or, truthy, or_else, as_dict, iterate,
}

-- Where the code raises an error of its own.
pub data VexFault : Type 0 where
  not_object : VexFault
  no_statements : VexFault
  bad_status : VexFault

pub data VexCall : Type 0 where
  create_vex_statement : String → String → Json → Json → Json → Json → Json → VexCall
  link_vex_to_defect : String → String → VexCall
  link_vex_to_version : String → String → VexCall

-- The calls made, and how it ended.
pub record Trail (A : Type 0) : Type 0 where
  pub calls : List VexCall
  pub outcome : Result VexFault A

abbrev pub valid_statuses : List String
valid_statuses = "not_affected" ∷ "affected" ∷ "fixed" ∷ "under_investigation" ∷ []

-- `VexStatus.from_str`, where a nonempty list or dictionary does not hash.
unfoldable pub from_str : Json → Result VexFault String
unfolding member truthy
from_str (text s) = if member s valid_statuses then ok s else err (invalid bad_status)
from_str (array js) = if truthy (array js) then err raises else err (invalid bad_status)
from_str (object fs) = if truthy (object fs) then err raises else err (invalid bad_status)
from_str _ = err (invalid bad_status)

-- The statements of a document that passes `_validate_document`.
unfoldable pub validate_document : Json → Result VexFault (Fields × List Json)
unfolding get items
validate_document (object fs) = elim (get "statements" fs) [
  | array nil ↦ err (invalid no_statements)
  | array (cons j js) ↦ ok (fs, j ∷ items js)
  | _ ↦ err (invalid no_statements)
]
validate_document _ = err (invalid not_object)

-- `is_vuln_id` is the match of `_VULN_ID_RE`, `is_purl` the test `startswith("pkg:")`.
module _ (is_vuln_id is_purl : String → Bool) where
  unfoldable pub extract_purl : Json → Result VexFault (Option String)
  unfolding or_else get get_or as_dict truthy
  extract_purl (text product) = ok (if is_purl product then some product else none)
  extract_purl (object product) =
      as_dict (or_else (get "identifiers" product) (object blank)) >>= λ identifiers.
      let by_id : Result VexFault (Option String) = elim (get_or "@id" (text "") product) [
        | text product_id ↦ ok (if is_purl product_id then some product_id else none)
        | _ ↦ ok none
      ] in
      elim (get "purl" identifiers) [
        | text purl ↦ if purl == "" then by_id else ok (some purl)
        | _ ↦ by_id
      ]
  extract_purl _ = ok none

  -- The identifier that is linked, empty when there is none or it is not recognised.
  unfoldable pub linked_id : Json → String
  linked_id (text s) = if is_vuln_id s then s else ""
  linked_id _ = ""

  -- The loop over the products.
  unfoldable pub link_products : String → List Json → Trail (Unit {0})
  unfolding extract_purl
  link_products statement_id [] = record { calls = []; outcome = ok tt }
  link_products statement_id (product ∷ products) =
      let rest = link_products statement_id products in
      elim (extract_purl product) [
        | err e ↦ record { calls = []; outcome = err e }
        | ok none ↦ rest
        | ok (some purl) ↦ if purl == "" then rest else record {
          calls = link_vex_to_version statement_id purl ∷ rest.calls;
          outcome = rest.outcome;
        }
      ]

  -- From the products on.
  unfoldable pub link_statement : String → ℕ → Fields → Trail ℕ
  unfolding iterate get_or link_products
  link_statement statement_id linked stmt = elim (iterate (get_or "products" (array nil) stmt)) [
    | err e ↦ record { calls = []; outcome = err e }
    | ok products ↦
        let links = link_products statement_id products in
        record { calls = links.calls; outcome = links.outcome >>= λ u. ok linked }
  ]

  -- From the vulnerability on.
  unfoldable pub link_vulnerability : String → Fields → Trail ℕ
  unfolding as_dict or_else get get_or linked_id link_statement
  link_vulnerability statement_id stmt =
      elim (as_dict {I = VexFault} (or_else (get "vulnerability" stmt) (object blank))) [
        | err e ↦ record { calls = []; outcome = err e }
        | ok vulnerability ↦
            let vuln_id =
              linked_id
                (or_else (get "@id" vulnerability) (get_or "name" (text "") vulnerability)) in
            if vuln_id == ""
            then link_statement statement_id 0 stmt
            else (let links = link_statement statement_id 1 stmt in
                record {
                  calls = link_vex_to_defect statement_id vuln_id ∷ links.calls;
                  outcome = links.outcome;
                })
      ]

  -- A statement of a valid status.
  unfoldable pub persist_statement : String → Json → Json → String → Fields → Trail ℕ
  unfolding get get_or link_vulnerability
  persist_statement statement_id source_document doc_timestamp status stmt =
      let links = link_vulnerability statement_id stmt in
      record {
        calls =
            create_vex_statement statement_id status (get "justification" stmt)
              (get "impact_statement" stmt) (get "action_statement" stmt) source_document
              (get_or "timestamp" doc_timestamp stmt)
            ∷ links.calls;
        outcome = links.outcome;
      }

  -- The count of linked vulnerabilities; `statement_id` is drawn for the statement.
  unfoldable pub process_statement : String → Json → Json → Json → Trail ℕ
  unfolding from_str get_or persist_statement
  process_statement statement_id source_document doc_timestamp (object stmt) =
      elim (from_str (get_or "status" (text "") stmt)) [
        | ok status ↦ persist_statement statement_id source_document doc_timestamp status stmt
        | err (invalid fault) ↦ record { calls = []; outcome = ok 0 }
        | err e ↦ record { calls = []; outcome = err e }
      ]
  process_statement statement_id source_document doc_timestamp _ = record {
    calls = [];
    outcome = err raises;
  }

  -- The loop over the statements, from the `n`-th on; `ids` draws their identifiers. The result
  -- counts the statements and the linked vulnerabilities.
  unfoldable pub process_statements : (ℕ → String) → ℕ → Json → Json → List Json → Trail (ℕ × ℕ)
  unfolding process_statement
  process_statements ids n source_document doc_timestamp [] = record {
    calls = [];
    outcome = ok (0, 0);
  }
  process_statements ids n source_document doc_timestamp (stmt ∷ statements) =
      let first_one = process_statement (ids n) source_document doc_timestamp stmt in
      let rest = process_statements ids (n + 1) source_document doc_timestamp statements in
      elim first_one.outcome [
        | err e ↦ record { calls = first_one.calls; outcome = err e }
        | ok linked ↦ record {
          calls = first_one.calls ++ rest.calls;
          outcome = rest.outcome >>= λ (processed, linked_vulns).
              ok (processed + 1, linked + linked_vulns);
        }
      ]

  unfoldable pub process_vex_document : (ℕ → String) → String → Json → Trail (ℕ × ℕ)
  unfolding validate_document get_or process_statements
  process_vex_document ids document_id document = elim (validate_document document) [
    | err e ↦ record { calls = []; outcome = err e }
    | ok (fs, statements) ↦
        process_statements ids 0 (get_or "@id" (text document_id) fs)
          (get_or "timestamp" (text "") fs) statements
  ]
