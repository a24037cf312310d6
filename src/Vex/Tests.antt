-- ===== src/Vex/Tests.antt =====
-- A small OpenVEX document, and the theorems about the processor on it.
use sbom_graph.Prelude.{ℕ, ◌≡◌, refl, Bool, List, [], String, ◌==◌, length}
use sbom_graph.Json.{Json, text, array, object, nil, cons, Fields, blank, entry, ok, characters}
use sbom_graph.Vex.{validate_document, link_products, process_vex_document}
use sbom_graph.Vex.Named.{DocumentNames}
use sbom_graph.Vex.Links.{Sound, process_vex_document-Sound}
use sbom_graph.Vex.Counts.{Summary, process_vex_document-Summary}

abbrev is_cve : String → Bool
is_cve s = s == "CVE-2024-0001"

abbrev is_pkg : String → Bool
is_pkg s = s == "pkg:npm/a"

abbrev ids : ℕ → String
ids n = "statement"

-- A product of a `purl` that is none.
abbrev identified : Json
identified = object (entry "identifiers" (object (entry "purl" (text "left-pad") blank)) blank)

abbrev statement : String → Json
statement vuln_id = object (
    entry "status" (text "fixed") (
      entry "vulnerability" (object (entry "name" (text vuln_id) blank))
        (entry "products" (array (cons (text "pkg:npm/a") (cons identified nil))) blank)))

abbrev document : Json
document = object (
    entry "statements" (array (cons (statement "CVE-2024-0001") (cons (statement "bogus") nil)))
      blank)

program : Unit {0}
unfolding process_vex_document sbom_graph.Members.member
program = tt

document_run : (process_vex_document is_cve is_pkg ids "doc" document).outcome ≡ ok (2, 1)
unfolding program
document_run = refl

document_calls : length (process_vex_document is_cve is_pkg ids "doc" document).calls ≡ 7
unfolding program
document_calls = refl

-- Products that are a text run over its characters, none of which is a package URL.
products_text_run :
    link_products is_cve is_pkg "statement" (characters "pkg:npm/a")
    ≡ record { calls = []; outcome = ok tt }
unfolding program link_products
products_text_run = refl

process_vex_document-Sound_example :
    Sound is_cve is_pkg
      (DocumentNames document)
      []
      (process_vex_document is_cve is_pkg ids "doc" document).calls
process_vex_document-Sound_example = process_vex_document-Sound is_cve is_pkg ids "doc" document

process_vex_document-Summary_example :
    (fs : Fields) × (statements : List Json) × (validate_document document ≡ ok (fs, statements))
    × Summary is_cve is_pkg statements
        (process_vex_document is_cve is_pkg ids "doc" document).calls
        (2, 1)
process_vex_document-Summary_example =
    process_vex_document-Summary is_cve is_pkg ids "doc" document (2, 1) document_run
