-- ===== src/BlastRadius/Tests.antt =====
-- A small graph of dependants, and the theorems about the blast radius on it.
use sbom_graph.Prelude.{
  ℕ, zero, suc, ◌<◌, ◌≡◌, inl, inr, refl, sym, ◌∙◌, ap, subst, none, List, [], ◌∷◌, map, String,
  arith, text_ne, In, In-map, In-of_In-map,
}
use sbom_graph.Members.{member, member_iff}
use sbom_graph.Table.{select}
use sbom_graph.Table.Keys.{In-select, In-of_In-select}
use sbom_graph.BlastRadius.{Row, Frontier, compute_blast_radius, package_of}
use sbom_graph.BlastRadius.Distance.{Edge, Step, Walk, AtDistance}
use sbom_graph.BlastRadius.Levels.{Answers}
use sbom_graph.BlastRadius.Frontiers.{IsFrontier, Listed}
use sbom_graph.BlastRadius.Exactness.{compute_blast_radius-IsFrontier, compute_blast_radius-Listed}

abbrev row : String → Row
row purl = record { project_name = none; version = none; purl = purl; project_group = none }

-- A database that walks its edges.
abbrev answer : List Edge → List String → List Row
answer edges purls = map (λ e. e.parent) (select (λ e. member e.child purls) edges)

answer-Answers : (edges : List Edge) → Answers edges (answer edges)
answer-Answers edges purls r = (
  λ m.
      let (e, k, same) =
        In-of_In-map (λ (x : Edge). x.parent) r (select (λ e. member e.child purls) edges) m in
      let (n, t) = In-of_In-select (λ (x : Edge). member x.child purls) edges e k in
      (e, n, (member_iff e.child purls).0 t, sym same),
  λ (e, n, inside, same).
      subst (λ x. In x (answer edges purls)) same
        (In-map (λ (x : Edge). x.parent) e _
          (In-select (λ (x : Edge). member x.child purls) edges e n
            ((member_iff e.child purls).1 inside))),
)

-- "b" and "c" depend on "a", and "d" on "b".
abbrev graph : List Edge
graph =
    record { child = "a"; parent = row "b" }
    ∷ record { child = "a"; parent = row "c" }
    ∷ record { child = "b"; parent = row "d" }
    ∷ []

program : Unit {0}
unfolding compute_blast_radius member select
program = tt

abbrev level_two : Frontier
level_two = record { depth = 2; packages = package_of (row "d") ∷ [] }

radius : (compute_blast_radius (answer graph) "a" 10).total_affected ≡ 3
unfolding program
radius = refl

level_two-In : In level_two (compute_blast_radius (answer graph) "a" 10).frontiers
unfolding program
level_two-In = inr (inl refl)

not_sooner : (m : ℕ) → m < 2 → ¬ Walk graph "a" m "d"
not_sooner zero lt w = text_ne "d" "a" refl w
not_sooner (suc zero) lt (p, w, (ne, e, inl same, from, to)) =
    text_ne "b" "d" refl (sym (ap (λ (x : Edge). x.parent.purl) same) ∙ to)
not_sooner (suc zero) lt (p, w, (ne, e, inr (inl same), from, to)) =
    text_ne "c" "d" refl (sym (ap (λ (x : Edge). x.parent.purl) same) ∙ to)
not_sooner (suc zero) lt (p, w, (ne, e, inr (inr (inl same)), from, to)) =
    text_ne "b" "a" refl (sym (ap (λ (x : Edge). x.child) same) ∙ from ∙ w)
not_sooner (suc zero) lt (p, w, (ne, e, inr (inr (inr none_left)), from, to)) = elim none_left [ ]
not_sooner (suc (suc m)) lt w = absurd (omega arith)

first_edge : Step graph "a" "a" "b"
first_edge = (text_ne "b" "" refl, _, inl refl, refl, refl)

d-AtDistance : AtDistance graph "a" 2 "d"
d-AtDistance = (
  ("b", ("a", refl, first_edge), (text_ne "d" "" refl, _, inr (inr (inl refl)), refl, refl)),
  λ (m, lt, w). not_sooner m lt w,
)

compute_blast_radius-IsFrontier_example : IsFrontier graph "a" 10 level_two
compute_blast_radius-IsFrontier_example =
    compute_blast_radius-IsFrontier graph (answer graph) "a" 10 level_two (answer-Answers graph)
      level_two-In

compute_blast_radius-Listed_example :
    Listed graph "a" 2 "d" (compute_blast_radius (answer graph) "a" 10).frontiers
compute_blast_radius-Listed_example =
    compute_blast_radius-Listed graph (answer graph) "a" 10 2 "d" (answer-Answers graph)
      (unfold program in omega arith) (omega arith) (omega arith) d-AtDistance
