-- ===== src/Propagation/Order.antt =====
-- What `_reverse_topological_sort` returns.
use sbom_graph.Prelude.{
  ℕ, zero, suc, ◌<◌, ◌≡◌, ◌≢◌, ◌↔◌, ◌⊎◌, inl, inr, refl, sym, ap, ◌∙◌, subst, true, false, some,
  List, [], ◌∷◌, ◌++◌, String, arith, In, In-append_left, In-append_right, In-append_cases,
  All-append, All-In, All_of_In, Pairwise, Bool-cases,
}
use mathlib.Core.List.{append-nil}
use sbom_graph.Members.{member, member_iff}
use sbom_graph.Dict.{Dict, key_list}
use sbom_graph.Propagation.{Kahn, children_of, leftover, reverse_topological_sort}
use sbom_graph.Propagation.Edges.{unvisited_deps}
use sbom_graph.Propagation.Release.{IsReady}
use sbom_graph.Propagation.Rounds.{IsEdge, IsOrdered, IsKahn}
use sbom_graph.Propagation.Ends.{drain-start}

In-leftover :
    (visited nodes : List String) (x : String)
    → In x (leftover visited nodes) ↔ (In x nodes × (member x visited ≡ false))
unfolding leftover
In-leftover visited [] x = (λ m. elim m [ ], λ h. elim h.0 [ ])
In-leftover visited (n ∷ nodes) x =
    let (to, from) = In-leftover visited nodes x in
    elim (Bool-cases (member n visited)) [
      | inl e ↦
          rw (leftover, e)
            (
              λ m. let h = to m in (inr h.0, h.1),
              λ h. elim h.0 [
                | inl same ↦ absurd (
                    let k : member n visited ≡ false =
                      subst (λ y. member y visited ≡ false) same h.1 in
                    cc)
                | inr later ↦ from (later, h.1)
              ],
            )
      | inr e ↦
          rw (leftover, e)
            (
              λ m. elim m [
                | inl same ↦ (inl same, subst (λ y. member y visited ≡ false) (sym same) e)
                | inr later ↦ let h = to later in (inr h.0, h.1)
              ],
              λ h. elim h.0 [ inl same ↦ inl same | inr later ↦ inr (from (later, h.1)) ],
            )
    ]

leftover-distinct :
    (visited nodes : List String)
    → Pairwise (λ (x y : String). x ≢ y) nodes
    → Pairwise (λ (x y : String). x ≢ y) (leftover visited nodes)
unfolding leftover
leftover-distinct visited [] h = tt
leftover-distinct visited (n ∷ nodes) h =
    let ih = leftover-distinct visited nodes h.1 in
    elim (Bool-cases (member n visited)) [
      | inl e ↦ rw e ih
      | inr e ↦ rw e (
        All_of_In (λ y. n ≢ y) (leftover visited nodes)
            (λ y m. All-In (λ y. n ≢ y) y nodes h.0 ((In-leftover visited nodes y).0 m).0),
        ih,
      )
    ]

Pairwise-append :
    (xs ys : List String)
    → Pairwise (λ (x y : String). x ≢ y) xs
    → Pairwise (λ (x y : String). x ≢ y) ys
    → ((x y : String) → In x xs → In y ys → x ≢ y)
    → Pairwise (λ (x y : String). x ≢ y) (xs ++ ys)
Pairwise-append [] ys h k f = k
Pairwise-append (x ∷ xs) ys h k f = (
  All-append (λ y. x ≢ y) xs ys h.0 (All_of_In (λ y. x ≢ y) ys (λ y m. f x y (inl refl) m)),
  Pairwise-append xs ys h.1 k (λ a b m n. f a b (inr m) n),
)

-- There is an edge to a node that is not visited, or none.
unvisited_deps_cases :
    (nodes visited deps : List String)
    → (unvisited_deps nodes visited deps ≡ 0)
      ⊎ ((d : String) × In d deps × In d nodes × (member d visited ≡ false))
unfolding unvisited_deps
unvisited_deps_cases nodes visited [] = inl refl
unvisited_deps_cases nodes visited (dep ∷ deps) = elim (unvisited_deps_cases nodes visited deps) [
  | inr (d, m, n, e) ↦ inr (d, inr m, n, e)
  | inl z ↦ elim (Bool-cases (member dep nodes)) [
    | inr e ↦ inl (rw e z)
    | inl e ↦ elim (Bool-cases (member dep visited)) [
      | inl f ↦ inl (rw (e, f) z)
      | inr f ↦ inr (dep, inl refl, (member_iff dep nodes).0 e, f)
    ]
  ]
]

module _ (nodes : List String) (children : Dict (List String)) where
  -- Where the graph has no cycle, the loop ends with every node visited.
  all_visited :
      (rank : String → ℕ)
      → ((p d : String) → In p nodes → IsEdge nodes children p d → rank d < rank p)
      → (t : Kahn) → IsKahn nodes children t
      → t.queue ≡ []
      → (bound : ℕ) (p : String) → In p nodes
      → rank p < bound
      → member p t.visited ≡ true
  unfolding IsReady IsEdge
  all_visited rank falls t h e zero p m lt = absurd (omega arith)
  all_visited rank falls t h e (suc bound) p m lt = elim (Bool-cases (member p t.visited)) [
    | inl seen ↦ seen
    | inr new ↦ elim (unvisited_deps_cases nodes t.visited (children_of children p)) [
      | inl z ↦ elim (subst (λ xs. In p xs) e (h.is_ready p m new (h.degrees p m new ∙ z))) [ ]
      | inr (d, child, node, unseen) ↦
          let less = falls p d m (child, node) in
          let seen = all_visited rank falls t h e bound d node (omega (arith, less, lt)) in cc
    ]
  ]

  leftover_none :
      (visited xs : List String)
      → ((x : String) → In x xs → member x visited ≡ true)
      → leftover visited xs ≡ []
  unfolding leftover
  leftover_none visited [] f = refl
  leftover_none visited (x ∷ xs) f =
      rw (f x (inl refl)) (leftover_none visited xs (λ y m. f y (inr m)))

  module _ (keys : Pairwise (λ (j k : String). j ≢ k) (key_list children))
      (distinct : Pairwise (λ (x y : String). x ≢ y) nodes) where
    -- For distinct nodes and parents `_reverse_topological_sort` ends, with a list in which every
    -- node stands once and nothing else stands, cycles or not.
    pub reverse_topological_sort_total :
        (result : List String) × (reverse_topological_sort nodes children ≡ some result)
        × Pairwise (λ (x y : String). x ≢ y) result
        × ((x : String) → In x result ↔ In x nodes)
    unfolding reverse_topological_sort
    reverse_topological_sort_total =
        let (t, run, h, e) = drain-start nodes children keys in
        rw (reverse_topological_sort, run)
          (
            t.result ++ leftover t.visited nodes,
            refl,
            Pairwise-append t.result (leftover t.visited nodes) h.distinct
                (leftover-distinct t.visited nodes distinct)
                (λ x y m n same.
                  let seen = (member_iff x t.visited).1 (subst (λ xs. In x xs) (sym h.same) m) in
                  let unseen : member x t.visited ≡ false =
                    subst (λ z. member z t.visited ≡ false) (sym same)
                      ((In-leftover t.visited nodes y).0 n).1 in
                  cc),
            λ x. (
              λ m. elim (In-append_cases x t.result (leftover t.visited nodes) m) [
                | inl early ↦ All-In (λ x. In x nodes) x t.result h.within early
                | inr late ↦ ((In-leftover t.visited nodes x).0 late).0
              ],
              λ m. elim (Bool-cases (member x t.visited)) [
                | inl seen ↦
                    In-append_left x t.result _
                      (subst (λ xs. In x xs) h.same ((member_iff x t.visited).0 seen))
                | inr new ↦
                    In-append_right x t.result _ ((In-leftover t.visited nodes x).1 (m, new))
              ],
            ),
          )

    -- For distinct nodes and parents and a graph without cycles, that is, where some rank falls along
    -- every edge between nodes, `_reverse_topological_sort` ends, and every node stands behind all its
    -- dependencies that are nodes.
    pub reverse_topological_sort-IsOrdered :
        (rank : String → ℕ)
        → ((p d : String) → In p nodes → IsEdge nodes children p d → rank d < rank p)
        → (result : List String) × (reverse_topological_sort nodes children ≡ some result)
          × IsOrdered nodes children result
    unfolding reverse_topological_sort
    reverse_topological_sort-IsOrdered rank falls =
        let (t, run, h, e) = drain-start nodes children keys in
        let none_left =
          leftover_none t.visited nodes
            (λ x m. all_visited rank falls t h e (suc (rank x)) x m (omega arith)) in
        rw (reverse_topological_sort, run)
          (
            t.result ++ leftover t.visited nodes,
            refl,
            subst (λ xs. IsOrdered nodes children xs)
                (sym (ap (λ xs. t.result ++ xs) none_left ∙ append-nil t.result)) h.ordered,
          )
