-- ===== src/Bounded/Capped.antt =====
-- What a capped graph promises.
use sbom_graph.Prelude.{
  ℕ, ◌≤◌, ◌≡◌, ◌≢◌, inl, inr, refl, sym, ap, subst, max, true, Option, some, List, [], ◌∷◌, map,
  String, arith, ltb, str_eq_self, length, In, In-map, All, Pairwise, Bool-cases,
}
use sbom_graph.Bounded.{Keys, KeptEdges, Result, is_id, seed, start, bound_nodes_edges}
use sbom_graph.Bounded.Nodes.{kept-IsKept, keep_nodes-some}
use sbom_graph.Bounded.Edges.{Joins, keep_edges-counts}

module _ {N E : Type 0} (keys : Keys N E) where
  -- What a capped graph promises: distinct nodes of the given ones within the limit, edges of the
  -- given ones within the limit and between kept nodes, and a flag for what was dropped. The cap on
  -- the nodes leaves room for the root when it is 0.
  pub record IsBounded (nodes : List N) (edges : List E) (max_nodes max_edges : ℕ) (r : Result N E)
      : Type 0 where
    pub ids : List String
    pub named : map keys.id r.nodes ≡ map (λ x. some x) ids
    pub distinct : Pairwise (λ (x y : String). x ≢ y) ids
    pub few_nodes : length r.nodes ≤ max max_nodes 1
    pub few_edges : length r.edges ≤ max_edges
    pub nodes_given : All (λ n. In n nodes) r.nodes
    pub edges_given : All (λ e. In e edges) r.edges
    pub joined : All (Joins keys ids) r.edges
    pub flag : r.truncated ≡ ltb 0 r.dropped

  -- If every node has an id, `bound_nodes_edges` returns a result, and when that says it dropped
  -- nothing, the edges are the given ones and every given node's id is the id of a kept node.
  pub bound_nodes_edges_complete :
      (nodes : List N) (edges : List E) (max_nodes max_edges : ℕ) (root : Option String)
      → ((n : N) → In n nodes → (i : String) × (keys.id n ≡ some i))
      → (r : Result N E) × (bound_nodes_edges keys nodes edges max_nodes max_edges root ≡ some r)
        × (r.dropped ≡ 0
            → (r.edges ≡ edges) × ((n : N) → In n nodes → In (keys.id n) (map keys.id r.nodes)))
  unfolding bound_nodes_edges
  bound_nodes_edges_complete nodes edges max_nodes max_edges root named =
      let (s, kept, grows, here) =
        keep_nodes-some keys max_nodes nodes (start keys root nodes) named in
      let before : KeptEdges E = record {
        kept_edges = [];
        truncated = s.truncated;
        dropped = s.dropped;
      } in
      rw (bound_nodes_edges, kept)
        (
          _,
          refl,
          λ nothing. elim (keep_edges-counts keys s.kept_ids max_edges edges before) [
            | inl more ↦ absurd (omega (arith, more, nothing))
            | inr same ↦ (
              ap (λ k. k.kept_edges) same,
              λ n m. elim (here n (named n m).0 m (named n m).1) [
                | inr lost ↦ absurd (omega (arith, lost, nothing, ap (λ k. k.dropped) same))
                | inl inside ↦
                    subst (λ ids. In (keys.id n) ids)
                      (sym (kept-IsKept keys root nodes max_nodes s kept).ids)
                      (subst (λ i. In i (map (λ x. some x) s.kept_ids)) (sym (named n m).1)
                        (In-map (λ (x : String). some x) (named n m).0 s.kept_ids inside))
              ],
            )
          ],
        )

  seed-root :
      (root : String) (nodes : List N)
      → In (some root) (map keys.id nodes)
      → In root (seed keys root nodes).kept_ids
  unfolding seed is_id
  seed-root root [] m = elim m [ ]
  seed-root root (n ∷ nodes) m = elim (Bool-cases (is_id root (keys.id n))) [
    | inl e ↦ rw e (inl refl)
    | inr e ↦ rw e (elim m [
      | inl same ↦
          let t : is_id root (keys.id n) ≡ true =
            subst (λ o. is_id root o ≡ true) same (str_eq_self root) in
          cc
      | inr m' ↦ seed-root root nodes m'
    ])
  ]

  -- If every node has an id and some node has the id of the root, `bound_nodes_edges` returns a
  -- result in which a node has the id of the root, whatever the limits are.
  pub bound_nodes_edges_root :
      (nodes : List N) (edges : List E) (max_nodes max_edges : ℕ) (root : String)
      → ((n : N) → In n nodes → (i : String) × (keys.id n ≡ some i))
      → In (some root) (map keys.id nodes)
      → (r : Result N E) × (bound_nodes_edges keys nodes edges max_nodes max_edges (some root)
          ≡ some r)
        × In (some root) (map keys.id r.nodes)
  unfolding bound_nodes_edges start
  bound_nodes_edges_root nodes edges max_nodes max_edges root named present =
      let (s, kept, grows, here) =
        keep_nodes-some keys max_nodes nodes (seed keys root nodes) named in
      rw (bound_nodes_edges, kept)
        (
          _,
          refl,
          subst (λ ids. In (some root) ids)
              (sym (kept-IsKept keys (some root) nodes max_nodes s kept).ids)
              (In-map (λ (x : String). some x) root s.kept_ids
                (grows.keeps root (seed-root root nodes present))),
        )
