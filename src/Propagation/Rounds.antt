-- ===== src/Propagation/Rounds.antt =====
-- The invariant of the main loop.
use sbom_graph.Prelude.{
  ℕ, ◌≡◌, ◌≢◌, inl, inr, refl, sym, ap, ◌∙◌, subst, true, false, List, [], ◌∷◌, ◌++◌, String, ◌==◌,
  arith, leb, leb→le, eq_iff, In, In-append_cases, All, All-append, All_of_In, Pairwise,
  Pairwise-snoc, Bool-cases,
}
use mathlib.Core.List.{append_assoc}
use sbom_graph.Members.{member, member_iff}
use sbom_graph.Dict.{Dict, key_list}
use sbom_graph.Propagation.{
  Kahn, children_of, parents, reverse_children, out_degree, release, ready, visit, start,
}
use sbom_graph.Propagation.Edges.{
  parents-In, unvisited_deps, member-snoc, unvisited_deps-snoc, unvisited_deps_zero,
  unvisited_deps_start, times-parents,
}
use sbom_graph.Propagation.Release.{
  release-fixed, release-degree, AllZero, release-AllZero, release-In, IsReady, release-IsReady,
}

-- `d` stands before `p` in the list.
unfoldable pub Before : String → String → List String → Type 0
Before d p xs = (front : List String) × (back : List String) × (xs ≡ front ++ p ∷ back) × In d front

Before-snoc : (d p x : String) (xs : List String) → Before d p xs → Before d p (xs ++ x ∷ [])
unfolding Before
Before-snoc d p x xs (front, back, e, m) =
    (front, back ++ x ∷ [], ap (λ ys. ys ++ x ∷ []) e ∙ append_assoc front (p ∷ back) (x ∷ []), m)

In-ready :
    (degree : String → ℕ) (nodes : List String) (q : String)
    → In q (ready degree nodes)
    → In q nodes × (degree q ≡ 0)
unfolding ready
In-ready degree [] q m = elim m [ ]
In-ready degree (x ∷ nodes) q m = elim (Bool-cases (leb (degree x) 0)) [
  | inr e ↦ let h = In-ready degree nodes q (rw e at m) in (inr h.0, h.1)
  | inl e ↦ elim (rw e at m) [
    | inl same ↦ (inl same, omega (arith, ap degree same, leb→le (degree x) 0 e))
    | inr later ↦ let h = In-ready degree nodes q later in (inr h.0, h.1)
  ]
]

ready-In :
    (degree : String → ℕ) (nodes : List String) (q : String)
    → In q nodes
    → degree q ≡ 0
    → In q (ready degree nodes)
unfolding ready
ready-In degree [] q m z = elim m [ ]
ready-In degree (x ∷ nodes) q m z = elim (Bool-cases (leb (degree x) 0)) [
  | inl e ↦
      rw e (elim m [ inl same ↦ inl same | inr later ↦ inr (ready-In degree nodes q later z) ])
  | inr e ↦ rw e (elim m [
    | inl same ↦ absurd (
        let h : leb (degree x) 0 ≡ true =
          ap (λ y. leb (degree y) 0) (sym same) ∙ ap (λ n. leb n 0) z in
        cc)
    | inr later ↦ ready-In degree nodes q later z
  ])
]

-- The nodes of the graph, and its edges between nodes.
module _ (nodes : List String) (children : Dict (List String)) where
  unfoldable pub IsEdge : String → String → Type 0
  IsEdge p d = In d (children_of children p) × In d nodes

  -- Every node of the list stands behind its dependencies.
  unfoldable pub IsOrdered : List String → Type 0
  IsOrdered xs = (p d : String) → In p xs → IsEdge p d → Before d p xs

  -- Holds whenever the main loop tests its queue.
  pub record IsKahn (s : Kahn) : Type 0 where
    pub same : s.visited ≡ s.result
    pub distinct : Pairwise (λ (x y : String). x ≢ y) s.result
    pub within : All (λ x. In x nodes) s.result
    pub queued : (q : String) → In q s.queue → In q nodes
    pub degrees :
        (p : String)
        → In p nodes
        → member p s.visited ≡ false
        → s.degree p ≡ unvisited_deps nodes s.visited (children_of children p)
    pub all_zero : AllZero s
    pub is_ready : (p : String) → In p nodes → member p s.visited ≡ false → IsReady p s
    pub ordered : IsOrdered s.result

  module _ (keys : Pairwise (λ (j k : String). j ≢ k) (key_list children)) where
    -- The round of a node that is visited already.
    skip-IsKahn :
        (v : String) (rest : List String) (s : Kahn)
        → s.queue ≡ v ∷ rest
        → member v s.visited ≡ true
        → IsKahn s
        → IsKahn (record s { queue = rest })
    unfolding AllZero IsReady
    skip-IsKahn v rest s e old h =
        let inside : (q : String) → In q rest → In q s.queue =
          λ q m. subst (λ xs. In q xs) (sym e) (inr m) in
        record {
          same = h.same;
          distinct = h.distinct;
          within = h.within;
          queued = λ q m. h.queued q (inside q m);
          degrees = h.degrees;
          all_zero = λ q m. h.all_zero q (inside q m);
          is_ready = λ p m n z. elim (subst (λ xs. In p xs) e (h.is_ready p m n z)) [
            | inl same ↦ absurd (let k : member p s.visited ≡ true = rw same old in cc)
            | inr later ↦ later
          ];
          ordered = h.ordered;
        }

    module _ (v : String) (rest : List String) (s : Kahn) where
      -- The state before the inner loop.
      abbrev marked : Kahn
      marked = record s { queue = rest; visited = s.visited ++ v ∷ []; result = s.result ++ v ∷ [] }

      abbrev released : Kahn
      released = release (parents nodes v children) marked

      -- What is not marked is another node, not visited before.
      unmarked :
          (p : String)
          → member p (s.visited ++ v ∷ []) ≡ false
          → (member p s.visited ≡ false) × (p ≢ v)
      unmarked p n =
          let two = member-snoc p v s.visited in
          (ground arith, λ same. let k : (p == v) ≡ true = (eq_iff p v).1 same in ground arith)

      released-degree :
          IsKahn s
          → member v nodes ≡ true
          → member v s.visited ≡ false
          → (p : String) → In p nodes
          → member p (s.visited ++ v ∷ []) ≡ false
          → released.degree p ≡ unvisited_deps nodes (s.visited ++ v ∷ []) (children_of children p)
      released-degree h m new p k n = omega (
        arith,
        release-degree (parents nodes v children) p marked n,
        times-parents nodes p v children keys ((member_iff p nodes).1 k),
        unvisited_deps-snoc nodes s.visited v (children_of children p) m new,
        h.degrees p k (unmarked p n).0,
      )

      marked-IsOrdered :
          IsKahn s
          → In v s.queue
          → In v nodes
          → member v s.visited ≡ false
          → IsOrdered marked.result
      unfolding IsOrdered IsEdge Before AllZero
      marked-IsOrdered h q k new p d m (child, node) =
          elim (In-append_cases p s.result (v ∷ []) m) [
            | inl old ↦ Before-snoc d p v s.result (h.ordered p d old (child, node))
            | inr now ↦ elim now [
              | inr none_left ↦ elim none_left [ ]
              | inl same ↦
                  let none_open : unvisited_deps nodes s.visited (children_of children v) ≡ 0 =
                    sym (h.degrees v k new) ∙ h.all_zero v q in
                  let seen =
                    unvisited_deps_zero nodes s.visited (children_of children v) none_open d
                      (subst (λ x. In d (children_of children x)) same child) node in
                  (
                    s.result,
                    [],
                    ap (λ x. s.result ++ x ∷ []) (sym same),
                    subst (λ xs. In d xs) h.same seen,
                  )
            ]
          ]

      -- The round of a node that is not visited yet.
      fresh-IsKahn : s.queue ≡ v ∷ rest → member v s.visited ≡ false → IsKahn s → IsKahn released
      unfolding AllZero IsReady
      fresh-IsKahn e new h =
          let inside : (q : String) → In q rest → In q s.queue =
            λ q m. subst (λ xs. In q xs) (sym e) (inr m) in
          let q = subst (λ xs. In v xs) (sym e) (inl refl) in
          let k = h.queued v q in
          let (same_visited, same_result) = release-fixed (parents nodes v children) marked in
          let outside : (p : String)
              → member p released.visited ≡ false
              → member p (s.visited ++ v ∷ []) ≡ false =
            λ p n. subst (λ xs. member p xs ≡ false) same_visited n in
          record {
            same = same_visited ∙ ap (λ xs. xs ++ v ∷ []) h.same ∙ sym same_result;
            distinct = rw same_result (
                Pairwise-snoc (λ (x y : String). x ≢ y) s.result v h.distinct
                  (All_of_In (λ x. x ≢ v) s.result
                    (λ x m same.
                      let seen =
                        (member_iff v s.visited).1 (
                          subst (λ xs. In v xs) (sym h.same) (subst (λ y. In y s.result) same m)) in
                      cc)));
            within =
                rw same_result (All-append (λ x. In x nodes) s.result (v ∷ []) h.within (k, tt));
            queued = λ x m. elim (release-In (parents nodes v children) marked x m) [
              | inl old ↦ h.queued x (inside x old)
              | inr parent ↦ parents-In nodes x v children parent
            ];
            degrees = λ p m n.
                released-degree h ((member_iff v nodes).1 k) new p m (outside p n)
                ∙ ap (λ xs. unvisited_deps nodes xs (children_of children p)) (sym same_visited);
            all_zero =
                release-AllZero (parents nodes v children) marked
                  (λ x m. h.all_zero x (inside x m));
            is_ready = λ p m n.
                release-IsReady (parents nodes v children) p marked (outside p n) (λ z.
                  elim (subst (λ xs. In p xs) e (h.is_ready p m (unmarked p (outside p n)).0 z)) [
                    | inl same ↦ absurd ((unmarked p (outside p n)).1 same)
                    | inr later ↦ later
                  ]);
            ordered = rw same_result (marked-IsOrdered h q k new);
          }

    pub visit-IsKahn :
        (v : String) (rest : List String) (s : Kahn)
        → s.queue ≡ v ∷ rest
        → IsKahn s
        → IsKahn (visit nodes children v rest s)
    unfolding visit reverse_children
    visit-IsKahn v rest s e h = elim (Bool-cases (member v s.visited)) [
      | inl old ↦ rw old (skip-IsKahn v rest s e old h)
      | inr new ↦
          let m : member v nodes ≡ true =
            (member_iff v nodes).1 (h.queued v (subst (λ xs. In v xs) (sym e) (inl refl))) in
          rw (new, m) (fresh-IsKahn v rest s e new h)
    ]

  pub start-IsKahn : IsKahn (start nodes children)
  unfolding start out_degree AllZero IsReady IsOrdered member
  start-IsKahn =
      let degree = out_degree nodes children in
      record {
        same = refl;
        distinct = tt;
        within = tt;
        queued = λ q m. (In-ready degree nodes q m).0;
        degrees = λ p m n. sym (unvisited_deps_start nodes (children_of children p));
        all_zero = λ q m. (In-ready degree nodes q m).1;
        is_ready = λ p m n z. ready-In degree nodes p m z;
        ordered = λ p d m e. elim m [ ];
      }
