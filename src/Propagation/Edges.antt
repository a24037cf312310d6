-- ===== src/Propagation/Edges.antt =====
-- The degrees of the sort as counts of the edges to nodes that are not visited yet.
use sbom_graph.Prelude.{
  ℕ, ◌+◌, ◌≤◌, ◌≡◌, ◌≢◌, inl, inr, refl, sym, subst, true, false, ◌&&◌, ◌||◌, not, List, [], ◌∷◌,
  ◌++◌, String, ◌==◌, arith, eq_iff, if◌then◌else◌, length, length-append, In, In-append_cases, All,
  Pairwise, Bool-cases, not_same,
}
use sbom_graph.Members.{member, member_iff}
use sbom_graph.Dict.{Dict, lookup, key_list}
use sbom_graph.Propagation.{children_of, repeat_for, parents, count_in, edge_count}

-- How often `node` stands in the list.
unfoldable pub times : String → List String → ℕ
times node [] = 0
times node (x ∷ xs) = let rest = times node xs in if x == node then rest + 1 else rest

-- How many of the dependencies are nodes that are not visited.
unfoldable pub unvisited_deps : List String → List String → List String → ℕ
unvisited_deps nodes visited [] = 0
unvisited_deps nodes visited (dep ∷ deps) =
    let rest = unvisited_deps nodes visited deps in
    if member dep nodes && not (member dep visited) then rest + 1 else rest

pub member-snoc :
    (x v : String) (xs : List String) → member x (xs ++ v ∷ []) ≡ (member x xs || x == v)
unfolding member
member-snoc x v [] = ground arith
member-snoc x v (y ∷ xs) = ground (arith, member-snoc x v xs)

pub times-append : (v : String) (xs ys : List String) → times v (xs ++ ys) ≡ times v xs + times v ys
unfolding times
times-append v [] ys = omega arith
times-append v (x ∷ xs) ys = ground (arith, times-append v xs ys)

-- Visiting `v` takes away as many dependencies as are `v`.
pub unvisited_deps-snoc :
    (nodes visited : List String) (v : String) (deps : List String)
    → member v nodes ≡ true
    → member v visited ≡ false
    → unvisited_deps nodes (visited ++ v ∷ []) deps + times v deps
      ≡ unvisited_deps nodes visited deps
unfolding unvisited_deps times
unvisited_deps-snoc nodes visited v [] m n = omega arith
unvisited_deps-snoc nodes visited v (dep ∷ deps) m n =
    let ih = unvisited_deps-snoc nodes visited v deps m n in
    elim (Bool-cases (dep == v)) [
      | inl e ↦
          let same = (eq_iff dep v).0 e in
          let m' : member dep nodes ≡ true = rw same m in
          let n' : member dep visited ≡ false = rw same n in
          rw (member-snoc dep v visited, e, m', n') (omega (arith, ih))
      | inr e ↦ rw (member-snoc dep v visited, e) (ground (arith, ih))
    ]

pub unvisited_deps_zero :
    (nodes visited deps : List String)
    → unvisited_deps nodes visited deps ≡ 0
    → (d : String) → In d deps
    → In d nodes
    → In d visited
unfolding unvisited_deps
unvisited_deps_zero nodes visited [] z d m n = elim m [ ]
unvisited_deps_zero nodes visited (dep ∷ deps) z d m n = elim (Bool-cases (member dep nodes)) [
  | inr e ↦ elim m [
    | inl same ↦
        absurd
          (let h = (member_iff d nodes).1 n in let k : member d nodes ≡ false = rw same e in cc)
    | inr later ↦ unvisited_deps_zero nodes visited deps (rw e at z) d later n
  ]
  | inl e ↦ elim (Bool-cases (member dep visited)) [
    | inl f ↦ elim m [
      | inl same ↦ (member_iff d visited).0 (rw same f)
      | inr later ↦ unvisited_deps_zero nodes visited deps (rw (e, f) at z) d later n
    ]
    | inr f ↦ absurd (omega (arith, rw (e, f) at z))
  ]
]

pub unvisited_deps_start :
    (nodes deps : List String) → unvisited_deps nodes [] deps ≡ count_in nodes deps
unfolding unvisited_deps count_in member
unvisited_deps_start nodes [] = refl
unvisited_deps_start nodes (dep ∷ deps) = ground (arith, unvisited_deps_start nodes deps)

pub unvisited_deps_le :
    (nodes visited deps : List String) → unvisited_deps nodes visited deps ≤ length deps
unfolding unvisited_deps
unvisited_deps_le nodes visited [] = omega arith
unvisited_deps_le nodes visited (dep ∷ deps) = ground (arith, unvisited_deps_le nodes visited deps)

times-repeat_for :
    (p v q : String) (deps : List String)
    → times p (repeat_for v q deps) ≡ (if q == p then times v deps else 0)
unfolding times repeat_for
times-repeat_for p v q [] = ground arith
times-repeat_for p v q (dep ∷ deps) = ground (arith, times-repeat_for p v q deps)

length-repeat_for :
    (v q : String) (deps : List String) → length (repeat_for v q deps) ≡ times v deps
unfolding times repeat_for
length-repeat_for v q [] = refl
length-repeat_for v q (dep ∷ deps) = ground (arith, length-repeat_for v q deps)

-- A node that is no key is no parent.
times-parents_absent :
    (nodes : List String) (p v : String) (children : Dict (List String))
    → All (λ k. p ≢ k) (key_list children)
    → times p (parents nodes v children) ≡ 0
unfolding parents times key_list
times-parents_absent nodes p v [] h = refl
times-parents_absent nodes p v ((q, deps) ∷ children) h =
    let ih = times-parents_absent nodes p v children h.1 in
    elim (Bool-cases (member q nodes)) [
      | inr e ↦ rw e ih
      | inl e ↦ rw e (
          omega (
            arith,
            ih,
            times-append p (repeat_for v q deps) (parents nodes v children),
            (rw (not_same q p (λ e. h.0 (sym e))) at (times-repeat_for p v q deps)),
          ))
    ]

-- A node stands among the parents of `v` as often as `v` among its dependencies.
pub times-parents :
    (nodes : List String) (p v : String) (children : Dict (List String))
    → Pairwise (λ (j k : String). j ≢ k) (key_list children)
    → member p nodes ≡ true
    → times p (parents nodes v children) ≡ times v (children_of children p)
unfolding parents times key_list children_of lookup
times-parents nodes p v [] h m = refl
times-parents nodes p v ((q, deps) ∷ children) h m = elim (Bool-cases (q == p)) [
  | inl e ↦
      let same = (eq_iff q p).0 e in
      let m' : member q nodes ≡ true = rw same m in
      let none_later =
        times-parents_absent nodes p v children
          (subst (λ x. All (λ k. x ≢ k) (key_list children)) same h.0) in
      rw (m', children_of, e)
        (omega (
          arith,
          none_later,
          times-append p (repeat_for v q deps) (parents nodes v children),
          (rw e at (times-repeat_for p v q deps)),
        ))
  | inr e ↦
      let ih = times-parents nodes p v children h.1 m in
      elim (Bool-cases (member q nodes)) [
        | inr f ↦ rw (f, children_of, e) ih
        | inl f ↦
            rw (f, children_of, e)
              (omega (
                arith,
                ih,
                times-append p (repeat_for v q deps) (parents nodes v children),
                (rw e at (times-repeat_for p v q deps)),
              ))
      ]
]

-- The edges to nodes that are not visited, which the rounds use up.
unfoldable pub pending : List String → List String → Dict (List String) → ℕ
unfolding unvisited_deps
pending nodes visited [] = 0
pending nodes visited ((parent, deps) ∷ children) =
    let rest = pending nodes visited children in
    if member parent nodes then unvisited_deps nodes visited deps + rest else rest

pub pending-snoc :
    (nodes visited : List String) (v : String) (children : Dict (List String))
    → member v nodes ≡ true
    → member v visited ≡ false
    → pending nodes (visited ++ v ∷ []) children + length (parents nodes v children)
      ≡ pending nodes visited children
unfolding pending parents
pending-snoc nodes visited v [] m n = refl
pending-snoc nodes visited v ((q, deps) ∷ children) m n =
    let ih = pending-snoc nodes visited v children m n in
    elim (Bool-cases (member q nodes)) [
      | inr e ↦ rw e ih
      | inl e ↦ rw e (
          omega (
            arith,
            ih,
            unvisited_deps-snoc nodes visited v deps m n,
            length-append (repeat_for v q deps) (parents nodes v children),
            length-repeat_for v q deps,
          ))
    ]

pub pending-le :
    (nodes visited : List String) (children : Dict (List String))
    → pending nodes visited children ≤ edge_count children
unfolding pending edge_count
pending-le nodes visited [] = omega arith
pending-le nodes visited ((q, deps) ∷ children) =
    ground (arith, pending-le nodes visited children, unvisited_deps_le nodes visited deps)

In-repeat_for : (x v q : String) (deps : List String) → In x (repeat_for v q deps) → x ≡ q
unfolding repeat_for
In-repeat_for x v q [] m = elim m [ ]
In-repeat_for x v q (dep ∷ deps) m = elim (Bool-cases (dep == v)) [
  | inl e ↦ elim (rw e at m) [ inl same ↦ same | inr later ↦ In-repeat_for x v q deps later ]
  | inr e ↦ In-repeat_for x v q deps (rw e at m)
]

pub parents-In :
    (nodes : List String) (x v : String) (children : Dict (List String))
    → In x (parents nodes v children)
    → In x nodes
unfolding parents
parents-In nodes x v [] m = elim m [ ]
parents-In nodes x v ((q, deps) ∷ children) m = elim (Bool-cases (member q nodes)) [
  | inr e ↦ parents-In nodes x v children (rw e at m)
  | inl e ↦ elim (In-append_cases x (repeat_for v q deps) (parents nodes v children) (rw e at m)) [
    | inl here ↦ (member_iff x nodes).0 (rw (In-repeat_for x v q deps here) e)
    | inr later ↦ parents-In nodes x v children later
  ]
]
