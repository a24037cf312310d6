-- ===== src/Bounded/Nodes.antt =====
-- The loops over the nodes.
use sbom_graph.Prelude.{
  ℕ, ◌+◌, ◌<◌, ◌≤◌, ◌≡◌, ◌≢◌, ◌⊎◌, inl, inr, refl, sym, ap, ◌∙◌, max, true, false, Option, none,
  some, List, [], ◌∷◌, ◌++◌, map, String, eq_iff, arith, leb, ltb, subst, length, length-append, In,
  In-append_left, In-append_right, All, All-append, lt→ltb, All-map, All_of_In, Pairwise,
  Pairwise-snoc, Bool-cases, Option-cases,
}
use mathlib.Core.List.{map-append}
use sbom_graph.Members.{member, member_iff}
use sbom_graph.Bounded.{Keys, Kept, is_id, seed, start, keep_node, keep_nodes}

-- `P` of the result, if there is one.
unfoldable pub Holds {ℓ} : {A : Type ℓ} → (A → Type 0) → Option A → Type 0
Holds P none = Unit
Holds P (some a) = P a

is_id_eq : (root : String) (o : Option String) → is_id root o ≡ true → o ≡ some root
unfolding is_id
is_id_eq root none h = cc
is_id_eq root (some i) h = ap (λ x. some x) ((eq_iff i root).0 h)

not_there : (i : String) (xs : List String) → member i xs ≡ false → (x : String) → In x xs → x ≢ i
not_there i xs e x k same = let t = (member_iff i xs).1 (subst (λ y. In y xs) same k) in cc

leb_not : (a b : ℕ) → leb a b ≡ false → b < a
leb_not a b h = ground arith

some_inj : {x y : String} → some x ≡ some y → x ≡ y
some_inj e = cc

module _ {N E : Type 0} (keys : Keys N E) where
  -- What holds of the kept nodes all along: they come from `nodes`, their ids are `kept_ids`, which
  -- are distinct and at most `cap`, and the flag says whether anything was dropped.
  pub record IsKept (nodes : List N) (cap : ℕ) (s : Kept N) : Type 0 where
    pub ids : map keys.id s.kept_nodes ≡ map (λ x. some x) s.kept_ids
    pub distinct : Pairwise (λ (x y : String). x ≢ y) s.kept_ids
    pub within : length s.kept_ids ≤ cap
    pub given : All (λ n. In n nodes) s.kept_nodes
    pub flag : s.truncated ≡ ltb 0 s.dropped

  pub seed-IsKept : (root : String) (nodes : List N) → IsKept nodes 1 (seed keys root nodes)
  unfolding seed
  seed-IsKept root [] = record {
    ids = refl;
    distinct = tt;
    within = omega arith;
    given = tt;
    flag = refl;
  }
  seed-IsKept root (n ∷ nodes) = elim (Bool-cases (is_id root (keys.id n))) [
    | inl e ↦ rw e (record {
      ids = ap (λ x. x ∷ []) (is_id_eq root (keys.id n) e);
      distinct = (tt, tt);
      within = omega arith;
      given = (inl refl, tt);
      flag = refl;
    })
    | inr e ↦
        let h = seed-IsKept root nodes in
        rw e (record {
          ids = h.ids;
          distinct = h.distinct;
          within = h.within;
          given = All-map (λ x. In x nodes) (λ x. In x (n ∷ nodes)) _ (λ x m. inr m) h.given;
          flag = h.flag;
        })
  ]

  pub dropped-IsKept :
      (nodes : List N) (cap : ℕ) (s : Kept N)
      → IsKept nodes cap s
      → IsKept nodes cap (record s { truncated = true; dropped = s.dropped + 1 })
  dropped-IsKept nodes cap s h = record {
    ids = h.ids;
    distinct = h.distinct;
    within = h.within;
    given = h.given;
    flag = sym (lt→ltb 0 (s.dropped + 1) (omega arith));
  }

  keep_node-IsKept :
      (nodes : List N) (cap max_nodes : ℕ) (i : Option String) (n : N) (s : Kept N)
      → max_nodes ≤ cap
      → keys.id n ≡ i
      → In n nodes
      → IsKept nodes cap s
      → Holds (IsKept nodes cap) (keep_node keys max_nodes i n s)
  unfolding keep_node Holds
  keep_node-IsKept nodes cap max_nodes none n s le named m h =
      elim (Bool-cases (leb max_nodes (length s.kept_ids))) [
        | inl e ↦ rw e (dropped-IsKept nodes cap s h)
        | inr e ↦ rw e tt
      ]
  keep_node-IsKept nodes cap max_nodes (some i) n s le named m h =
      elim (Bool-cases (member i s.kept_ids)) [
        | inl e ↦ rw e h
        | inr e ↦ rw e (elim (Bool-cases (leb max_nodes (length s.kept_ids))) [
          | inl full ↦ rw full (dropped-IsKept nodes cap s h)
          | inr room ↦ rw room (record {
            ids =
                map-append keys.id s.kept_nodes (n ∷ [])
                ∙ ap (λ x. x ++ keys.id n ∷ []) h.ids
                ∙ ap (λ x. map (λ y. some y) s.kept_ids ++ x ∷ []) named
                ∙ sym (map-append (λ y. some y) s.kept_ids (i ∷ []));
            distinct =
                Pairwise-snoc (λ (x y : String). x ≢ y) s.kept_ids i h.distinct
                  (All_of_In (λ x. x ≢ i) s.kept_ids
                    (λ x k same. not_there i s.kept_ids e x k same));
            within =
                rw (length-append s.kept_ids (i ∷ []))
                  (omega (arith, leb_not max_nodes (length s.kept_ids) room));
            given = All-append (λ n. In n nodes) s.kept_nodes (n ∷ []) h.given (m, tt);
            flag = h.flag;
          })
        ])
      ]

  keep_nodes-IsKept :
      (nodes : List N) (cap max_nodes : ℕ) (rest : List N) (s : Kept N)
      → max_nodes ≤ cap
      → All (λ n. In n nodes) rest
      → IsKept nodes cap s
      → Holds (IsKept nodes cap) (keep_nodes keys max_nodes rest s)
  unfolding keep_nodes Holds
  keep_nodes-IsKept nodes cap max_nodes [] s le given h = h
  keep_nodes-IsKept nodes cap max_nodes (n ∷ rest) s le given h =
      let now = keep_node-IsKept nodes cap max_nodes (keys.id n) n s le refl given.0 h in
      elim (Option-cases (keep_node keys max_nodes (keys.id n) n s)) [
        | inl e ↦ rw (Holds, e) tt
        | inr (s', e) ↦
            rw (Holds, e)
              (keep_nodes-IsKept nodes cap max_nodes rest s' le given.1
                (subst (λ o. Holds (IsKept nodes cap) o) e now))
      ]

  start-IsKept :
      (root : Option String) (nodes : List N) (cap : ℕ)
      → 1 ≤ cap
      → IsKept nodes cap (start keys root nodes)
  unfolding start
  start-IsKept none nodes cap le = record {
    ids = refl;
    distinct = tt;
    within = omega arith;
    given = tt;
    flag = refl;
  }
  start-IsKept (some root) nodes cap le =
      let h = seed-IsKept root nodes in
      record {
        ids = h.ids;
        distinct = h.distinct;
        within = omega (arith, h.within);
        given = h.given;
        flag = h.flag;
      }

  -- After both loops the invariant holds, with room for the root when the limit is 0.
  pub kept-IsKept :
      (root : Option String) (nodes : List N) (max_nodes : ℕ) (s : Kept N)
      → keep_nodes keys max_nodes nodes (start keys root nodes) ≡ some s
      → IsKept nodes (max max_nodes 1) s
  unfolding Holds
  kept-IsKept root nodes max_nodes s e =
      subst (λ o. Holds (IsKept nodes (max max_nodes 1)) o) e
        (keep_nodes-IsKept nodes (max max_nodes 1) max_nodes nodes (start keys root nodes)
          (omega arith) (All_of_In (λ n. In n nodes) nodes (λ n m. m))
          (start-IsKept root nodes (max max_nodes 1) (omega arith)))

  -- From `s` to `s'` ids are only added, and droppings only counted up.
  pub record Extends (s s' : Kept N) : Type 0 where
    pub keeps : (x : String) → In x s.kept_ids → In x s'.kept_ids
    pub counts : s.dropped ≤ s'.dropped

  -- A node with an id is kept or counted as dropped.
  keep_node-some :
      (max_nodes : ℕ) (i : String) (n : N) (s : Kept N)
      → (s' : Kept N) × (keep_node keys max_nodes (some i) n s ≡ some s')
        × Extends s s'
        × (In i s'.kept_ids ⊎ (s.dropped < s'.dropped))
  unfolding keep_node
  keep_node-some max_nodes i n s = elim (Bool-cases (member i s.kept_ids)) [
    | inl e ↦ rw e (
      s,
      refl,
      record { keeps = λ x m. m; counts = omega arith },
      inl ((member_iff i s.kept_ids).0 e),
    )
    | inr e ↦ rw e (elim (Bool-cases (leb max_nodes (length s.kept_ids))) [
      | inl full ↦
          rw full (_, refl, record { keeps = λ x m. m; counts = omega arith }, inr (omega arith))
      | inr room ↦ rw room (
        _,
        refl,
        record { keeps = λ x m. In-append_left x s.kept_ids (i ∷ []) m; counts = omega arith },
        inl (In-append_right i s.kept_ids (i ∷ []) (inl refl)),
      )
    ])
  ]

  -- Nodes with ids are all walked through, and each is kept or counted as dropped.
  pub keep_nodes-some :
      (max_nodes : ℕ) (rest : List N) (s : Kept N)
      → ((n : N) → In n rest → (i : String) × (keys.id n ≡ some i))
      → (s' : Kept N) × (keep_nodes keys max_nodes rest s ≡ some s')
        × Extends s s'
        × ((n : N) (i : String)
            → In n rest
            → keys.id n ≡ some i
            → In i s'.kept_ids ⊎ (s.dropped < s'.dropped))
  unfolding keep_nodes
  keep_nodes-some max_nodes [] s named =
      (s, refl, record { keeps = λ x m. m; counts = omega arith }, λ n i m e. elim m [ ])
  keep_nodes-some max_nodes (n ∷ rest) s named =
      let (i, has) = named n (inl refl) in
      let (s', step, grows, here) = keep_node-some max_nodes i n s in
      let (t, steps, grows', there) = keep_nodes-some max_nodes rest s' (λ k m. named k (inr m)) in
      (
        t,
        ap
              (λ o. elim (keep_node keys max_nodes o n s) [
                | none ↦ none
                | some k ↦ keep_nodes keys max_nodes rest k
              ])
              has
            ∙ ap (λ o. elim o [ none ↦ none | some k ↦ keep_nodes keys max_nodes rest k ]) step
            ∙ steps,
        record {
          keeps = λ x m. grows'.keeps x (grows.keeps x m);
          counts = omega (arith, grows.counts, grows'.counts);
        },
        λ k j m e. elim m [
          | inl same ↦
              let j_is_i = some_inj (sym e ∙ ap keys.id same ∙ has) in
              elim here [
                | inl kept ↦ inl (grows'.keeps j (subst (λ x. In x s'.kept_ids) (sym j_is_i) kept))
                | inr lost ↦ inr (omega (arith, grows'.counts, lost))
              ]
          | inr later ↦ elim (there k j later e) [
            | inl kept ↦ inl kept
            | inr lost ↦ inr (omega (arith, grows.counts, lost))
          ]
        ],
      )
