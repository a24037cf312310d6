-- ===== src/Propagation/Release.antt =====
-- The inner loop: the degrees of the parents of a visited node go down, and those at 0 are queued.
use sbom_graph.Prelude.{
  ◌+◌, ◌-◌, ◌≤◌, ◌≡◌, ◌⊎◌, inl, inr, refl, sym, ap, ◌∙◌, subst, true, false, List, [], ◌∷◌, ◌++◌,
  String, ◌==◌, arith, leb, eq_iff, not_same, str_eq_self, if◌then◌else◌, length, length-append, In,
  In-append_left, In-append_right, In-append_cases, Bool-cases,
}
use sbom_graph.Members.{member}
use sbom_graph.Propagation.{Kahn, set_degree, release_one, release}
use sbom_graph.Propagation.Edges.{times}

release_one-fixed :
    (p : String) (s : Kahn)
    → ((release_one p s).visited ≡ s.visited) × ((release_one p s).result ≡ s.result)
unfolding release_one
release_one-fixed p s = ground arith

pub release-fixed :
    (ps : List String) (s : Kahn)
    → ((release ps s).visited ≡ s.visited) × ((release ps s).result ≡ s.result)
unfolding release
release-fixed [] s = (refl, refl)
release-fixed (p ∷ ps) s =
    let ih = release-fixed ps (release_one p s) in
    let one = release_one-fixed p s in (ih.0 ∙ one.0, ih.1 ∙ one.1)

release_one-degree :
    (p q : String) (s : Kahn)
    → member q s.visited ≡ false
    → (release_one p s).degree q ≡ s.degree q - (if p == q then 1 else 0)
unfolding release_one set_degree
release_one-degree p q s n = elim (Bool-cases (p == q)) [
  | inl e ↦
      let same = (eq_iff p q).0 e in
      let out : member p s.visited ≡ false = rw same n in
      let back : (q == p) ≡ true = (eq_iff q p).1 (sym same) in
      rw (e, out, back) (omega (arith, ap s.degree same))
  | inr e ↦
      let back : (q == p) ≡ false =
        not_same q p (λ h. let k : (p == q) ≡ true = (eq_iff p q).1 (sym h) in cc) in
      elim (Bool-cases (member p s.visited)) [
        | inl v ↦ rw (e, v) (omega arith)
        | inr v ↦ rw (e, v, back) (omega arith)
      ]
]

-- The degree of a node that is not visited goes down once for each time it stands among the parents.
pub release-degree :
    (ps : List String) (q : String) (s : Kahn)
    → member q s.visited ≡ false
    → (release ps s).degree q ≡ s.degree q - times q ps
unfolding release times
release-degree [] q s n = omega arith
release-degree (p ∷ ps) q s n =
    let n' : member q (release_one p s).visited ≡ false = rw (release_one-fixed p s).0 n in
    ground (arith, release-degree ps q (release_one p s) n', release_one-degree p q s n)

-- One round queues at most the parent, whose degree is 0 then.
release_one-queue :
    (p : String) (s : Kahn)
    → ((release_one p s).queue ≡ s.queue)
      ⊎ (((release_one p s).queue ≡ s.queue ++ p ∷ []) × ((release_one p s).degree p ≡ 0))
unfolding release_one set_degree
release_one-queue p s = elim (Bool-cases (member p s.visited)) [
  | inl v ↦ inl (rw v refl)
  | inr v ↦ elim (Bool-cases (leb (s.degree p - 1) 0)) [
    | inl z ↦ inr (rw (v, z) refl, rw (v, str_eq_self p) (ground arith))
    | inr z ↦ inl (rw (v, z) refl)
  ]
]

release_one-le : (p q : String) (s : Kahn) → (release_one p s).degree q ≤ s.degree q
unfolding release_one set_degree
release_one-le p q s = elim (Bool-cases (member p s.visited)) [
  | inl v ↦ rw v (omega arith)
  | inr v ↦ elim (Bool-cases (q == p)) [
    | inl e ↦ rw (v, e) (omega (arith, ap s.degree ((eq_iff q p).0 e)))
    | inr e ↦ rw (v, e) (omega arith)
  ]
]

-- All that is queued has degree 0.
unfoldable pub AllZero : Kahn → Type 0
AllZero s = (q : String) → In q s.queue → s.degree q ≡ 0

release_one-AllZero : (p : String) (s : Kahn) → AllZero s → AllZero (release_one p s)
unfolding AllZero
release_one-AllZero p s h q m = elim (release_one-queue p s) [
  | inl e ↦ omega (arith, release_one-le p q s, h q (subst (λ xs. In q xs) e m))
  | inr (e, z) ↦ elim (In-append_cases q s.queue (p ∷ []) (subst (λ xs. In q xs) e m)) [
    | inl old ↦ omega (arith, release_one-le p q s, h q old)
    | inr new ↦ elim new [
      | inl same ↦ ap (release_one p s).degree same ∙ z
      | inr none_left ↦ elim none_left [ ]
    ]
  ]
]

pub release-AllZero : (ps : List String) (s : Kahn) → AllZero s → AllZero (release ps s)
unfolding release
release-AllZero [] s h = h
release-AllZero (p ∷ ps) s h = release-AllZero ps (release_one p s) (release_one-AllZero p s h)

-- What is queued comes from the queue or the parents.
pub release-In :
    (ps : List String) (s : Kahn) (q : String) → In q (release ps s).queue → In q s.queue ⊎ In q ps
unfolding release
release-In [] s q m = inl m
release-In (p ∷ ps) s q m = elim (release-In ps (release_one p s) q m) [
  | inr later ↦ inr (inr later)
  | inl m' ↦ elim (release_one-queue p s) [
    | inl e ↦ inl (subst (λ xs. In q xs) e m')
    | inr (e, z) ↦ elim (In-append_cases q s.queue (p ∷ []) (subst (λ xs. In q xs) e m')) [
      | inl old ↦ inl old
      | inr new ↦ elim new [ inl same ↦ inr (inl same) | inr none_left ↦ elim none_left [ ] ]
    ]
  ]
]

-- A node of degree 0 is queued, unless it is visited.
unfoldable pub IsReady : String → Kahn → Type 0
IsReady q s = s.degree q ≡ 0 → In q s.queue

release_one-keeps : (p q : String) (s : Kahn) → In q s.queue → In q (release_one p s).queue
release_one-keeps p q s m = elim (release_one-queue p s) [
  | inl e ↦ subst (λ xs. In q xs) (sym e) m
  | inr (e, z) ↦ subst (λ xs. In q xs) (sym e) (In-append_left q s.queue (p ∷ []) m)
]

release_one-IsReady :
    (p q : String) (s : Kahn)
    → member q s.visited ≡ false
    → IsReady q s
    → IsReady q (release_one p s)
unfolding IsReady release_one
release_one-IsReady p q s n h z = elim (Bool-cases (p == q)) [
  | inr e ↦ release_one-keeps p q s (h (omega (arith, z, (rw e at (release_one-degree p q s n)))))
  | inl e ↦
      let same = (eq_iff p q).0 e in
      let out : member p s.visited ≡ false = rw same n in
      let left : s.degree p - 1 ≡ 0 =
        omega (arith, z, ap s.degree same, (rw e at (release_one-degree p q s n))) in
      let now : leb (s.degree p - 1) 0 ≡ true = rw left refl in
      rw (release_one, out, now) (In-append_right q s.queue (p ∷ []) (inl (sym same)))
]

pub release-IsReady :
    (ps : List String) (q : String) (s : Kahn)
    → member q s.visited ≡ false
    → IsReady q s
    → IsReady q (release ps s)
unfolding release
release-IsReady [] q s n h = h
release-IsReady (p ∷ ps) q s n h =
    release-IsReady ps q (release_one p s) (rw (release_one-fixed p s).0 n)
      (release_one-IsReady p q s n h)

pub length-release :
    (ps : List String) (s : Kahn) → length (release ps s).queue ≤ length s.queue + length ps
unfolding release
length-release [] s = omega arith
length-release (p ∷ ps) s =
    let ih = length-release ps (release_one p s) in
    elim (release_one-queue p s) [
      | inl e ↦ omega (arith, ih, ap (λ xs. length xs) e)
      | inr (e, z) ↦ omega (arith, ih, ap (λ xs. length xs) e, length-append s.queue (p ∷ []))
    ]
