-- ===== src/PatchPlan/Contacts.antt =====
-- What a plan of patches lists.
use sbom_graph.Prelude.{
  ◌≤◌, ℕ, ◌≡◌, ◌≢◌, ◌⊎◌, inl, inr, refl, sym, ap, ◌∙◌, subst, false, Option, none, some, List, [],
  ◌∷◌, ◌++◌, String, ◌==◌, arith, length, length-append, map, In, In-append_left, In-append_right,
  In-append_cases, In-map, All, All-map, All-In, Pairwise, Bool-cases, eq_iff,
}
use sbom_graph.Members.{member, member_iff}
use sbom_graph.BlastRadius.{or_empty}
use sbom_graph.PatchPlan.{
  Contact, ContactRow, DefectRow, VersionRow, AffectedPackage, PatchScan, PatchFrontier,
  PatchPlanResult, package_of_row, add_to, add_affected, add_all_affected, frontier_of,
  patch_levels, count_packages, unique_contacts, compute_patch_plan,
}
use sbom_graph.PatchPlan.Scans.{
  contacts_of, packages_in, purl_list, packages_in-append, packages_in-frontier_of,
  contacts_of-append, add_all_affected-contacts, patch_levels-IsFound, patch_levels-level,
  frontier_of-first,
}

abbrev pub emails : List Contact → List String
emails cs = map (λ c. c.email) cs

member-snoc_other :
    (x y : String) (xs : List String)
    → member x (xs ++ y ∷ []) ≡ false
    → (member x xs ≡ false) × (y ≢ x)
member-snoc_other x y xs h = (
  elim (Bool-cases (member x xs)) [
    | inl e ↦ absurd (
        let k =
          (member_iff x (xs ++ y ∷ [])).1 (In-append_left x xs (y ∷ []) ((member_iff x xs).0 e)) in
        cc)
    | inr e ↦ e
  ],
  λ same.
      let k = (member_iff x (xs ++ y ∷ [])).1 (In-append_right x xs (y ∷ []) (inl (sym same))) in
      cc,
)

unique_contacts-fresh :
    (seen : List String) (cs : List Contact)
    → All (λ x. member x seen ≡ false) (emails (unique_contacts seen cs))
unfolding unique_contacts
unique_contacts-fresh seen [] = tt
unique_contacts-fresh seen (c ∷ cs) = elim (Bool-cases (member c.email seen)) [
  | inl e ↦ rw e (unique_contacts-fresh seen cs)
  | inr e ↦ rw e (
    e,
    All-map (λ x. member x (seen ++ c.email ∷ []) ≡ false) (λ x. member x seen ≡ false)
        (emails (unique_contacts (seen ++ c.email ∷ []) cs))
        (λ x h. (member-snoc_other x c.email seen h).0)
        (unique_contacts-fresh (seen ++ c.email ∷ []) cs),
  )
]

unique_contacts-distinct :
    (seen : List String) (cs : List Contact)
    → Pairwise (λ (x y : String). x ≢ y) (emails (unique_contacts seen cs))
unfolding unique_contacts
unique_contacts-distinct seen [] = tt
unique_contacts-distinct seen (c ∷ cs) = elim (Bool-cases (member c.email seen)) [
  | inl e ↦ rw e (unique_contacts-distinct seen cs)
  | inr e ↦ rw e (
    All-map (λ x. member x (seen ++ c.email ∷ []) ≡ false) (λ x. c.email ≢ x)
        (emails (unique_contacts (seen ++ c.email ∷ []) cs))
        (λ x h. (member-snoc_other x c.email seen h).1)
        (unique_contacts-fresh (seen ++ c.email ∷ []) cs),
    unique_contacts-distinct (seen ++ c.email ∷ []) cs,
  )
]

In-unique_contacts :
    (seen : List String) (cs : List Contact) (c : Contact)
    → In c (unique_contacts seen cs)
    → In c cs
unfolding unique_contacts
In-unique_contacts seen [] c m = elim m [ ]
In-unique_contacts seen (d ∷ cs) c m = elim (Bool-cases (member d.email seen)) [
  | inl e ↦ inr (In-unique_contacts seen cs c (rw e at m))
  | inr e ↦ elim (rw e at m) [
    | inl same ↦ inl same
    | inr later ↦ inr (In-unique_contacts (seen ++ d.email ∷ []) cs c later)
  ]
]

unique_contacts_all :
    (seen : List String) (cs : List Contact) (c : Contact)
    → In c cs
    → In c.email seen ⊎ In c.email (emails (unique_contacts seen cs))
unfolding unique_contacts
unique_contacts_all seen [] c m = elim m [ ]
unique_contacts_all seen (d ∷ cs) c m = elim (Bool-cases (member d.email seen)) [
  | inl e ↦ rw e (elim m [
    | inl same ↦ inl (
        subst (λ x. In x seen) (sym (ap (λ (k : Contact). k.email) same))
          ((member_iff d.email seen).0 e))
    | inr later ↦ unique_contacts_all seen cs c later
  ])
  | inr e ↦ rw e (elim m [
    | inl same ↦ inr (inl (ap (λ (k : Contact). k.email) same))
    | inr later ↦ elim (unique_contacts_all (seen ++ d.email ∷ []) cs c later) [
      | inr found ↦ inr (inr found)
      | inl old ↦ elim (In-append_cases c.email seen (d.email ∷ []) old) [
        | inl before ↦ inl before
        | inr now ↦ elim now [ inl same ↦ inr (inl same) | inr nothing ↦ elim nothing [ ] ]
      ]
    ]
  ])
]

In-contacts_of :
    (ps : List AffectedPackage) (c : Contact)
    → In c (contacts_of ps)
    → (p : AffectedPackage) × In p ps × In c p.contacts
unfolding contacts_of
In-contacts_of [] c m = elim m [ ]
In-contacts_of (p ∷ ps) c m = elim (In-append_cases c p.contacts (contacts_of ps) m) [
  | inl here ↦ (p, inl refl, here)
  | inr later ↦ let (q, n, k) = In-contacts_of ps c later in (q, inr n, k)
]

contacts_of-In :
    (ps : List AffectedPackage) (p : AffectedPackage) (c : Contact)
    → In p ps
    → In c p.contacts
    → In c (contacts_of ps)
unfolding contacts_of
contacts_of-In [] p c m k = elim m [ ]
contacts_of-In (q ∷ ps) p c (inl same) k =
    In-append_left c q.contacts (contacts_of ps)
      (subst (λ (x : AffectedPackage). In c x.contacts) same k)
contacts_of-In (q ∷ ps) p c (inr m) k =
    In-append_right c q.contacts (contacts_of ps) (contacts_of-In ps p c m k)

count_packages_lem : (fs : List PatchFrontier) → count_packages fs ≡ length (packages_in fs)
unfolding count_packages packages_in
count_packages_lem [] = refl
count_packages_lem (f ∷ fs) =
    omega (arith, count_packages_lem fs, length-append f.packages (packages_in fs))

-- A plan: the total is that of the packages; each contact is that of a package; the addresses of the
-- contacts are all those of the packages' contacts, each once; and no package of a later level stands
-- there twice, or, if it has a purl, in level 0.
pub record IsPlan (plan : PatchPlanResult) : Type 0 where
  total : plan.total_affected ≡ length (packages_in plan.frontiers)
  once : Pairwise (λ (x y : String). x ≢ y) (emails plan.contacts)
  from_package :
      (c : Contact)
      → In c plan.contacts
      → (p : AffectedPackage) × In p (packages_in plan.frontiers) × In c p.contacts
  reached :
      (p : AffectedPackage) (c : Contact)
      → In p (packages_in plan.frontiers)
      → In c p.contacts
      → In c.email (emails plan.contacts)
  later :
      (first : List PatchFrontier) × (rest : List PatchFrontier) × (plan.frontiers ≡ first ++ rest)
      × All (λ f. f.level ≡ 0) first
      × All (λ f. 1 ≤ f.level) rest
      × Pairwise (λ (x y : String). x ≢ y) (purl_list (packages_in rest))
      × ((p q : AffectedPackage)
          → In p (packages_in first)
          → In q (packages_in rest)
          → (p.purl ≡ "") ⊎ (p.purl ≢ q.purl))

-- The purls of level 0 are visited.
Marked : PatchScan → Type 0
Marked s = (p : AffectedPackage) → In p s.packages → (p.purl ≡ "") ⊎ In p.purl s.visited_purls

In-add_to : (x y : String) (s : List String) → In x s → In x (add_to y s)
unfolding add_to
In-add_to x y s m = elim (Bool-cases (member y s)) [
  | inl e ↦ rw e m
  | inr e ↦ rw e (In-append_left x s (y ∷ []) m)
]

add_to_here : (y : String) (s : List String) → In y (add_to y s)
unfolding add_to
add_to_here y s = elim (Bool-cases (member y s)) [
  | inl e ↦ rw e ((member_iff y s).0 e)
  | inr e ↦ rw e (In-append_right y s (y ∷ []) (inl refl))
]

module _ (contact_rows : String → List ContactRow) where
  add_affected-Marked :
      (row : VersionRow) (s : PatchScan) → Marked s → Marked (add_affected contact_rows row s)
  unfolding add_affected package_of_row Marked
  add_affected-Marked row s h p = elim (Bool-cases (or_empty row.purl == "")) [
    | inl e ↦ rw e (λ m. elim (In-append_cases p s.packages _ m) [
      | inl old ↦ h p old
      | inr new ↦ elim new [
        | inl same ↦
            inl (ap (λ (x : AffectedPackage). x.purl) same ∙ (eq_iff (or_empty row.purl) "").0 e)
        | inr nothing ↦ elim nothing [ ]
      ]
    ])
    | inr e ↦ rw e (λ m. elim (In-append_cases p s.packages _ m) [
      | inl old ↦ elim (h p old) [
        | inl blank ↦ inl blank
        | inr seen ↦ inr (In-add_to p.purl (or_empty row.purl) s.visited_purls seen)
      ]
      | inr new ↦ elim new [
        | inl same ↦ inr (
            subst (λ x. In x (add_to (or_empty row.purl) s.visited_purls))
              (sym (ap (λ (x : AffectedPackage). x.purl) same))
              (add_to_here (or_empty row.purl) s.visited_purls))
        | inr nothing ↦ elim nothing [ ]
      ]
    ])
  ]

  add_all_affected-Marked :
      (rows : List VersionRow) (s : PatchScan)
      → Marked s
      → Marked (add_all_affected contact_rows rows s)
  unfolding add_all_affected
  add_all_affected-Marked [] s h = h
  add_all_affected-Marked (row ∷ rows) s h =
      add_all_affected-Marked rows _ (add_affected-Marked row s h)

  module _ (dependants : List String → List VersionRow) where
    -- Whatever the database answers, `compute_patch_plan` gives a plan in which the total is the number
    -- of packages, the contacts are contacts of packages, with each address of these just once, and a
    -- package of level 1 or later stands there once, and not in level 0.
    pub compute_patch_plan-IsPlan :
        (defect : Option DefectRow) (affected : List VersionRow) (max_depth : ℕ)
        → IsPlan (compute_patch_plan contact_rows dependants defect affected max_depth)
    unfolding compute_patch_plan unique_contacts packages_in contacts_of Marked
    compute_patch_plan-IsPlan none affected max_depth = record {
      total = refl;
      once = tt;
      from_package = λ c m. elim m [ ];
      reached = λ p c m k. elim m [ ];
      later = ([], [], refl, tt, tt, tt, λ p q m k. elim m [ ]);
    }
    compute_patch_plan-IsPlan (some row) affected max_depth =
        let start : PatchScan = record {
          visited_purls = [];
          next_purls = [];
          gathered = [];
          packages = [];
        } in
        let scan = add_all_affected contact_rows affected start in
        let found =
          patch_levels contact_rows dependants max_depth 1 scan.visited_purls scan.next_purls in
        let first = add_all_affected-contacts contact_rows affected start refl in
        let marked = add_all_affected-Marked affected start (λ p m. elim m [ ]) in
        let later =
          patch_levels-IsFound contact_rows dependants max_depth 1 scan.visited_purls
            scan.next_purls in
        let whole =
          packages_in-append (frontier_of 0 scan.packages) found.0
          ∙ ap (λ ps. ps ++ packages_in found.0) (packages_in-frontier_of 0 scan.packages) in
        let gathered : scan.gathered ++ found.1
            ≡ contacts_of (packages_in (frontier_of 0 scan.packages ++ found.0)) =
          ap (λ cs. cs ++ found.1) first
          ∙ ap (λ cs. contacts_of scan.packages ++ cs) later.same
          ∙ sym (contacts_of-append scan.packages (packages_in found.0))
          ∙ ap contacts_of (sym whole) in
        record {
          total = count_packages_lem (frontier_of 0 scan.packages ++ found.0);
          once = unique_contacts-distinct [] (scan.gathered ++ found.1);
          from_package = λ c m.
              In-contacts_of (packages_in (frontier_of 0 scan.packages ++ found.0)) c (
                subst (λ cs. In c cs) gathered
                  (In-unique_contacts [] (scan.gathered ++ found.1) c m));
          reached = λ p c m k.
              elim (unique_contacts_all [] (scan.gathered ++ found.1) c (
                subst (λ cs. In c cs) (sym gathered)
                  (contacts_of-In (packages_in (frontier_of 0 scan.packages ++ found.0)) p c m
                    k))) [ inl nothing ↦ elim nothing [ ] | inr there ↦ there ];
          later = (
            frontier_of 0 scan.packages,
            found.0,
            refl,
            frontier_of-first scan.packages,
            patch_levels-level contact_rows dependants max_depth 1 scan.visited_purls
                scan.next_purls,
            later.distinct,
            λ p q m k.
                elim (marked p
                  (subst (λ ps. In p ps) (packages_in-frontier_of 0 scan.packages) m)) [
                    | inl blank ↦ inl blank
                    | inr seen ↦ inr (λ same.
                        let unseen =
                          All-In (λ x. member x scan.visited_purls ≡ false) q.purl
                            (purl_list (packages_in found.0)) later.fresh
                            (In-map (λ (x : AffectedPackage). x.purl) q (packages_in found.0) k) in
                        let there =
                          (member_iff q.purl scan.visited_purls).1
                            (subst (λ x. In x scan.visited_purls) same seen) in
                        cc)
                  ],
          );
        }
