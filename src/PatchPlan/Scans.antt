-- ===== src/PatchPlan/Scans.antt =====
-- What the loops over the rows of a level keep.
use sbom_graph.Prelude.{
  ◌≤◌, arith, All-map, ℕ, zero, suc, ◌+◌, ◌≡◌, ◌≢◌, inl, inr, refl, sym, ap, ◌∙◌, subst, false,
  List, [], ◌∷◌, ◌++◌, String, ◌==◌, leb, length, map, In, In-append_left, In-append_right, All,
  All-append, All_of_In, All-In, Pairwise, Pairwise-snoc, Bool-cases,
}
use mathlib.Core.List.{append_assoc, append-nil}
use sbom_graph.Members.{member, member_iff, not-member}
use sbom_graph.BlastRadius.{or_empty}
use sbom_graph.PatchPlan.{
  Contact, ContactRow, VersionRow, AffectedPackage, PatchScan, PatchFrontier, package_of_row,
  add_to, get_contacts_for_purl, add_affected, add_all_affected, add_dependant, add_dependants,
  frontier_of, patch_levels,
}

-- The contacts of packages and of frontiers, in their order, and the purls.
unfoldable pub contacts_of : List AffectedPackage → List Contact
contacts_of [] = []
contacts_of (p ∷ ps) = p.contacts ++ contacts_of ps

unfoldable pub packages_in : List PatchFrontier → List AffectedPackage
packages_in [] = []
packages_in (f ∷ fs) = f.packages ++ packages_in fs

abbrev pub purl_list : List AffectedPackage → List String
purl_list ps = map (λ p. p.purl) ps

pub contacts_of-append :
    (ps qs : List AffectedPackage) → contacts_of (ps ++ qs) ≡ contacts_of ps ++ contacts_of qs
unfolding contacts_of
contacts_of-append [] qs = refl
contacts_of-append (p ∷ ps) qs =
    ap (λ cs. p.contacts ++ cs) (contacts_of-append ps qs)
    ∙ sym (append_assoc p.contacts (contacts_of ps) (contacts_of qs))

contacts_of-snoc :
    (ps : List AffectedPackage) (p : AffectedPackage)
    → contacts_of (ps ++ p ∷ []) ≡ contacts_of ps ++ p.contacts
unfolding contacts_of
contacts_of-snoc ps p =
    contacts_of-append ps (p ∷ []) ∙ ap (λ cs. contacts_of ps ++ cs) (append-nil p.contacts)

purl_list-append :
    (ps qs : List AffectedPackage) → purl_list (ps ++ qs) ≡ purl_list ps ++ purl_list qs
purl_list-append [] qs = refl
purl_list-append (p ∷ ps) qs = ap (λ xs. p.purl ∷ xs) (purl_list-append ps qs)

pub packages_in-append :
    (fs gs : List PatchFrontier) → packages_in (fs ++ gs) ≡ packages_in fs ++ packages_in gs
unfolding packages_in
packages_in-append [] gs = refl
packages_in-append (f ∷ fs) gs =
    ap (λ ps. f.packages ++ ps) (packages_in-append fs gs)
    ∙ sym (append_assoc f.packages (packages_in fs) (packages_in gs))

pub packages_in-frontier_of :
    (level : ℕ) (ps : List AffectedPackage) → packages_in (frontier_of level ps) ≡ ps
unfolding packages_in frontier_of
packages_in-frontier_of level [] = refl
packages_in-frontier_of level (p ∷ ps) = append-nil (p ∷ ps)

frontier_of-level :
    (low level : ℕ) (ps : List AffectedPackage)
    → low ≤ level
    → All (λ f. low ≤ f.level) (frontier_of level ps)
unfolding frontier_of
frontier_of-level low level [] h = tt
frontier_of-level low level (p ∷ ps) h = (h, tt)

pub frontier_of-first : (ps : List AffectedPackage) → All (λ f. f.level ≡ 0) (frontier_of 0 ps)
unfolding frontier_of
frontier_of-first [] = tt
frontier_of-first (p ∷ ps) = (refl, tt)

-- What is not among the visited is neither old nor new.
absent :
    (x : String) (visited before new : List String)
    → visited ≡ before ++ new
    → member x visited ≡ false
    → (member x before ≡ false) × All (λ y. y ≢ x) new
absent x visited before new e f = (
  not-member x before (λ m.
      let k =
        (member_iff x visited).1 (subst (λ xs. In x xs) (sym e) (In-append_left x before new m)) in
      cc),
  All_of_In (λ y. y ≢ x) new
      (λ y m same.
        let there = In-append_right x before new (subst (λ z. In z new) same m) in
        let k = (member_iff x visited).1 (subst (λ xs. In x xs) (sym e) there) in cc),
)

Pairwise-append :
    (xs ys : List String)
    → Pairwise (λ (x y : String). x ≢ y) xs
    → Pairwise (λ (x y : String). x ≢ y) ys
    → ((x y : String) → In x xs → In y ys → x ≢ y)
    → Pairwise (λ (x y : String). x ≢ y) (xs ++ ys)
Pairwise-append [] ys h k f = k
Pairwise-append (x ∷ xs) ys h k f = (
  All-append (λ y. x ≢ y) xs ys h.0 (All_of_In (λ y. x ≢ y) ys (λ y m. f x y (inl refl) m)),
  Pairwise-append xs ys h.1 k (λ a b m n. f a b (inr m) n),
)

module _ (contact_rows : String → List ContactRow) where
  -- The contacts gathered are those of the packages.
  add_affected-contacts :
      (row : VersionRow) (s : PatchScan)
      → s.gathered ≡ contacts_of s.packages
      → (add_affected contact_rows row s).gathered
        ≡ contacts_of (add_affected contact_rows row s).packages
  unfolding add_affected package_of_row
  add_affected-contacts row s h = elim (Bool-cases (or_empty row.purl == "")) [
    | inl e ↦ rw e (
        h
        ∙ sym (append-nil (contacts_of s.packages))
        ∙ sym (contacts_of-snoc s.packages (package_of_row row [])))
    | inr e ↦ rw e (
        ap (λ cs. cs ++ get_contacts_for_purl contact_rows (or_empty row.purl)) h
        ∙ sym (
            contacts_of-snoc s.packages
              (package_of_row row (get_contacts_for_purl contact_rows (or_empty row.purl)))))
  ]

  pub add_all_affected-contacts :
      (rows : List VersionRow) (s : PatchScan)
      → s.gathered ≡ contacts_of s.packages
      → (add_all_affected contact_rows rows s).gathered
        ≡ contacts_of (add_all_affected contact_rows rows s).packages
  unfolding add_all_affected
  add_all_affected-contacts [] s h = h
  add_all_affected-contacts (row ∷ rows) s h =
      add_all_affected-contacts rows _ (add_affected-contacts row s h)

  -- What holds while the rows of a later level are read, `before` being what was visited before.
  pub record IsPatchScan (before : List String) (s : PatchScan) : Type 0 where
    pub contacts : s.gathered ≡ contacts_of s.packages
    pub visited : s.visited_purls ≡ before ++ purl_list s.packages
    pub distinct : Pairwise (λ (x y : String). x ≢ y) (purl_list s.packages)
    pub fresh : All (λ x. member x before ≡ false) (purl_list s.packages)

  add_dependant-IsPatchScan :
      (before : List String) (row : VersionRow) (s : PatchScan)
      → IsPatchScan before s
      → IsPatchScan before (add_dependant contact_rows row s)
  unfolding add_dependant add_to package_of_row
  add_dependant-IsPatchScan before row s h = elim (Bool-cases (or_empty row.purl == "")) [
    | inl e ↦ rw e h
    | inr e ↦ elim (Bool-cases (member (or_empty row.purl) s.visited_purls)) [
      | inl f ↦ rw (e, f) h
      | inr f ↦
          let purl = or_empty row.purl in
          let p = package_of_row row (get_contacts_for_purl contact_rows purl) in
          let purls = purl_list-append s.packages (p ∷ []) in
          rw (e, f)
            (record {
              contacts =
                  ap (λ cs. cs ++ get_contacts_for_purl contact_rows purl) h.contacts
                  ∙ sym (contacts_of-snoc s.packages p);
              visited =
                  ap (λ xs. xs ++ purl ∷ []) h.visited
                  ∙ append_assoc before (purl_list s.packages) (purl ∷ [])
                  ∙ ap (λ xs. before ++ xs) (sym purls);
              distinct =
                  subst (λ xs. Pairwise (λ (x y : String). x ≢ y) xs) (sym purls)
                    (Pairwise-snoc (λ (x y : String). x ≢ y) (purl_list s.packages) purl h.distinct
                      (absent purl s.visited_purls before (purl_list s.packages) h.visited f).1);
              fresh =
                  subst (λ xs. All (λ x. member x before ≡ false) xs) (sym purls)
                    (All-append (λ x. member x before ≡ false) (purl_list s.packages) (purl ∷ [])
                      h.fresh
                      (
                        (absent purl s.visited_purls before (purl_list s.packages) h.visited f).0,
                        tt,
                      ));
            })
    ]
  ]

  add_dependants-IsPatchScan :
      (before : List String) (rows : List VersionRow) (s : PatchScan)
      → IsPatchScan before s
      → IsPatchScan before (add_dependants contact_rows rows s)
  unfolding add_dependants
  add_dependants-IsPatchScan before [] s h = h
  add_dependants-IsPatchScan before (row ∷ rows) s h =
      add_dependants-IsPatchScan before rows _ (add_dependant-IsPatchScan before row s h)

  -- What later levels find: new packages, each once, and their contacts.
  pub record IsFound (before : List String) (frontiers : List PatchFrontier)
      (contacts : List Contact) : Type 0 where
    pub same : contacts ≡ contacts_of (packages_in frontiers)
    pub distinct : Pairwise (λ (x y : String). x ≢ y) (purl_list (packages_in frontiers))
    pub fresh : All (λ x. member x before ≡ false) (purl_list (packages_in frontiers))

  last_level :
      (before : List String) (level : ℕ) (s : PatchScan)
      → IsPatchScan before s
      → IsFound before (frontier_of level s.packages) s.gathered
  last_level before level s h =
      let there = sym (packages_in-frontier_of level s.packages) in
      record {
        same = h.contacts ∙ ap contacts_of there;
        distinct = subst (λ ps. Pairwise (λ (x y : String). x ≢ y) (purl_list ps)) there h.distinct;
        fresh = subst (λ ps. All (λ x. member x before ≡ false) (purl_list ps)) there h.fresh;
      }

  more_levels :
      (before : List String) (level : ℕ) (s : PatchScan) (frontiers : List PatchFrontier)
      (contacts : List Contact)
      → IsPatchScan before s
      → IsFound s.visited_purls frontiers contacts
      → IsFound before (frontier_of level s.packages ++ frontiers) (s.gathered ++ contacts)
  more_levels before level s frontiers contacts h k =
      let whole =
        packages_in-append (frontier_of level s.packages) frontiers
        ∙ ap (λ ps. ps ++ packages_in frontiers) (packages_in-frontier_of level s.packages) in
      let purls = ap purl_list whole ∙ purl_list-append s.packages (packages_in frontiers) in
      let apart : (x : String)
          → In x (purl_list (packages_in frontiers))
          → (member x before ≡ false) × All (λ y. y ≢ x) (purl_list s.packages) =
        λ x m.
          absent x s.visited_purls before (purl_list s.packages) h.visited
            (All-In (λ x. member x s.visited_purls ≡ false) x _ k.fresh m) in
      record {
        same =
            ap (λ cs. cs ++ contacts) h.contacts
            ∙ ap (λ cs. contacts_of s.packages ++ cs) k.same
            ∙ sym (contacts_of-append s.packages (packages_in frontiers))
            ∙ ap contacts_of (sym whole);
        distinct =
            subst (λ xs. Pairwise (λ (x y : String). x ≢ y) xs) (sym purls)
              (Pairwise-append (purl_list s.packages) (purl_list (packages_in frontiers)) h.distinct
                k.distinct
                (λ x y m n. All-In (λ z. z ≢ y) x (purl_list s.packages) (apart y n).1 m));
        fresh =
            subst (λ xs. All (λ x. member x before ≡ false) xs) (sym purls)
              (All-append (λ x. member x before ≡ false) (purl_list s.packages)
                (purl_list (packages_in frontiers)) h.fresh
                (All_of_In (λ x. member x before ≡ false) (purl_list (packages_in frontiers))
                  (λ x m. (apart x m).0)));
      }

  module _ (dependants : List String → List VersionRow) where
    pub patch_levels-IsFound :
        (remaining level : ℕ) (visited current : List String)
        → IsFound visited
            (patch_levels contact_rows dependants remaining level visited current).0
            (patch_levels contact_rows dependants remaining level visited current).1
    unfolding patch_levels contacts_of packages_in
    patch_levels-IsFound zero level visited current = record {
      same = refl;
      distinct = tt;
      fresh = tt;
    }
    patch_levels-IsFound (suc remaining) level visited [] = record {
      same = refl;
      distinct = tt;
      fresh = tt;
    }
    patch_levels-IsFound (suc remaining) level visited (purl ∷ current) =
        let empty_scan : PatchScan = record {
          visited_purls = visited;
          next_purls = [];
          gathered = [];
          packages = [];
        } in
        let scan = add_dependants contact_rows (dependants (purl ∷ current)) empty_scan in
        let ok =
          add_dependants-IsPatchScan visited (dependants (purl ∷ current)) empty_scan (record {
            contacts = refl;
            visited = sym (append-nil visited);
            distinct = tt;
            fresh = tt;
          }) in
        elim (Bool-cases (leb 50000 (length scan.visited_purls))) [
          | inl e ↦ rw e (last_level visited level scan ok)
          | inr e ↦ rw e (
              more_levels visited level scan _ _ ok
                (patch_levels-IsFound remaining (level + 1) scan.visited_purls scan.next_purls))
        ]

    pub patch_levels-level :
        (remaining level : ℕ) (visited current : List String)
        → All
            (λ f. level ≤ f.level)
            (patch_levels contact_rows dependants remaining level visited current).0
    unfolding patch_levels
    patch_levels-level zero level visited current = tt
    patch_levels-level (suc remaining) level visited [] = tt
    patch_levels-level (suc remaining) level visited (purl ∷ current) =
        let scan =
          add_dependants contact_rows (dependants (purl ∷ current))
            (record { visited_purls = visited; next_purls = []; gathered = []; packages = [] }) in
        let here = frontier_of-level level level scan.packages (omega arith) in
        let later =
          All-map (λ f. level + 1 ≤ f.level) (λ f. level ≤ f.level) _ (λ f h. omega (arith, h))
            (patch_levels-level remaining (level + 1) scan.visited_purls scan.next_purls) in
        elim (Bool-cases (leb 50000 (length scan.visited_purls))) [
          | inl e ↦ rw e here
          | inr e ↦
              rw e
                (All-append (λ f. level ≤ f.level) (frontier_of level scan.packages) _ here later)
        ]
