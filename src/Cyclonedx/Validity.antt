-- ===== src/Cyclonedx/Validity.antt =====
-- What the validation of a CycloneDX document accepts.
use sbom_graph.Prelude.{
  ℕ, ◌+◌, ◌≤◌, ◌≡◌, ◌↔◌, inl, inr, refl, sym, ap, ◌∙◌, subst, true, List, [], ◌∷◌, String, arith,
  leb, leb→le, if◌then◌else◌, length, All, Bool-cases,
}
use sbom_graph.Json.{
  Json, null, boolean, number, text, array, object, Items, Fields, Result, ok, err, ◌>>=◌, items,
  get, has_key,
}
use sbom_graph.Cyclonedx.{
  Fault, document_not_object, metadata_missing, metadata_not_object, component_missing,
  component_not_object, root_ref_missing, root_name_missing, entry_not_object, entry_ref_missing,
  max_sbom_entries, require_object, require_key, check_list, check_section, check_components,
  entries, validate_cyclonedx_structure,
}

bind_inv :
    {I A B : Type 0} (m : Result I A) (f : A → Result I B) (b : B)
    → (m >>= f) ≡ ok b
    → (a : A) × (m ≡ ok a) × (f a ≡ ok b)
bind_inv (ok a) f b e = (a, refl, e)
bind_inv (err x) f b e = cc

bind_ok :
    {I A B : Type 0} (m : Result I A) (f : A → Result I B) (a : A) (b : B)
    → m ≡ ok a
    → f a ≡ ok b
    → (m >>= f) ≡ ok b
bind_ok m f a b e h = ap (λ r. r >>= f) e ∙ h

ok_inj : {I A : Type 0} {a b : A} → ◌≡◌ {A = Result I A} (ok a) (ok b) → a ≡ b
ok_inj e = cc

require_object_iff :
    (fault : Fault) (j : Json) (fs : Fields) → (require_object fault j ≡ ok fs) ↔ (j ≡ object fs)
unfolding require_object
require_object_iff fault (object gs) fs = (λ e. ap (λ x. object x) (ok_inj e), λ e. cc)
require_object_iff fault null fs = (λ e. cc, λ e. cc)
require_object_iff fault (boolean b) fs = (λ e. cc, λ e. cc)
require_object_iff fault (number literal nonzero) fs = (λ e. cc, λ e. cc)
require_object_iff fault (text s) fs = (λ e. cc, λ e. cc)
require_object_iff fault (array js) fs = (λ e. cc, λ e. cc)

require_key_iff :
    (fault : Fault) (key : String) (fs : Fields) (j : Json)
    → (require_key fault key fs ≡ ok j) ↔ ((has_key key fs ≡ true) × (get key fs ≡ j))
unfolding require_key
require_key_iff fault key fs j = elim (Bool-cases (has_key key fs)) [
  | inl e ↦ rw (require_key, e) (λ h. (refl, ok_inj h), λ (t, h). ap (λ x. ok x) h)
  | inr e ↦ rw (require_key, e) (λ h. cc, λ (t, h). cc)
]

-- A section that is present is a list of at most `max_sbom_entries` entries.
unfoldable pub IsSection : Fields → String → Type 0
IsSection fs section =
    has_key section fs ≡ true
    → (js : Items) × (get section fs ≡ array js) × (length (items js) ≤ max_sbom_entries)

-- An entry of the components is an object with a reference.
unfoldable pub HasRef : Json → Type 0
HasRef comp = (fs : Fields) × (comp ≡ object fs) × (has_key "bom-ref" fs ≡ true)

array_inj : {js ks : Items} → array js ≡ array ks → js ≡ ks
array_inj e = cc

check_list_iff :
    (section : String) (j : Json)
    → (check_list section j ≡ ok tt)
      ↔ ((js : Items) × (j ≡ array js) × (length (items js) ≤ max_sbom_entries))
unfolding check_list
check_list_iff section (array js) = elim (Bool-cases (leb (length (items js)) max_sbom_entries)) [
  | inl e ↦ rw (check_list, e) (λ h. (js, refl, leb→le _ _ e), λ h. refl)
  | inr e ↦
      rw (check_list, e)
        (
          λ h. cc,
          λ (ks, same, le).
              let short =
                subst (λ xs. length (items xs) ≤ max_sbom_entries) (sym (array_inj same)) le in
              ground arith,
        )
]
check_list_iff section null = (λ e. cc, λ (js, e, le). cc)
check_list_iff section (boolean b) = (λ e. cc, λ (js, e, le). cc)
check_list_iff section (number literal nonzero) = (λ e. cc, λ (js, e, le). cc)
check_list_iff section (text s) = (λ e. cc, λ (js, e, le). cc)
check_list_iff section (object fs) = (λ e. cc, λ (js, e, le). cc)

check_section_iff :
    (fs : Fields) (section : String) → (check_section fs section ≡ ok tt) ↔ IsSection fs section
unfolding check_section IsSection
check_section_iff fs section = elim (Bool-cases (has_key section fs)) [
  | inl e ↦
      rw (check_section, IsSection, e)
        (
          λ h t. (check_list_iff section (get section fs)).0 h,
          λ f. (check_list_iff section (get section fs)).1 (f refl),
        )
  | inr e ↦ rw (check_section, IsSection, e) (λ h t. cc, λ f. refl)
]

check_components_iff :
    (i : ℕ) (comps : List Json) → (check_components i comps ≡ ok tt) ↔ All HasRef comps
unfolding check_components HasRef
check_components_iff i [] = (λ e. tt, λ h. refl)
check_components_iff i (comp ∷ comps) = (
  λ e.
      let (fs, is_object, e') = bind_inv (require_object (entry_not_object i) comp) _ tt e in
      let (ref, has_ref, e'') = bind_inv (require_key (entry_ref_missing i) "bom-ref" fs) _ tt e' in
      (
        (
          fs,
          (require_object_iff (entry_not_object i) comp fs).0 is_object,
          ((require_key_iff (entry_ref_missing i) "bom-ref" fs ref).0 has_ref).0,
        ),
        (check_components_iff (i + 1) comps).0 e'',
      ),
  λ ((fs, is_object, has_ref), more).
      bind_ok (require_object (entry_not_object i) comp) _ fs tt
        ((require_object_iff (entry_not_object i) comp fs).1 is_object)
        (bind_ok (require_key (entry_ref_missing i) "bom-ref" fs) _ (get "bom-ref" fs) tt
          ((require_key_iff (entry_ref_missing i) "bom-ref" fs (get "bom-ref" fs)).1
            (has_ref, refl))
          ((check_components_iff (i + 1) comps).1 more)),
)

-- A document that can be processed: an object with a metadata object, in it a component object with
-- a reference and a name, lists of bounded length, and components that have references.
pub record IsSbom (json_data : Json) : Type 0 where
  pub document : Fields
  pub metadata : Fields
  pub component : Fields
  pub is_document : json_data ≡ object document
  pub is_metadata :
      (has_key "metadata" document ≡ true) × (get "metadata" document ≡ object metadata)
  pub is_component :
      (has_key "component" metadata ≡ true) × (get "component" metadata ≡ object component)
  pub has_ref : has_key "bom-ref" component ≡ true
  pub has_name : has_key "name" component ≡ true
  pub components : IsSection document "components"
  pub dependencies : IsSection document "dependencies"
  pub vulnerabilities : IsSection document "vulnerabilities"
  pub refs : has_key "components" document ≡ true → All HasRef (entries (get "components" document))

check_refs_iff :
    (fs : Fields)
    → (◌≡◌ {A = Result Fault (Unit {0})}
        (if has_key "components" fs
          then check_components 0 (entries (get "components" fs))
          else ok tt)
        (ok tt))
      ↔ (has_key "components" fs ≡ true → All HasRef (entries (get "components" fs)))
check_refs_iff fs = elim (Bool-cases (has_key "components" fs)) [
  | inl e ↦ rw e (
    λ h t. (check_components_iff 0 (entries (get "components" fs))).0 h,
    λ f. (check_components_iff 0 (entries (get "components" fs))).1 (f refl),
  )
  | inr e ↦ rw e (λ h t. cc, λ f. refl)
]

-- The validation accepts a document exactly when it is well formed: an object whose metadata has a
-- component with a reference and a name, whose sections are lists of at most 100000 entries where
-- present, and whose components are all objects with a reference.
pub validate_cyclonedx_structure_iff :
    (json_data : Json) → (validate_cyclonedx_structure json_data ≡ ok tt) ↔ IsSbom json_data
unfolding validate_cyclonedx_structure
validate_cyclonedx_structure_iff json_data = (
  λ e.
      let (fs, e0, r0) = bind_inv (require_object document_not_object json_data) _ tt e in
      let (m, e1, r1) = bind_inv (require_key metadata_missing "metadata" fs) _ tt r0 in
      let (ms, e2, r2) = bind_inv (require_object metadata_not_object m) _ tt r1 in
      let (c, e3, r3) = bind_inv (require_key component_missing "component" ms) _ tt r2 in
      let (cs, e4, r4) = bind_inv (require_object component_not_object c) _ tt r3 in
      let (r, e5, r5) = bind_inv (require_key root_ref_missing "bom-ref" cs) _ tt r4 in
      let (n, e6, r6) = bind_inv (require_key root_name_missing "name" cs) _ tt r5 in
      let (u0, e7, r7) = bind_inv (check_section fs "components") _ tt r6 in
      let (u1, e8, r8) = bind_inv (check_section fs "dependencies") _ tt r7 in
      let (u2, e9, r9) = bind_inv (check_section fs "vulnerabilities") _ tt r8 in
      let k1 = (require_key_iff metadata_missing "metadata" fs m).0 e1 in
      let k3 = (require_key_iff component_missing "component" ms c).0 e3 in
      record {
        document = fs;
        metadata = ms;
        component = cs;
        is_document = (require_object_iff document_not_object json_data fs).0 e0;
        is_metadata = (k1.0, k1.1 ∙ (require_object_iff metadata_not_object m ms).0 e2);
        is_component = (k3.0, k3.1 ∙ (require_object_iff component_not_object c cs).0 e4);
        has_ref = ((require_key_iff root_ref_missing "bom-ref" cs r).0 e5).0;
        has_name = ((require_key_iff root_name_missing "name" cs n).0 e6).0;
        components = (check_section_iff fs "components").0 e7;
        dependencies = (check_section_iff fs "dependencies").0 e8;
        vulnerabilities = (check_section_iff fs "vulnerabilities").0 e9;
        refs = (check_refs_iff fs).0 r9;
      },
  λ h.
      bind_ok (require_object document_not_object json_data) _ h.document tt
        ((require_object_iff document_not_object json_data h.document).1 h.is_document)
        (bind_ok (require_key metadata_missing "metadata" h.document) _ (object h.metadata) tt
          ((require_key_iff metadata_missing "metadata" h.document (object h.metadata)).1
            h.is_metadata)
          (bind_ok (require_key component_missing "component" h.metadata) _ (object h.component) tt
            ((require_key_iff component_missing "component" h.metadata (object h.component)).1
              h.is_component)
            (bind_ok (require_key root_ref_missing "bom-ref" h.component) _
              (get "bom-ref" h.component) tt
              ((require_key_iff root_ref_missing "bom-ref" h.component _).1 (h.has_ref, refl))
              (bind_ok (require_key root_name_missing "name" h.component) _ (get "name" h.component)
                tt ((require_key_iff root_name_missing "name" h.component _).1 (h.has_name, refl))
                (bind_ok (check_section h.document "components") _ tt tt
                  ((check_section_iff h.document "components").1 h.components)
                  (bind_ok (check_section h.document "dependencies") _ tt tt
                    ((check_section_iff h.document "dependencies").1 h.dependencies)
                    (bind_ok (check_section h.document "vulnerabilities") _ tt tt
                      ((check_section_iff h.document "vulnerabilities").1 h.vulnerabilities)
                      ((check_refs_iff h.document).1 h.refs)))))))),
)
