-- ===== src/Validation/Runs.antt =====
-- The patterns of runs with hyphens between them: identifiers of annotations and records, and dates.
use sbom_graph.Prelude.{
  ℕ, zero, suc, ◌≤◌, ◌≡◌, ◌↔◌, inl, inr, refl, sym, ap, ◌∙◌, subst, Bool, true, Option, none, some,
  List, [], ◌∷◌, ◌++◌, eqb, eqb_iff, length, All, All-map, All-append, Bool-cases, Option-cases,
}
use mathlib.Core.List.{append-nil}
use sbom_graph.Text.{Text, strip, Unicode}
use sbom_graph.Validation.{
  at_end, after_run, runs_match, is_hex, is_some, uuid_match, validate_text, validate_date_param,
}
use sbom_graph.Validation.Names.{
  NoNewline, tail-NoNewline, strip-NoNewline, at_end_nil, some_text, validate_text_iff,
}

module _ (p : ℕ → Bool) where
  -- Runs of `p` of the given lengths, one at least, with a hyphen between them.
  unfoldable pub IsRuns : List ℕ → Text → Type 0
  IsRuns [] r = ⊥
  IsRuns (n ∷ []) r = (length r ≡ n) × All (λ c. p c ≡ true) r
  IsRuns (n ∷ m ∷ ns) r =
      (front : Text) × (rest : Text) × (r ≡ front ++ b'-' ∷ rest)
      × (length front ≡ n)
      × All (λ c. p c ≡ true) front
      × IsRuns (m ∷ ns) rest

  after_run-some :
      (n : ℕ) (s rest : Text)
      → after_run p n s ≡ some rest
      → (front : Text) × (s ≡ front ++ rest) × (length front ≡ n) × All (λ c. p c ≡ true) front
  unfolding after_run
  after_run-some zero s rest e = ([], some_text e, refl, tt)
  after_run-some (suc n) [] rest e = cc
  after_run-some (suc n) (c ∷ s) rest e = elim (Bool-cases (p c)) [
    | inr k ↦ let f = rw k at e in cc
    | inl k ↦
        let (front, f, len, all) = after_run-some n s rest (rw k at e) in
        (c ∷ front, ap (λ t. c ∷ t) f, ap suc len, (k, all))
  ]

  after_run-append :
      (front rest : Text)
      → All (λ c. p c ≡ true) front
      → after_run p (length front) (front ++ rest) ≡ some rest
  unfolding after_run
  after_run-append [] rest h = refl
  after_run-append (c ∷ front) rest h = rw h.0 (after_run-append front rest h.1)

  after_run_whole : (s : Text) → All (λ c. p c ≡ true) s → after_run p (length s) s ≡ some []
  unfolding after_run
  after_run_whole [] h = refl
  after_run_whole (c ∷ s) h = rw h.0 (after_run_whole s h.1)

  append-NoNewline : (front s : Text) → NoNewline (front ++ s) → NoNewline s
  append-NoNewline [] s h = h
  append-NoNewline (c ∷ front) s h = append-NoNewline front s (tail-NoNewline c (front ++ s) h)

  -- The pattern means just this on a text that does not end with a newline.
  pub runs_match_to :
      (ns : List ℕ) (s : Text) → NoNewline s → runs_match p ns s ≡ true → IsRuns ns s
  unfolding runs_match IsRuns
  runs_match_to [] s h e = cc
  runs_match_to (n ∷ []) s h e = elim (Option-cases (after_run p n s)) [
    | inl none_left ↦ let f = rw (runs_match, none_left) at e in cc
    | inr (rest, run) ↦
        let (front, f, len, all) = after_run-some n s rest run in
        let stop =
          at_end_nil rest (append-NoNewline front rest (subst NoNewline f h))
            (rw (runs_match, run) at e) in
        let whole : s ≡ front = f ∙ ap (λ t. front ++ t) stop ∙ append-nil front in
        subst (λ t. (length t ≡ n) × All (λ c. p c ≡ true) t) (sym whole) (len, all)
  ]
  runs_match_to (n ∷ m ∷ ns) s h e = elim (Option-cases (after_run p n s)) [
    | inl none_left ↦ let f = rw (runs_match, none_left) at e in cc
    | inr ([], run) ↦ let f = rw (runs_match, run) at e in cc
    | inr (c ∷ rest, run) ↦
        let (front, f, len, all) = after_run-some n s (c ∷ rest) run in
        let tested = rw (runs_match, run) at e in
        elim (Bool-cases (eqb c b'-')) [
          | inr other ↦ let g = rw other at tested in cc
          | inl hyphen ↦
              let is_hyphen = (eqb_iff c b'-').0 hyphen in
              (
                front,
                rest,
                f ∙ ap (λ d. front ++ d ∷ rest) is_hyphen,
                len,
                all,
                runs_match_to (m ∷ ns) rest
                    (tail-NoNewline c rest
                      (append-NoNewline front (c ∷ rest) (subst NoNewline f h)))
                    (rw hyphen at tested),
              )
        ]
  ]

  pub runs_match_from : (ns : List ℕ) (s : Text) → IsRuns ns s → runs_match p ns s ≡ true
  unfolding runs_match IsRuns at_end
  runs_match_from [] s h = elim h [ ]
  runs_match_from (n ∷ []) s (len, all) =
      rw (runs_match, subst (λ m. after_run p m s ≡ some []) len (after_run_whole s all)) refl
  runs_match_from (n ∷ m ∷ ns) s (front, rest, e, len, all, more) =
      let run : after_run p n s ≡ some (b'-' ∷ rest) =
        ap (λ t. after_run p n t) e
        ∙ subst (λ k. after_run p k (front ++ b'-' ∷ rest) ≡ some (b'-' ∷ rest)) len
            (after_run-append front (b'-' ∷ rest) all) in
      rw (runs_match, run) (runs_match_from (m ∷ ns) rest more)

IsRuns-nil : (p : ℕ → Bool) (n : ℕ) (ns : List ℕ) → ¬ IsRuns p (suc n ∷ ns) []
unfolding IsRuns
IsRuns-nil p n [] (len, all) = cc
IsRuns-nil p n (m ∷ ns) ([], rest, e, len, all, more) = cc
IsRuns-nil p n (m ∷ ns) (c ∷ front, rest, e, len, all, more) = cc

-- The characters of runs.
pub IsRuns-All :
    (p : ℕ → Bool) (P : ℕ → Type 0)
    → ((c : ℕ) → p c ≡ true → P c)
    → P b'-'
    → (ns : List ℕ) (r : Text) → IsRuns p ns r
    → All P r
unfolding IsRuns
IsRuns-All p P f h [] r k = elim k [ ]
IsRuns-All p P f h (n ∷ []) r (len, all) = All-map (λ c. p c ≡ true) P r f all
IsRuns-All p P f h (n ∷ m ∷ ns) r (front, rest, e, len, all, more) =
    subst (λ t. All P t) (sym e)
      (All-append P front (b'-' ∷ rest) (All-map (λ c. p c ≡ true) P front f all)
        (h, IsRuns-All p P f h (m ∷ ns) rest more))

pub IsRuns-first :
    (p : ℕ → Bool) (n m : ℕ) (ns : List ℕ) (r : Text)
    → IsRuns p (suc n ∷ m ∷ ns) r
    → (c : ℕ) × (s : Text) × (r ≡ c ∷ s) × (p c ≡ true)
unfolding IsRuns
IsRuns-first p n m ns r ([], rest, e, len, all, more) = cc
IsRuns-first p n m ns r (c ∷ front, rest, e, len, all, more) = (c, front ++ b'-' ∷ rest, e, all.0)

abbrev pub uuid_runs : List ℕ
uuid_runs = 8 ∷ 4 ∷ 4 ∷ 4 ∷ 12 ∷ []

pub validate_uuid_iff :
    (value : Option Text) (r : Text)
    → (validate_text 64 uuid_match value ≡ some r) ↔ (
        (t : Text) × (value ≡ some t) × (r ≡ strip t) × (length r ≤ 64) × IsRuns is_hex uuid_runs r)
unfolding uuid_match
validate_uuid_iff value r =
    validate_text_iff 64 uuid_match (IsRuns is_hex uuid_runs)
      (λ s h. (runs_match_to is_hex uuid_runs s h, runs_match_from is_hex uuid_runs s))
      (IsRuns-nil is_hex 7 (4 ∷ 4 ∷ 4 ∷ 12 ∷ [])) value r

-- `validate_date_param` accepts exactly what is, without spaces at both ends, four, two and two
-- digits with hyphens between them, whatever month and day they name.
pub validate_date_param_iff :
    (u : Unicode) (value : Option Text) (r : Text)
    → (validate_date_param u value ≡ some r) ↔ (
        (t : Text) × (value ≡ some t)
        × (r ≡ strip t)
        × IsRuns (λ c. is_some (u.digit c)) (4 ∷ 2 ∷ 2 ∷ []) r)
unfolding validate_date_param
validate_date_param_iff u none r = (λ e. cc, λ h. let f = h.1 in cc)
validate_date_param_iff u (some []) r = (
  λ e. cc,
  λ h.
      let (t, e, f, spec) = h in
      absurd (
        IsRuns-nil _ 3 (2 ∷ 2 ∷ []) (
          subst (λ x. IsRuns (λ c. is_some (u.digit c)) (4 ∷ 2 ∷ 2 ∷ []) x)
            (f ∙ ap strip (sym (some_text e))) spec)),
)
validate_date_param_iff u (some (c ∷ s)) r = (
  λ e. elim (Bool-cases (runs_match (λ d. is_some (u.digit d)) (4 ∷ 2 ∷ 2 ∷ []) (strip (c ∷ s)))) [
    | inr k ↦ let f = rw k at e in cc
    | inl k ↦
        let f : strip (c ∷ s) ≡ r = some_text (rw k at e) in
        (
          c ∷ s,
          refl,
          sym f,
          subst (λ x. IsRuns (λ c. is_some (u.digit c)) (4 ∷ 2 ∷ 2 ∷ []) x) f
              (runs_match_to (λ c. is_some (u.digit c)) (4 ∷ 2 ∷ 2 ∷ []) (strip (c ∷ s))
                (strip-NoNewline (c ∷ s)) k),
        )
  ],
  λ h.
      let (t, e, f, spec) = h in
      let g : r ≡ strip (c ∷ s) = f ∙ ap strip (sym (some_text e)) in
      let k =
        runs_match_from (λ c. is_some (u.digit c)) (4 ∷ 2 ∷ 2 ∷ []) (strip (c ∷ s))
          (subst (λ x. IsRuns (λ c. is_some (u.digit c)) (4 ∷ 2 ∷ 2 ∷ []) x) g spec) in
      rw k (ap (λ x. some x) (sym g)),
)
