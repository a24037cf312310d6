-- ===== src/Validation/Redirects/Local.antt =====
-- Addresses on the site.
use sbom_graph.Prelude.{
  ℕ, ◌<◌, ◌≡◌, ◌≢◌, ◌⊎◌, inl, inr, refl, sym, ap, ◌∙◌, subst, true, false, ◌||◌, not, Option, some,
  List, [], ◌∷◌, ◌++◌, arith, eqb, eqb_iff, In, In-append_cases, Bool-cases, Option-cases,
}
use mathlib.Core.List.{append-nil}
use sbom_graph.Text.{
  Text, codes, member_text, has_char, has_text, starts_with, strip, split, Unicode,
}
use sbom_graph.Validation.{eq_nil}
use sbom_graph.Validation.Redirects.{
  ParsedUrl, dangerous_patterns, any_in, is_safe_parsed, is_safe_redirect_url, safe_path,
  urlunparse, get_safe_redirect_url,
}

has_char-In : (c : ℕ) (s : Text) → In c s → has_char c s ≡ true
unfolding has_char
has_char-In c [] m = elim m [ ]
has_char-In c (d ∷ s) (inl e) = let h : eqb c d ≡ true = (eqb_iff c d).1 e in rw h refl
has_char-In c (d ∷ s) (inr m) = elim (Bool-cases (eqb c d)) [
  | inl e ↦ rw e refl
  | inr e ↦ rw (e, has_char-In c s m) refl
]

has_text-In : (c : ℕ) (s : Text) → In c s → has_text (c ∷ []) s ≡ true
unfolding has_text starts_with
has_text-In c [] m = elim m [ ]
has_text-In c (d ∷ s) (inl e) =
    let h : eqb d c ≡ true = (eqb_iff d c).1 (sym e) in ground (arith, h)
has_text-In c (d ∷ s) (inr m) = let h = has_text-In c s m in ground (arith, h)

any_in-false :
    (pattern : Text) (patterns : List Text) (s : Text)
    → any_in patterns s ≡ false
    → In pattern patterns
    → has_text pattern s ≡ false
unfolding any_in
any_in-false p [] s h m = elim m [ ]
any_in-false p (q ∷ ps) s h m = elim (Bool-cases (has_text q s)) [
  | inl e ↦ let k = rw e at h in cc
  | inr e ↦ elim m [ inl same ↦ rw same e | inr later ↦ any_in-false p ps s (rw e at h) later ]
]

-- An address on this site: a path from the root, that a browser does not take for another host, with
-- no `..` among its segments, and a query or none.
pub record IsLocal (r : Text) : Type 0 where
  path : Text
  tail : Text
  whole : r ≡ path ++ tail
  query : (tail ≡ []) ⊎ ((q : Text) × (tail ≡ b'?' ∷ q))
  rooted : (s : Text) × (path ≡ b'/' ∷ s)
  not_host : starts_with path (codes "//") ≡ false
  not_backslash : starts_with path (b'/' ∷ 92 ∷ []) ≡ false
  no_parent : member_text (codes "..") (split b'/' path) ≡ false
  -- Without `@`, backslash, carriage return, line feed and tab.
  clean : (c : ℕ) → In c r → (c ≢ 64) × (c ≢ 92) × (c ≢ 13) × (c ≢ 10) × (c ≢ 9)

module _ (u : Unicode) (urlparse : Text → Option ParsedUrl) where
  -- What the tests of a parsed address say.
  record Passed (url : Text) (p : ParsedUrl) : Type 0 where
    rooted : starts_with p.path (codes "/") ≡ true
    not_host : starts_with p.path (codes "//") ≡ false
    not_backslash : starts_with p.path (b'/' ∷ 92 ∷ []) ≡ false
    backslash : has_char 92 url ≡ false
    no_parent : member_text (codes "..") (split b'/' p.path) ≡ false
    no_danger : any_in dangerous_patterns (u.lower url) ≡ false

  is_safe_parsed-Passed :
      (url : Text) (p : ParsedUrl) → is_safe_parsed u urlparse url p ≡ true → Passed url p
  unfolding is_safe_parsed
  is_safe_parsed-Passed url p h =
      elim (Bool-cases (not (eq_nil p.scheme) || not (eq_nil p.netloc))) [
        | inl a ↦ let k = rw a at h in cc
        | inr a ↦
            elim (Bool-cases (
              not (starts_with p.path (codes "/"))
              || starts_with p.path (codes "//")
              || starts_with p.path (b'/' ∷ 92 ∷ []))) [
                | inl b ↦ let k = rw (a, b) at h in cc
                | inr b ↦ elim (Bool-cases (has_char 92 url)) [
                  | inl c ↦ let k = rw (a, b, c) at h in cc
                  | inr c ↦ elim (Bool-cases (member_text (codes "..") (split b'/' p.path))) [
                    | inl d ↦ let k = rw (a, b, c, d) at h in cc
                    | inr d ↦
                        let k = rw (a, b, c, d) at h in
                        record {
                          rooted = ground arith;
                          not_host = ground arith;
                          not_backslash = ground arith;
                          backslash = c;
                          no_parent = d;
                          no_danger = ground arith;
                        }
                  ]
                ]
              ]
      ]

  module _
      (parse_chars : (t : Text) (p : ParsedUrl)
        → urlparse t ≡ some p
        → (c : ℕ) → In c p.path ⊎ In c p.query
        → In c t)
      (lower_keeps : (c : ℕ) (t : Text) → c < 65 → In c t → In c (u.lower t)) where
    -- No dangerous character of the lower half of ASCII.
    not_dangerous :
        (url : Text) (d : ℕ)
        → any_in dangerous_patterns (u.lower url) ≡ false
        → In (d ∷ []) dangerous_patterns
        → d < 65
        → (c : ℕ) → In c url
        → c ≢ d
    not_dangerous url d h m small c n same =
        let there : has_text (d ∷ []) (u.lower url) ≡ true =
          has_text-In d (u.lower url) (lower_keeps d url small (subst (λ x. In x url) same n)) in
        let absent = any_in-false (d ∷ []) dangerous_patterns (u.lower url) h m in cc

    Passed-clean :
        (url : Text) (p : ParsedUrl)
        → Passed url p
        → (c : ℕ) → In c url
        → (c ≢ 64) × (c ≢ 92) × (c ≢ 13) × (c ≢ 10) × (c ≢ 9)
    Passed-clean url p h c m = (
      not_dangerous url 64 h.no_danger (inl refl) (omega arith) c m,
      λ same.
          let k = has_char-In 92 url (subst (λ x. In x url) same m) in let l = h.backslash in cc,
      not_dangerous url 13 h.no_danger (inr (inl refl)) (omega arith) c m,
      not_dangerous url 10 h.no_danger (inr (inr (inl refl))) (omega arith) c m,
      not_dangerous url 9 h.no_danger (inr (inr (inr (inl refl)))) (omega arith) c m,
    )

    path_cases :
        (path : Text) → starts_with path (codes "/") ≡ true → (s : Text) × (path ≡ b'/' ∷ s)
    unfolding starts_with
    path_cases [] h = cc
    path_cases (c ∷ s) h = let e : c ≡ b'/' = ground arith in (s, ap (λ d. d ∷ s) e)

    -- The query with its mark.
    unparsed_tail :
        (path query : Text)
        → (tail : Text) × (urlunparse u urlparse path query ≡ path ++ tail)
          × ((tail ≡ []) ⊎ ((q : Text) × (tail ≡ b'?' ∷ q)))
          × ((c : ℕ) → In c tail → (c ≡ b'?') ⊎ In c query)
    unfolding urlunparse
    unparsed_tail path [] = ([], sym (append-nil path), inl refl, λ c m. elim m [ ])
    unparsed_tail path (d ∷ query) = (b'?' ∷ d ∷ query, refl, inr (d ∷ query, refl), λ c m. m)

    question_clean : (c : ℕ) → c ≡ b'?' → (c ≢ 64) × (c ≢ 92) × (c ≢ 13) × (c ≢ 10) × (c ≢ 9)
    question_clean c e = (
      λ k. omega (arith, e, k),
      λ k. omega (arith, e, k),
      λ k. omega (arith, e, k),
      λ k. omega (arith, e, k),
      λ k. omega (arith, e, k),
    )

    unparsed-IsLocal :
        (url : Text) (p : ParsedUrl)
        → urlparse url ≡ some p
        → Passed url p
        → IsLocal (urlunparse u urlparse (safe_path u urlparse p) p.query)
    unfolding safe_path urlunparse
    unparsed-IsLocal url p e h =
        let (s, rooted) = path_cases p.path h.rooted in
        let clean = Passed-clean url p h in
        let chars = parse_chars url p e in
        let same : safe_path u urlparse p ≡ p.path = rw rooted refl in
        let (tail, whole, query, inside) = unparsed_tail p.path p.query in
        record {
          path = p.path;
          tail = tail;
          whole = ap (λ x. urlunparse u urlparse x p.query) same ∙ whole;
          query = query;
          rooted = (s, rooted);
          not_host = h.not_host;
          not_backslash = h.not_backslash;
          no_parent = h.no_parent;
          clean = λ c m.
              elim (In-append_cases c p.path tail
                (subst (λ x. In c x) (ap (λ x. urlunparse u urlparse x p.query) same ∙ whole) m)) [
                  | inl in_path ↦ clean c (chars c (inl in_path))
                  | inr in_tail ↦ elim (inside c in_tail) [
                    | inl mark ↦ question_clean c mark
                    | inr in_query ↦ clean c (chars c (inr in_query))
                  ]
                ];
        }

    -- Where `urlparse` makes up no characters and `str.lower` keeps what is below `A`,
    -- `get_safe_redirect_url` gives the default or an address on the site: a path that begins with one
    -- slash and no second slash or backslash behind it, with no segment `..`, and a query or none, in
    -- all without `@`, backslash, carriage return, line feed and tab.
    pub get_safe_redirect_url-IsLocal :
        (raw_next_url default_url r : Text)
        → get_safe_redirect_url u urlparse raw_next_url default_url ≡ some r
        → (r ≡ default_url) ⊎ IsLocal r
    unfolding get_safe_redirect_url is_safe_redirect_url
    get_safe_redirect_url-IsLocal [] default_url r h = inl (let e : default_url ≡ r = cc in sym e)
    get_safe_redirect_url-IsLocal (c ∷ s) default_url r h =
        elim (Option-cases (urlparse (strip (c ∷ s)))) [
          | inl e ↦ let k = rw (get_safe_redirect_url, is_safe_redirect_url, e) at h in cc
          | inr (p, e) ↦ elim (Bool-cases (is_safe_parsed u urlparse (strip (c ∷ s)) p)) [
            | inr f ↦
                let k = rw (get_safe_redirect_url, is_safe_redirect_url, e, f) at h in
                inl (let g : default_url ≡ r = cc in sym g)
            | inl f ↦
                let k = rw (get_safe_redirect_url, is_safe_redirect_url, e, f, e) at h in
                let g : urlunparse u urlparse (safe_path u urlparse p) p.query ≡ r = cc in
                inr (
                  subst IsLocal g (
                    unparsed-IsLocal (strip (c ∷ s)) p e
                      (is_safe_parsed-Passed (strip (c ∷ s)) p f)))
          ]
        ]
