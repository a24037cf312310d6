-- ===== src/Validation/Headers/Clean.antt =====
-- What the header and the query strings hold.
use sbom_graph.Prelude.{
  ℕ, suc, ◌+◌, ◌≡◌, ◌≢◌, inl, inr, refl, ap, ◌∙◌, false, List, [], ◌∷◌, ◌++◌, arith, if◌then◌else◌,
  eqb, eqb_self, length, length-append, map, All, All-append, Bool-cases,
}
use sbom_graph.Text.{Text, split}
use sbom_graph.Validation.Headers.{
  remove_char, replace_char, sanitized, sanitize_content_disposition, UrlParams, url_params,
  pair_text, urlencode, build_url_params,
}

-- How often a character occurs.
unfoldable pub count_char : ℕ → Text → ℕ
count_char c [] = 0
count_char c (d ∷ s) = let rest = count_char c s in if eqb d c then suc rest else rest

count_char-append : (c : ℕ) (s t : Text) → count_char c (s ++ t) ≡ count_char c s + count_char c t
unfolding count_char
count_char-append c [] t = omega arith
count_char-append c (d ∷ s) t = elim (Bool-cases (eqb d c)) [
  | inl e ↦ rw e (omega (arith, count_char-append c s t))
  | inr e ↦ rw e (count_char-append c s t)
]

count_char-remove : (c : ℕ) (s : Text) → count_char c (remove_char c s) ≡ 0
unfolding count_char remove_char
count_char-remove c [] = refl
count_char-remove c (d ∷ s) = elim (Bool-cases (eqb d c)) [
  | inl e ↦ rw e (count_char-remove c s)
  | inr e ↦ rw e (rw e (count_char-remove c s))
]

count_char-remove_other :
    (b c : ℕ) (s : Text) → eqb c b ≡ false → count_char c (remove_char b s) ≡ count_char c s
unfolding count_char remove_char
count_char-remove_other b c [] ne = refl
count_char-remove_other b c (d ∷ s) ne = elim (Bool-cases (eqb d b)) [
  | inl e ↦
      let other : eqb d c ≡ false = ground arith in rw (e, other) (count_char-remove_other b c s ne)
  | inr e ↦ elim (Bool-cases (eqb d c)) [
    | inl f ↦ rw (e, f) (ap suc (count_char-remove_other b c s ne))
    | inr f ↦ rw (e, f) (count_char-remove_other b c s ne)
  ]
]

length-remove : (c : ℕ) (s : Text) → length (remove_char c s) + count_char c s ≡ length s
unfolding count_char remove_char
length-remove c [] = omega arith
length-remove c (d ∷ s) = elim (Bool-cases (eqb d c)) [
  | inl e ↦ rw e (omega (arith, length-remove c s))
  | inr e ↦ rw e (omega (arith, length-remove c s))
]

-- Replacing a character by another leaves none of it, and as many of a third.
count_char-replace :
    (c by : ℕ) (s : Text) → eqb by c ≡ false → count_char c (replace_char c by s) ≡ 0
unfolding count_char replace_char
count_char-replace c by [] ne = refl
count_char-replace c by (d ∷ s) ne = elim (Bool-cases (eqb d c)) [
  | inl e ↦ rw (e, ne) (count_char-replace c by s ne)
  | inr e ↦ rw e (rw e (count_char-replace c by s ne))
]

count_char-replace_other :
    (b c by : ℕ) (s : Text)
    → eqb by b ≡ false
    → eqb c b ≡ false
    → count_char b (replace_char c by s) ≡ count_char b s
unfolding count_char replace_char
count_char-replace_other b c by [] ne other = refl
count_char-replace_other b c by (d ∷ s) ne other = elim (Bool-cases (eqb d c)) [
  | inl e ↦
      let not_b : eqb d b ≡ false = ground arith in
      rw (e, ne, not_b) (count_char-replace_other b c by s ne other)
  | inr e ↦ elim (Bool-cases (eqb d b)) [
    | inl f ↦ rw (e, f) (ap suc (count_char-replace_other b c by s ne other))
    | inr f ↦ rw (e, f) (count_char-replace_other b c by s ne other)
  ]
]

length-replace : (c by : ℕ) (s : Text) → length (replace_char c by s) ≡ length s
unfolding replace_char
length-replace c by [] = refl
length-replace c by (d ∷ s) = ap suc (length-replace c by s)

sanitized_lem :
    (filename : Text)
    → (count_char 13 (sanitized filename) ≡ 0)
      × (count_char 10 (sanitized filename) ≡ 0)
      × (count_char 0 (sanitized filename) ≡ 0)
      × (count_char 34 (sanitized filename) ≡ 0)
      × (length (sanitized filename)
            + (count_char 13 filename + (count_char 10 filename + count_char 0 filename))
          ≡ length filename)
unfolding sanitized
sanitized_lem filename =
    let one = remove_char 13 filename in
    let two = remove_char 10 one in
    let three = remove_char 0 two in
    (
      count_char-replace_other 13 34 39 three refl refl
          ∙ count_char-remove_other 0 13 two refl
          ∙ count_char-remove_other 10 13 one refl
          ∙ count_char-remove 13 filename,
      count_char-replace_other 10 34 39 three refl refl
          ∙ count_char-remove_other 0 10 two refl
          ∙ count_char-remove 10 one,
      count_char-replace_other 0 34 39 three refl refl ∙ count_char-remove 0 two,
      count_char-replace 34 39 three refl,
      omega (
        arith,
        length-replace 34 39 three,
        length-remove 0 two,
        length-remove 10 one,
        length-remove 13 filename,
        count_char-remove_other 10 0 one refl,
        count_char-remove_other 13 0 filename refl,
        count_char-remove_other 13 10 filename refl,
      ),
    )

-- For any filename the Content-Disposition header has no carriage return, line feed or NUL and just
-- two quotes, and of the filename just as many characters are dropped as it has carriage returns,
-- line feeds and NULs.
pub sanitize_content_disposition_lem :
    (filename : Text)
    → (count_char 13 (sanitize_content_disposition filename) ≡ 0)
      × (count_char 10 (sanitize_content_disposition filename) ≡ 0)
      × (count_char 0 (sanitize_content_disposition filename) ≡ 0)
      × (count_char 34 (sanitize_content_disposition filename) ≡ 2)
      × (length (sanitize_content_disposition filename)
            + (count_char 13 filename + (count_char 10 filename + count_char 0 filename))
          ≡ length filename + 19)
unfolding sanitize_content_disposition count_char
sanitize_content_disposition_lem filename =
    let (no_cr, no_lf, no_nul, no_quote, size) = sanitized_lem filename in
    let safe = sanitized filename in
    let end : Text = b'"' ∷ [] in
    (
      omega (arith, no_cr, count_char-append 13 safe end),
      omega (arith, no_lf, count_char-append 10 safe end),
      omega (arith, no_nul, count_char-append 0 safe end),
      omega (arith, no_quote, count_char-append 34 safe end),
      omega (arith, size, length-append safe end),
    )

-- A text without a character.
unfoldable pub Lacks : ℕ → Text → Type 0
Lacks c s = All (λ d. eqb c d ≡ false) s

split_whole : (c : ℕ) (s : Text) → Lacks c s → split c s ≡ s ∷ []
unfolding split Lacks
split_whole c [] h = refl
split_whole c (d ∷ s) h = rw (h.0, split_whole c s h.1) refl

split-append : (c : ℕ) (s t : Text) → Lacks c s → split c (s ++ c ∷ t) ≡ s ∷ split c t
unfolding split Lacks
split-append c [] t h = rw (eqb_self c) refl
split-append c (d ∷ s) t h = rw (h.0, split-append c s t h.1) refl

-- What stands before the first `=`, and what stands behind it.
unfoldable pub cut : Text → Text × Text
cut [] = ([], [])
cut (c ∷ s) = let rest = cut s in if eqb b'=' c then ([], s) else (c ∷ rest.0, rest.1)

cut-append : (s t : Text) → Lacks b'=' s → cut (s ++ b'=' ∷ t) ≡ (s, t)
unfolding cut Lacks
cut-append [] t h = refl
cut-append (d ∷ s) t h = rw (h.0, cut-append s t h.1) refl

module _ (quote_plus unquote : Text → Text) where
  unfoldable pub read_pair : Text → Text × Text
  unfolding cut
  read_pair s = let (key, value) = cut s in (unquote key, unquote value)

  -- A query string read again: the pairs between `&`.
  unfoldable pub read_query : Text → List (Text × Text)
  unfolding read_pair split
  read_query [] = []
  read_query (c ∷ s) = map read_pair (split b'&' (c ∷ s))

  module _ (unquote-quote : (s : Text) → unquote (quote_plus s) ≡ s)
      (quote_equals : (s : Text) → Lacks b'=' (quote_plus s))
      (quote_ampersand : (s : Text) → Lacks b'&' (quote_plus s)) where
    read_pair-pair_text : (pair : Text × Text) → read_pair (pair_text quote_plus pair) ≡ pair
    unfolding read_pair pair_text
    read_pair-pair_text (key, value) =
        rw (cut-append (quote_plus key) (quote_plus value) (quote_equals key))
          (cc (unquote-quote key, unquote-quote value))

    pair_ampersand : (pair : Text × Text) → Lacks b'&' (pair_text quote_plus pair)
    unfolding pair_text Lacks
    pair_ampersand (key, value) =
        All-append (λ d. eqb b'&' d ≡ false) (quote_plus key) (b'=' ∷ quote_plus value)
          (quote_ampersand key) (refl, quote_ampersand value)

    split-urlencode :
        (pair : Text × Text) (pairs : List (Text × Text))
        → map read_pair (split b'&' (urlencode quote_plus (pair ∷ pairs))) ≡ pair ∷ pairs
    unfolding urlencode
    split-urlencode pair [] =
        ap (map read_pair) (split_whole b'&' (pair_text quote_plus pair) (pair_ampersand pair))
        ∙ ap (λ p. p ∷ []) (read_pair-pair_text pair)
    split-urlencode pair (next ∷ pairs) =
        ap (map read_pair) (split-append b'&' (pair_text quote_plus pair) _ (pair_ampersand pair))
        ∙ ap (λ p. p ∷ map read_pair (split b'&' (urlencode quote_plus (next ∷ pairs))))
            (read_pair-pair_text pair)
        ∙ ap (λ ps. pair ∷ ps) (split-urlencode next pairs)

    read_query-cons : (s : Text) → s ≢ [] → read_query s ≡ map read_pair (split b'&' s)
    unfolding read_query
    read_query-cons [] h = absurd (h refl)
    read_query-cons (c ∷ s) h = refl

    not_nil : (s t : Text) (c : ℕ) → s ++ c ∷ t ≢ []
    not_nil [] t c e = cc
    not_nil (d ∷ s) t c e = cc

    -- Where quoting can be undone and leaves no `=` or `&`, the query string of `build_url_params`
    -- reads back as the parameters that are set, in their order.
    pub read_query-build_url_params :
        (p : UrlParams) → read_query (build_url_params quote_plus p) ≡ url_params p
    unfolding build_url_params urlencode read_query pair_text
    read_query-build_url_params p = encoded (url_params p)
      where
        encoded : (pairs : List (Text × Text)) → read_query (urlencode quote_plus pairs) ≡ pairs
        encoded [] = refl
        encoded (pair ∷ []) =
            read_query-cons _ (not_nil (quote_plus pair.0) (quote_plus pair.1) b'=')
            ∙ split-urlencode pair []
        encoded (pair ∷ next ∷ pairs) =
            read_query-cons _
              (not_nil (pair_text quote_plus pair) (urlencode quote_plus (next ∷ pairs)) b'&')
            ∙ split-urlencode pair (next ∷ pairs)
