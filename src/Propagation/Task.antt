-- ===== src/Propagation/Task.antt =====
-- `propagate_effective_scores` of sbom-graph-enrichment/src/sbom_graph_enrichment/tasks.py: the rows
-- of the two queries, and the updates that are written. The settings of the environment are
-- arguments; the log of the alerts is left out.
use sbom_graph.Prelude.{
  ℕ, suc, Bool, true, false, Option, none, some, List, [], ◌∷◌, ◌++◌, String, ◌==◌, if◌then◌else◌,
  map,
}
use sbom_graph.Dict.{Dict, put, key_list}
use sbom_graph.Propagation.{children_of}
use sbom_graph.Propagation.Scores.{Floats, Scores, lookup_or, propagate}

-- `if p`, for an optional text.
unfoldable pub is_set : Option String → Bool
is_set none = false
is_set (some s) = if s == "" then false else true

unfoldable pub text_of : Option String → String
text_of none = ""
text_of (some s) = s

pub record EdgeRow : Type 0 where
  pub parent_purl : Option String
  pub child_purl : Option String

pub record ScoreRow (F : Type 0) : Type 0 where
  pub purl : Option String
  pub direct_score : Option F

pub record ScoreUpdate (F : Type 0) : Type 0 where
  pub purl : String
  pub effective_score : F
  pub inherited_score : F
  pub min_path_score : F
  pub dep_count : ℕ

-- `children[parent].append(child)`
unfoldable pub append_child : String → String → Dict (List String) → Dict (List String)
unfolding put children_of
append_child parent child children = put parent (children_of children parent ++ child ∷ []) children

unfoldable pub read_edges : List EdgeRow → Dict (List String) → Dict (List String)
unfolding is_set text_of append_child
read_edges [] children = children
read_edges (edge ∷ edges) children = read_edges edges (
    if is_set edge.parent_purl
    then if is_set edge.child_purl
      then append_child (text_of edge.parent_purl) (text_of edge.child_purl) children
      else children
    else children)

-- What the task returns: that it is switched off, or the updates that it has written and the number
-- of alerts.
pub data TaskResult (F : Type 0) : Type 0 where
  skipped : TaskResult F
  written : List (ScoreUpdate F) → ℕ → TaskResult F

module _ {F : Type 0} (fl : Floats F) where
  unfoldable pub read_scores : List (ScoreRow F) → Dict F → Dict F
  unfolding is_set text_of put
  read_scores [] scores = scores
  read_scores (row ∷ rows) scores = read_scores rows (elim row.direct_score [
    | none ↦ scores
    | some ds ↦ if is_set row.purl then put (text_of row.purl) ds scores else scores
  ])

  unfoldable pub update_of : Dict F → Scores F → String → ScoreUpdate F
  unfolding lookup_or
  update_of direct_scores s purl = record {
    purl = purl;
    effective_score = lookup_or purl fl.zero_float s.effective;
    inherited_score = lookup_or purl fl.zero_float s.inherited;
    min_path_score = lookup_or purl (lookup_or purl fl.five_float direct_scores) s.min_path;
    dep_count = lookup_or purl 0 s.dep_counts;
  }

  -- How many of the updates are below the threshold.
  unfoldable pub count_alerts : F → List (ScoreUpdate F) → ℕ
  count_alerts threshold [] = 0
  count_alerts threshold (u ∷ us) =
      let rest = count_alerts threshold us in
      if fl.lt u.effective_score threshold then suc rest else rest

  -- `none` is running out of fuel.
  unfoldable pub propagate_effective_scores :
      Bool → F → F → F → List (ScoreRow F) → List EdgeRow → Option (TaskResult F)
  unfolding read_scores read_edges propagate update_of count_alerts
  propagate_effective_scores false alpha decay threshold score_rows edge_rows = some skipped
  propagate_effective_scores true alpha decay threshold score_rows edge_rows =
      let direct_scores = read_scores score_rows [] in
      elim (propagate fl direct_scores (read_edges edge_rows []) alpha decay) [
        | none ↦ none
        | some s ↦
            let updates = map (update_of direct_scores s) (key_list s.effective) in
            some (written updates (count_alerts threshold updates))
      ]
