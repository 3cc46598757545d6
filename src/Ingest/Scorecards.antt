-- ===== src/Ingest/Scorecards.antt =====
-- pkg/tools/ingest/scorecard.go: the loading of OpenSSF scorecards. The JSON decoder and the parser of
-- package URLs are parameters; a result's metadata is the result itself, as it is stored.
pub mod Named
use sapper.Base.{
  nat_eq, text_eq, ℕ, Text, text, Map, lookup, insert, Bool, List, [], ◌∷◌, ◌++◌, Option, none,
  some, ◌==◌, if◌then◌else◌,
}
use sapper.Bitmap.{Bitmaps}
use sapper.Graph.{Node, Action, ◌>>=◌, return, throw, reading, parse_failed}
use sapper.Graph.Storage.{get_all_keys, get_nodes}
use sapper.Graph.Edit.{add_node, set_dependency}
use sapper.Ingest.Loader.{is_indexed}
use sapper.Ingest.Osv.{PackageInfo}
use sapper.Ingest.Purl.{PackageUrl, purl_to_package}

pub record ScorecardResult (M : Type 0) : Type 0 where
  pub purl : Text
  pub success : Bool
  pub metadata : M

abbrev pub get_scorecard_node_name : Text → Text
get_scorecard_node_name name = text "scorecard:" ++ name

module _ {M : Type 0} where
  -- A missing key is an empty list.
  abbrev pub results_named : Text → Map Text (List (ScorecardResult M)) → List (ScorecardResult M)
  results_named name grouped = elim (lookup name grouped) [ none ↦ [] | some results ↦ results ]

module _ {M : Type 0} (from_string : Text → Option PackageUrl) where
  abbrev pub add_result :
      ScorecardResult M → Map Text (List (ScorecardResult M)) → Map Text (List (ScorecardResult M))
  add_result r grouped = elim (from_string r.purl) [
    | none ↦ grouped
    | some u ↦
        if u.name == []
        then grouped
        else insert u.name (results_named u.name grouped ++ r ∷ []) grouped
  ]

  -- The loop over the results.
  unfoldable pub group_results :
      List (ScorecardResult M)
      → Map Text (List (ScorecardResult M))
      → Map Text (List (ScorecardResult M))
  group_results [] grouped = grouped
  group_results (r ∷ rest) grouped =
      group_results rest (if r.success then add_result r grouped else grouped)

module _ {B M : Type 0} ⦃bm : Bitmaps B⦄ (from_string : Text → Option PackageUrl) where
  -- The node, as it is after the call, goes on to the next result.
  abbrev pub link_result : Node B M → ScorecardResult M → Action B M (Node B M)
  link_result node r =
      add_node (text "scorecard") r.metadata (get_scorecard_node_name r.purl) >>= λ scorecard_node.
      set_dependency (some node) (some scorecard_node) >>= λ linked. return linked.0

  -- The loop over the results of the package's name.
  unfoldable pub link_results : Text → Node B M → List (ScorecardResult M) → Action B M (Unit {0})
  unfolding purl_to_package
  link_results version node [] = return tt
  link_results version node (r ∷ rest) =
      let skip = link_results version node rest in
      let link = link_result node r >>= λ next. link_results version next rest in
      if r.success
      then elim (purl_to_package from_string r.purl) [
        | none ↦ skip
        | some scorecard ↦ if scorecard.version == version then link else skip
      ]
      else skip

  abbrev pub link_package :
      Map Text (List (ScorecardResult M)) → Node B M → Option PackageInfo → Action B M (Unit {0})
  link_package grouped node none = return tt
  link_package grouped node (some info) =
      link_results info.version node (results_named info.name grouped)

  unfoldable pub score_node : Map Text (List (ScorecardResult M)) → Node B M → Action B M (Unit {0})
  unfolding link_results
  score_node grouped node =
      if is_indexed from_string node
      then link_package grouped node (purl_to_package from_string node.name)
      else return tt

  -- The loop over the nodes.
  unfoldable pub score_nodes :
      Map Text (List (ScorecardResult M)) → Map ℕ (Node B M) → Action B M (Unit {0})
  unfolding score_node
  score_nodes grouped [] = return tt
  score_nodes grouped ((_, node) ∷ rest) = score_node grouped node >>= λ _. score_nodes grouped rest

  unfoldable pub scorecards :
      (Text → Option (List (ScorecardResult M))) → Text → Action B M (Unit {0})
  unfolding score_nodes group_results
  scorecards decode [] = throw (parse_failed [])
  scorecards decode (c ∷ cs) = elim (decode (c ∷ cs)) [
    | none ↦ throw (parse_failed (c ∷ cs))
    | some results ↦ reading get_all_keys >>= λ keys. reading (λ s. get_nodes s keys) >>= λ nodes.
        score_nodes (group_results from_string results []) nodes
  ]
