-- ===== src/Report/Build.antt =====
-- pkg/report/report.go: `Build`. Floating-point numbers are a parameter.
pub mod Urgent
use sapper.Base.{
  nat_eq, text_eq, ℕ, Text, text, Map, Bool, true, false, not, ◌&&◌, ◌||◌, List, [], ◌∷◌, Option,
  none, some, Result, ok, err, ◌>>=◌, ◌==◌, if◌then◌else◌, ltb, length, filter, elem, to_upper,
  trim_space, nat_beq,
}
use sapper.Bitmap.{Bitmaps}
use sapper.Graph.{Node, Store, GraphError, nil_dereference}
use sapper.Graph.Storage.{get_all_keys, get_nodes}
use sapper.Ingest.Affected.{stable_sort}
use sapper.Ingest.Priorities.{vulnerability_names}
use sapper.Report.{Finding}
use sapper.Report.Merge.{before, names_of, merge_aliases}
use sapper.Report.Details.{Formats, build_finding}

-- float64, as far as `Build` uses it, and the score of an EPSS entry.
pub record Floats (F S : Type 0) : Type 0 where
  pub less : F → F → Bool
  pub differ : F → F → Bool
  pub zero_float : F
  pub minus_one : F
  pub score : S → F

pub record Options (F : Type 0) : Type 0 where
  pub vulnerability : Text
  pub kev_only : Bool
  pub min_epss : F

module _ {A : Type 0} where
  abbrev pub is_some : Option A → Bool
  is_some none = false
  is_some (some a) = true

module _ {F S : Type 0} (fl : Floats F S) where
  abbrev pub too_low : F → Option S → Bool
  too_low min none = true
  too_low min (some s) = fl.less (fl.score s) min

module _ {F K S V : Type 0} (fl : Floats F S) where
  unfoldable pub epss_of : Finding K S V → F
  epss_of f = elim f.epss [ none ↦ fl.minus_one | some s ↦ fl.score s ]

  -- The filters, after the merging.
  unfoldable pub is_kept : Options F → Finding K S V → Bool
  is_kept opts f =
      let want = to_upper (trim_space opts.vulnerability) in
      (want == [] || elem want (names_of f))
      && (not opts.kev_only || is_some f.kev)
      && (not (fl.less fl.zero_float opts.min_epss) || not (too_low fl opts.min_epss f.epss))

  -- The most urgent first.
  unfoldable pub more_urgent : Finding K S V → Finding K S V → Bool
  unfolding epss_of
  more_urgent a b =
      if is_some a.kev && not (is_some b.kev) || not (is_some a.kev) && is_some b.kev
      then is_some a.kev
      else if fl.differ (epss_of a) (epss_of b)
      then fl.less (epss_of b) (epss_of a)
      else if not (nat_beq (length a.products) (length b.products))
      then ltb (length b.products) (length a.products)
      else before a.id b.id

module _ {B M K S V : Type 0} ⦃bm : Bitmaps B⦄ (format : Formats M K S V) where
  -- The loop over the nodes.
  unfoldable pub build_each :
      Store B M → Map ℕ (Node B M) → Map ℕ (Node B M) → Result GraphError (List (Finding K S V))
  build_each s nodes [] = ok []
  build_each s nodes ((_, node) ∷ rest) =
      let others = build_each s nodes rest in
      if node.type == text "vuln"
      then elim (build_finding format s nodes node
          (vulnerability_names format.vulnerability node)) [
            | none ↦ err nil_dereference
            | some finding ↦ others >>= λ findings. ok (finding ∷ findings)
          ]
      else others

module _ {B M F K S V : Type 0} ⦃bm : Bitmaps B⦄ (format : Formats M K S V) where
  unfoldable pub build :
      Floats F S → Store B M → Options F → Result GraphError (List (Finding K S V))
  build fl s opts = get_all_keys s >>= λ keys. get_nodes s keys >>= λ nodes.
      build_each format s nodes nodes >>= λ findings. ok (
        stable_sort (more_urgent fl)
          (filter (is_kept fl opts) (merge_aliases format.above findings)))
