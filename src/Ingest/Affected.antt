-- ===== src/Ingest/Affected.antt =====
-- pkg/tools/ingest/vuln.go: which packages an OSV record affects.
pub mod Permuted
pub mod Bounds
pub mod Intervals
pub mod Sorting
use sapper.Base.{
  nat_eq, text_eq, ℕ, Text, text, Bool, true, false, not, ◌&&◌, ◌||◌, List, [], ◌∷◌, ◌==◌,
  if◌then◌else◌, elem, any, Ordering,
}
use sapper.Versions.{Semver, compare_versions, is_nonempty}
use sapper.Ingest.Osv.{Event, Range, Affected, Package, Vulnerability, PackageInfo}

abbrev pub get_version_from_event : Event → Text
get_version_from_event e =
    if is_nonempty e.introduced
    then e.introduced
    else if is_nonempty e.fixed
    then e.fixed
    else if is_nonempty e.last_affected
    then e.last_affected
    else []

-- `c >= 0`, `c > 0` and `c < 0` of a comparison.
abbrev pub at_least : Ordering → Bool
at_least Ordering.lt = false
at_least Ordering.eq = true
at_least Ordering.gt = true

abbrev pub above : Ordering → Bool
above Ordering.gt = true
above _ = false

abbrev pub below : Ordering → Bool
below Ordering.lt = true
below _ = false

-- `sort.SliceStable`: the stable sort by `less`, as an insertion sort.
module _ {ℓ} {A : Type ℓ} (less : A → A → Bool) where
  abbrev pub place : A → List A → List A
  place x [] = x ∷ []
  place x (y ∷ ys) = if less y x then y ∷ place x ys else x ∷ y ∷ ys

  abbrev pub stable_sort : List A → List A
  stable_sort [] = []
  stable_sort (x ∷ xs) = place x (stable_sort xs)

module _ {V : Type 0} (sv : Semver V) where
  abbrev pub event_less : Text → Event → Event → Bool
  event_less event_type i j =
      let zi = i.introduced == text "0" in
      let zj = j.introduced == text "0" in
      if zi || zj
      then zi && not zj
      else below
          (compare_versions sv (get_version_from_event i) (get_version_from_event j) event_type)

  unfoldable pub sort_range_events : List Event → Text → List Event
  sort_range_events events event_type = stable_sort (event_less event_type) events

  -- One event, in the order of the sorted list.
  unfoldable pub event_step : Text → Text → Bool → Event → Bool
  event_step version event_type vulnerable e =
      if e.introduced == text "0"
        || is_nonempty e.introduced
          && at_least (compare_versions sv version e.introduced event_type)
      then true
      else if is_nonempty e.fixed && at_least (compare_versions sv version e.fixed event_type)
      then false
      else if is_nonempty e.last_affected
          && above (compare_versions sv version e.last_affected event_type)
      then false
      else vulnerable

  unfoldable pub run_events : Text → Text → Bool → List Event → Bool
  run_events version event_type vulnerable [] = vulnerable
  run_events version event_type vulnerable (e ∷ events) =
      run_events version event_type (event_step version event_type vulnerable e) events

  abbrev pub in_range : Text → Range → Bool
  in_range version r = run_events version r.type false (sort_range_events r.events r.type)

  unfoldable pub is_version_in_ranges : Text → List Range → Bool
  is_version_in_ranges version ranges = any (in_range version) ranges

  unfoldable pub is_version_included : Text → List Text → Bool
  is_version_included version versions = elem version versions

  abbrev pub affects : PackageInfo → Affected → Bool
  affects info a =
      a.pkg.name == info.name
      && a.pkg.ecosystem == info.ecosystem
      && (is_version_included info.version a.versions || is_version_in_ranges info.version a.ranges)

  unfoldable pub is_package_affected : Vulnerability → PackageInfo → Bool
  is_package_affected vuln info = any (affects info) vuln.affected
