-- ===== src/Versions.antt =====
-- pkg/tools/ingest/vuln.go: the order of versions. The sign of a comparison is an `Ordering`.
-- github.com/Masterminds/semver is a parameter.
pub mod Antisymmetry
use sapper.Base.{
  nat_eq, text_eq, ℕ, Text, text, Bool, true, false, not, ◌&&◌, ◌||◌, List, [], ◌∷◌, ◌++◌, Option,
  none, some, ◌==◌, if◌then◌else◌, ltb, leb, length, compare, Ordering, compare_text, to_lower,
}

pub record Semver (V : Type 0) : Type 0 where
  pub new_version : Text → Option V
  pub compare_versions : V → V → Ordering

-- Whether a segment is not a number.
abbrev pub is_word : Text → Bool
is_word [] = false
is_word (c ∷ cs) = ltb c 48 || ltb 57 c

abbrev pub is_post_release : Text → Bool
is_post_release s = s == text "post" || s == text "p" || s == text "pl" || s == text "patch"

-- `strings.TrimLeft(s, "0")`
abbrev pub trim_zeros : Text → Text
trim_zeros [] = []
trim_zeros (c ∷ cs) = let rest = trim_zeros cs in if c == 48 then rest else c ∷ cs

-- `strings.TrimPrefix(v, "v")`
abbrev pub trim_v : Text → Text
trim_v [] = []
trim_v (c ∷ cs) = if c == b'v' then cs else c ∷ cs

abbrev pub flush : List Text → Text → List Text
flush parts [] = parts
flush parts (c ∷ cs) = parts ++ (c ∷ cs) ∷ []

abbrev pub is_nonempty : Text → Bool
is_nonempty [] = false
is_nonempty (c ∷ cs) = true

-- The loop of `versionSegments`: the parts, the current run, and whether it is one of digits.
unfoldable pub segments_from : List Text → Text → Bool → Text → List Text
segments_from parts current digit [] = flush parts current
segments_from parts current digit (r ∷ rest) =
    let is_digit = leb b'0' r && leb r b'9' in
    let is_letter = leb b'a' r && leb r b'z' in
    let skipped = segments_from (flush parts current) [] digit rest in
    let broken = segments_from (flush parts current) (r ∷ []) is_digit rest in
    let grown = segments_from parts (current ++ r ∷ []) is_digit rest in
    if not is_digit && not is_letter
    then skipped
    else if is_nonempty current && not (if is_digit then digit else not digit)
    then broken
    else grown

unfoldable pub version_segments : Text → List Text
unfolding segments_from
version_segments v = segments_from [] [] false (to_lower (trim_v v))

-- A comparison that goes on when the parts are equal.
abbrev pub or_else : Ordering → Ordering → Ordering
or_else Ordering.lt rest = Ordering.lt
or_else Ordering.eq rest = rest
or_else Ordering.gt rest = Ordering.gt

-- Two numbers, of any length.
unfoldable pub compare_numbers : Text → Text → Ordering
compare_numbers x y =
    let nx = trim_zeros x in
    let ny = trim_zeros y in or_else (compare (length nx) (length ny)) (compare_text nx ny)

-- One segment, in the place of the other's.
unfoldable pub compare_segments : Text → Text → Ordering
unfolding compare_numbers
compare_segments x y =
    if not (is_word x) && not (is_word y)
    then compare_numbers x y
    else if is_word x && not (is_word y)
    then (if is_post_release x then Ordering.gt else Ordering.lt)
    else if not (is_word x) && is_word y
    then (if is_post_release y then Ordering.lt else Ordering.gt)
    else compare_text x y

-- What a segment says that the other version has no counterpart for.
abbrev pub is_pre_release : Text → Bool
is_pre_release s = is_word s && not (is_post_release s)

unfoldable pub compare_all_segments : List Text → List Text → Ordering
unfolding compare_segments
compare_all_segments [] [] = Ordering.eq
compare_all_segments [] (y ∷ ys) = if is_pre_release y then Ordering.gt else Ordering.lt
compare_all_segments (x ∷ xs) [] = if is_pre_release x then Ordering.lt else Ordering.gt
compare_all_segments (x ∷ xs) (y ∷ ys) = or_else (compare_segments x y) (compare_all_segments xs ys)

unfoldable pub natural_compare : Text → Text → Ordering
unfolding version_segments compare_all_segments
natural_compare v1 v2 = compare_all_segments (version_segments v1) (version_segments v2)

module _ {V : Type 0} (sv : Semver V) where
  unfoldable pub compare_ecosystem_versions : Text → Text → Ordering
  compare_ecosystem_versions v1 v2 = elim (sv.new_version v1) [
    | none ↦ natural_compare v1 v2
    | some a ↦ elim (sv.new_version v2) [
      | none ↦ natural_compare v1 v2
      | some b ↦ sv.compare_versions a b
    ]
  ]

  unfoldable pub compare_semver : Text → Text → Ordering
  compare_semver v1 v2 = elim (sv.new_version v1) [
    | none ↦ compare_text v1 v2
    | some a ↦ elim (sv.new_version v2) [
      | none ↦ compare_text v1 v2
      | some b ↦ sv.compare_versions a b
    ]
  ]

  -- GIT ranges and unknown types compare as strings.
  unfoldable pub compare_versions : Text → Text → Text → Ordering
  compare_versions v1 v2 event_type =
      if event_type == text "SEMVER"
      then compare_semver v1 v2
      else if event_type == text "ECOSYSTEM"
      then compare_ecosystem_versions v1 v2
      else compare_text v1 v2
