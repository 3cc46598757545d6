-- ===== src/Versions/Antisymmetry.antt =====
-- The order does not depend on which version stands first.
use sapper.Base.{
  nat_eq, text_eq, ◌∙◌, refl, ℕ, ◌≡◌, Text, Bool, true, false, not, ◌&&◌, List, [], ◌∷◌, Option,
  none, some, if◌then◌else◌, compare, Ordering, compare_text, arith,
}
use sapper.Versions.{
  Semver, is_word, is_post_release, is_pre_release, or_else, compare_numbers, compare_segments,
  compare_all_segments, natural_compare, version_segments, compare_versions, compare_semver,
  compare_ecosystem_versions,
}

abbrev pub flip : Ordering → Ordering
flip Ordering.lt = Ordering.gt
flip Ordering.eq = Ordering.eq
flip Ordering.gt = Ordering.lt

flip-compare : (a b : ℕ) → flip (compare a b) ≡ compare b a
flip-compare a b = ground arith

pub flip-compare_text : (s t : Text) → flip (compare_text s t) ≡ compare_text t s
flip-compare_text [] [] = refl
flip-compare_text [] (y ∷ ys) = refl
flip-compare_text (x ∷ xs) [] = refl
flip-compare_text (x ∷ xs) (y ∷ ys) = ground (arith, flip-compare_text xs ys)

flip-or_else : (a b : Ordering) → flip (or_else a b) ≡ or_else (flip a) (flip b)
flip-or_else Ordering.lt b = refl
flip-or_else Ordering.eq b = refl
flip-or_else Ordering.gt b = refl

flip-compare_numbers : (x y : Text) → flip (compare_numbers x y) ≡ compare_numbers y x
unfolding compare_numbers
flip-compare_numbers x y = rw (flip-or_else, flip-compare, flip-compare_text) refl

-- `compareSegments` never asks which operand is first, but where both are words or both are not.
flip-compare_segments : (x y : Text) → flip (compare_segments x y) ≡ compare_segments y x
unfolding compare_segments
flip-compare_segments x y = split (is_word x) (is_word y) (is_post_release x) (is_post_release y)
  where
    split :
        (wx wy px py : Bool)
        → flip (
            if not wx && not wy
            then compare_numbers x y
            else if wx && not wy
            then (if px then Ordering.gt else Ordering.lt)
            else if not wx && wy
            then (if py then Ordering.lt else Ordering.gt)
            else compare_text x y)
          ≡ (if not wy && not wx
              then compare_numbers y x
              else if wy && not wx
              then (if py then Ordering.gt else Ordering.lt)
              else if not wy && wx
              then (if px then Ordering.lt else Ordering.gt)
              else compare_text y x)
    split wx wy px py = ground (arith, flip-compare_numbers x y, flip-compare_text x y)

flip-if_gt :
    (b : Bool)
    → flip (if b then Ordering.gt else Ordering.lt) ≡ (if b then Ordering.lt else Ordering.gt)
flip-if_gt true = refl
flip-if_gt false = refl

flip-if_lt :
    (b : Bool)
    → flip (if b then Ordering.lt else Ordering.gt) ≡ (if b then Ordering.gt else Ordering.lt)
flip-if_lt true = refl
flip-if_lt false = refl

flip-compare_all_segments :
    (a b : List Text) → flip (compare_all_segments a b) ≡ compare_all_segments b a
unfolding compare_all_segments
flip-compare_all_segments [] [] = refl
flip-compare_all_segments [] (y ∷ ys) = flip-if_gt (is_pre_release y)
flip-compare_all_segments (x ∷ xs) [] = flip-if_lt (is_pre_release x)
flip-compare_all_segments (x ∷ xs) (y ∷ ys) =
    flip-or_else (compare_segments x y) (compare_all_segments xs ys)
    ∙ rw (flip-compare_segments x y, flip-compare_all_segments xs ys) refl

-- `naturalCompare` of two versions in the other order gives the opposite sign.
pub flip-natural_compare : (v1 v2 : Text) → flip (natural_compare v1 v2) ≡ natural_compare v2 v1
unfolding natural_compare
flip-natural_compare v1 v2 = flip-compare_all_segments (version_segments v1) (version_segments v2)

module _ {V : Type 0} (sv : Semver V) where
  module _ (h : (a b : V) → flip (sv.compare_versions a b) ≡ sv.compare_versions b a)
      (v1 v2 : Text) where
    flip-compare_semver : flip (compare_semver sv v1 v2) ≡ compare_semver sv v2 v1
    unfolding compare_semver
    flip-compare_semver = read (sv.new_version v1) (sv.new_version v2)
      where
        read :
            (a b : Option V)
            → flip (elim a [
              | none ↦ compare_text v1 v2
              | some x ↦ elim b [ none ↦ compare_text v1 v2 | some y ↦ sv.compare_versions x y ]
            ])
              ≡ (elim b [
                | none ↦ compare_text v2 v1
                | some y ↦ elim a [ none ↦ compare_text v2 v1 | some x ↦ sv.compare_versions y x ]
              ])
        read none none = flip-compare_text v1 v2
        read none (some y) = flip-compare_text v1 v2
        read (some x) none = flip-compare_text v1 v2
        read (some x) (some y) = h x y

    flip-compare_ecosystem :
        flip (compare_ecosystem_versions sv v1 v2) ≡ compare_ecosystem_versions sv v2 v1
    unfolding compare_ecosystem_versions
    flip-compare_ecosystem = read (sv.new_version v1) (sv.new_version v2)
      where
        read :
            (a b : Option V)
            → flip (elim a [
              | none ↦ natural_compare v1 v2
              | some x ↦ elim b [ none ↦ natural_compare v1 v2 | some y ↦ sv.compare_versions x y ]
            ])
              ≡ (elim b [
                | none ↦ natural_compare v2 v1
                | some y ↦ elim a [
                  | none ↦ natural_compare v2 v1
                  | some x ↦ sv.compare_versions y x
                ]
              ])
        read none none = flip-natural_compare v1 v2
        read none (some y) = flip-natural_compare v1 v2
        read (some x) none = flip-natural_compare v1 v2
        read (some x) (some y) = h x y

  -- Where the semver library's order is antisymmetric, so is the order of versions, for every type of
  -- range and for versions that the library cannot read.
  pub flip-compare_versions :
      ((a b : V) → flip (sv.compare_versions a b) ≡ sv.compare_versions b a)
      → (v1 v2 event_type : Text)
      → flip (compare_versions sv v1 v2 event_type) ≡ compare_versions sv v2 v1 event_type
  unfolding compare_versions
  flip-compare_versions h v1 v2 event_type =
      ground (
        arith,
        flip-compare_semver h v1 v2,
        flip-compare_ecosystem h v1 v2,
        flip-compare_text v1 v2,
      )
