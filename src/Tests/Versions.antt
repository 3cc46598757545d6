-- ===== src/Tests/Versions.antt =====
-- The order of versions, and ranges of versions.
use mathlib.Core.List.{Memᴰ, Permᴰ}
use mathlib.Core.List.Memᴰ
use mathlib.Core.List.Permᴰ.{cons, swap, trans}
use sapper.Base.{
  sym, subst, inl, inr, Option, none, ok, err, nat_eq, text_eq, ℕ, ◌≡◌, refl, true, false, List, [],
  ◌∷◌, some, Text, text, Ordering, compare, any, arith,
}
use sapper.Versions.{
  Semver, natural_compare, compare_versions, compare_semver, version_segments, segments_from,
  compare_all_segments, compare_segments, compare_numbers,
}
use sapper.Versions.Antisymmetry.{flip, flip-natural_compare, flip-compare_versions}
use sapper.Ingest.Affected.{in_range, sort_range_events, run_events, event_step}
use sapper.Ingest.Osv.{Event}
use sapper.Numbers.{str_to_uint32, parse_digits}
use sapper.Ingest.Affected.Bounds.{introduced_event, fixed_event, bounds, interval_events}
use sapper.Ingest.Affected.Intervals.{Ranked, InOrder, in_interval, in_range-in_interval}

natural_run :
    (natural_compare (text "1.10") (text "1.9") ≡ Ordering.gt)
    × (natural_compare (text "1.0-rc1") (text "v1.0") ≡ Ordering.lt)
    × (natural_compare (text "1.0.post1") (text "1.0") ≡ Ordering.gt)
unfolding natural_compare version_segments segments_from compare_all_segments compare_segments
    compare_numbers
natural_run = (refl, refl, refl)

flip-natural_compare_example :
    flip (natural_compare (text "1.10") (text "1.9")) ≡ natural_compare (text "1.9") (text "1.10")
flip-natural_compare_example = flip-natural_compare (text "1.10") (text "1.9")

-- A library that reads every version and has no order on them.
abbrev indifferent : Semver Text
indifferent = record { new_version = λ v. some v; compare_versions = λ _ _. Ordering.eq }

flip-compare_versions_example :
    flip (compare_versions indifferent (text "1.0") (text "2.0") (text "GIT"))
    ≡ compare_versions indifferent (text "2.0") (text "1.0") (text "GIT")
flip-compare_versions_example =
    flip-compare_versions indifferent (λ _ _. refl) (text "1.0") (text "2.0") (text "GIT")

-- A library of versions that are one number.
abbrev read_number : Text → Option ℕ
read_number v = elim (str_to_uint32 v) [ ok n ↦ some n | err _ ↦ none ]

abbrev decimal : Semver ℕ
decimal = record { new_version = read_number; compare_versions = compare }

abbrev number_of : Text → ℕ
number_of v = elim (str_to_uint32 v) [ ok n ↦ n | err _ ↦ 0 ]

abbrev two_intervals : List (Text × Text)
two_intervals = (text "0", text "3") ∷ (text "5", text "10") ∷ []

-- As texts the bounds are in another order, and the events are listed in a third.
abbrev shuffled : List Event
shuffled =
    introduced_event (text "5")
    ∷ introduced_event (text "0")
    ∷ fixed_event (text "10")
    ∷ fixed_event (text "3")
    ∷ []

shuffled-Permᴰ : Permᴰ (interval_events two_intervals) shuffled
shuffled-Permᴰ =
    trans (cons refl (swap refl refl))
      (trans (swap refl refl) (cons refl (cons refl (swap refl refl))))

abbrev occurring : List Text
occurring = text "9" ∷ bounds two_intervals

each :
    (P : Text → Type 0)
    → P (text "9")
    → P (text "3")
    → P (text "5")
    → P (text "10")
    → (a : Text) → Memᴰ a occurring
    → P a
each P p q r s a m = elim (Memᴰ.cases_cons m) [
  | inl e ↦ subst P (sym e) p
  | inr m ↦ elim (Memᴰ.cases_cons m) [
    | inl e ↦ subst P (sym e) q
    | inr m ↦ elim (Memᴰ.cases_cons m) [
      | inl e ↦ subst P (sym e) r
      | inr m ↦ elim (Memᴰ.cases_cons m) [
        | inl e ↦ subst P (sym e) s
        | inr m ↦ absurd (Memᴰ.not-nil m)
      ]
    ]
  ]
]

abbrev Agrees : Text → Text → Type 0
Agrees a b = compare_versions decimal a b (text "SEMVER") ≡ compare (number_of a) (number_of b)

decimal-Ranked : Ranked decimal (text "SEMVER") number_of occurring
unfolding compare_versions compare_semver str_to_uint32 parse_digits
decimal-Ranked a b m n =
    each (λ x. Agrees x b) (each (Agrees (text "9")) refl refl refl refl b n)
      (each (Agrees (text "3")) refl refl refl refl b n)
      (each (Agrees (text "5")) refl refl refl refl b n)
      (each (Agrees (text "10")) refl refl refl refl b n) a m

two_intervals-InOrder : InOrder decimal (text "SEMVER") number_of 0 two_intervals
unfolding str_to_uint32 parse_digits
two_intervals-InOrder =
    (refl, refl, omega arith, omega arith, (refl, refl, omega arith, omega arith, tt))

in_range-in_interval_example :
    in_range decimal (text "9") (record { type = text "SEMVER"; repo = []; events = shuffled })
    ≡ any (in_interval decimal (text "SEMVER") (text "9")) two_intervals
in_range-in_interval_example =
    in_range-in_interval decimal (text "SEMVER") number_of (text "9") [] two_intervals shuffled
      decimal-Ranked two_intervals-InOrder shuffled-Permᴰ

-- The version between the two intervals is not affected, and the one in the second is.
in_range_run :
    (in_range decimal (text "4") (record { type = text "SEMVER"; repo = []; events = shuffled })
      ≡ false)
    × (in_range decimal (text "9") (record { type = text "SEMVER"; repo = []; events = shuffled })
        ≡ true)
unfolding compare_versions compare_semver str_to_uint32 parse_digits sort_range_events run_events
    event_step
in_range_run = (refl, refl)
