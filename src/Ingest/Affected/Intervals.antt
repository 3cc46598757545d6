-- ===== src/Ingest/Affected/Intervals.antt =====
-- A range whose events are the ends of intervals, in whatever order they are listed.
use mathlib.Core.List.{Memᴰ, Permᴰ}
use mathlib.Core.List.Memᴰ
use sapper.Base.{
  nat_eq, text_eq, sym, ap, subst, ◌∙◌, refl, ◌≡◌, ◌⊎◌, ◌≤◌, ◌<◌, inl, inr, ℕ, suc, Text, text,
  Bool, true, false, not, ◌&&◌, ◌||◌, List, [], ◌∷◌, ◌==◌, if◌then◌else◌, any, compare, leb, arith,
  Bool-cases, text_beq,
}
use sapper.Versions.{Semver, compare_versions, is_nonempty}
use sapper.Ingest.Osv.{Event}
use sapper.Ingest.Affected.{
  at_least, below, get_version_from_event, stable_sort, event_less, sort_range_events, event_step,
  run_events, in_range,
}
use sapper.Ingest.Affected.Sorting.{by_key}
use sapper.Ingest.Affected.Permuted.{
  Permᴰ-Memᴰ, stable_sort_agree, stable_sort-Permᴰ, Rising, Rising-Distinct, stable_sort-Rising,
}
use sapper.Ingest.Affected.Bounds.{
  introduced_event, fixed_event, Interval, interval_events, bounds, bound_end, bound_start,
  bound_rest, below-ltb, at_least-leb, or_false, interval_cases,
}

module _ {V : Type 0} (sv : Semver V) (event_type : Text) where
  -- `w` is not before `v`.
  abbrev pub not_before : Text → Text → Bool
  not_before w v = at_least (compare_versions sv w v event_type)

  -- The version is "0", which stands for the start of history, or not after `v`.
  abbrev pub from_version : Text → Text → Bool
  from_version v i = i == text "0" || not_before v i

  abbrev pub in_interval : Text → Interval → Bool
  in_interval v (i, f) = from_version v i && not (not_before v f)

  abbrev fixed_by : Text → List Interval → Bool
  fixed_by v [] = false
  fixed_by v ((i, f) ∷ rest) = not_before v f || fixed_by v rest

  -- The two events of an interval.
  interval_step :
      (v i f : Text) (b : Bool)
      → is_nonempty i ≡ true
      → is_nonempty f ≡ true
      → event_step sv v event_type
          (event_step sv v event_type b (introduced_event i))
          (fixed_event f)
        ≡ (if not_before v f then false else from_version v i || b)
  unfolding event_step
  interval_step v i f b hi hf = ground arith

  module _ (rank : Text → ℕ) where
    -- The versions are compared as their ranks are.
    abbrev pub Ranked : List Text → Type 0
    Ranked versions =
        (a b : Text)
        → Memᴰ a versions
        → Memᴰ b versions
        → compare_versions sv a b event_type ≡ compare (rank a) (rank b)

    abbrev pub start_of : Text → ℕ
    start_of i = if i == text "0" then 0 else suc (rank i)

    -- Every interval begins after the one before it ends, and ends after it begins. Only the first
    -- can begin at "0".
    abbrev pub InOrder : ℕ → List Interval → Type 0
    InOrder low [] = Unit
    InOrder low ((i, f) ∷ rest) =
        (is_nonempty i ≡ true)
        × (is_nonempty f ≡ true)
        × (low ≤ start_of i)
        × (start_of i < suc (rank f))
        × InOrder (suc (suc (rank f))) rest

    abbrev key : Event → ℕ
    key e = if e.introduced == text "0" then 0 else suc (rank (get_version_from_event e))

    interval_events-Rising :
        (low : ℕ) (intervals : List Interval)
        → InOrder low intervals
        → Rising key low (interval_events intervals)
    interval_events-Rising low [] order = tt
    interval_events-Rising low ((i, f) ∷ rest) (hi, hf, high, ends, order) = (
      ground arith,
      (
        ground arith,
        subst (λ l. Rising key l (interval_events rest)) (at_end hf)
            (interval_events-Rising (suc (suc (rank f))) rest order),
      ),
    )
      where
        at_end : is_nonempty f ≡ true → suc (suc (rank f)) ≡ suc (key (fixed_event f))
        at_end hf = ground arith

    -- An event is at the start of history, or at one of the bounds.
    event_version :
        (low : ℕ) (intervals : List Interval) (e : Event)
        → InOrder low intervals
        → Memᴰ e (interval_events intervals)
        → ((e.introduced == text "0") ≡ true) ⊎ Memᴰ (get_version_from_event e) (bounds intervals)
    event_version low [] e order m = absurd (Memᴰ.not-nil m)
    event_version low ((i, f) ∷ rest) e (hi, hf, _, _, order) m = elim (Memᴰ.cases_cons m) [
      | inl same ↦ elim (Bool-cases (text_beq i (text "0"))) [
        | inl zero ↦ inl (ap (λ d. text_beq d.introduced (text "0")) same ∙ zero)
        | inr other ↦ inr (
            subst (λ v. Memᴰ v (bounds ((i, f) ∷ rest)))
              (sym (ap get_version_from_event same ∙ at_start hi)) (bound_start i f rest other))
      ]
      | inr m' ↦ elim (Memᴰ.cases_cons m') [
        | inl same ↦ inr (
            subst (λ v. Memᴰ v (bounds ((i, f) ∷ rest)))
              (sym (ap get_version_from_event same ∙ at_end hf)) (bound_end i f rest))
        | inr m'' ↦ elim (event_version (suc (suc (rank f))) rest e order m'') [
          | inl zero ↦ inl zero
          | inr there ↦ inr (bound_rest i f (get_version_from_event e) rest there)
        ]
      ]
    ]
      where
        at_start : is_nonempty i ≡ true → get_version_from_event (introduced_event i) ≡ i
        at_start h = rw h refl

        at_end : is_nonempty f ≡ true → get_version_from_event (fixed_event f) ≡ f
        at_end h = rw h refl

    less_agree :
        (versions : List Text) (e d : Event)
        → Ranked versions
        → ((e.introduced == text "0") ≡ true) ⊎ Memᴰ (get_version_from_event e) versions
        → ((d.introduced == text "0") ≡ true) ⊎ Memᴰ (get_version_from_event d) versions
        → event_less sv event_type e d ≡ by_key key e d
    less_agree versions e d ranked (inl x) (inl y) = ground arith
    less_agree versions e d ranked (inl x) (inr n) = ground arith
    less_agree versions e d ranked (inr m) (inl y) = ground arith
    less_agree versions e d ranked (inr m) (inr n) = ground (
      arith,
      ap below (ranked (get_version_from_event e) (get_version_from_event d) m n),
      below-ltb (rank (get_version_from_event e)) (rank (get_version_from_event d)),
    )

    -- However the events are listed, they are sorted along the intervals.
    sort_intervals :
        (intervals : List Interval) (events : List Event)
        → Ranked (bounds intervals)
        → InOrder 0 intervals
        → Permᴰ (interval_events intervals) events
        → stable_sort (event_less sv event_type) events ≡ interval_events intervals
    sort_intervals intervals events ranked order p =
        let rising = interval_events-Rising 0 intervals order in
        stable_sort_agree (event_less sv event_type) (by_key key) events (λ e d m n.
          less_agree (bounds intervals) e d ranked
            (event_version 0 intervals e order (Permᴰ-Memᴰ e p m))
            (event_version 0 intervals d order (Permᴰ-Memᴰ d p n)))
        ∙ sym (stable_sort-Permᴰ key p (Rising-Distinct key 0 (interval_events intervals) rising))
        ∙ stable_sort-Rising key 0 (interval_events intervals) rising

    -- A version that a later interval leaves behind is past everything before that interval.
    fixed_late :
        (v : Text) (low : ℕ) (rest : List Interval)
        → ((g : Text) → Memᴰ g (bounds rest) → not_before v g ≡ leb (rank g) (rank v))
        → InOrder low rest
        → fixed_by v rest ≡ true
        → low ≤ rank v
    fixed_late v low [] agree order e = absurd cc
    fixed_late v low ((i, g) ∷ rest) agree (hi, hf, high, ends, order) e =
        elim (Bool-cases (not_before v g)) [
          | inl now ↦ ground (arith, agree g (bound_end i g rest))
          | inr not_yet ↦
              let later : suc (suc (rank g)) ≤ rank v =
                fixed_late v (suc (suc (rank g))) rest (λ h m. agree h (bound_rest i g h rest m))
                  order (ground arith) in
              omega arith
        ]

    run_intervals :
        (v : Text) (b : Bool) (low : ℕ) (intervals : List Interval)
        → ((g : Text) → Memᴰ g (bounds intervals) → not_before v g ≡ leb (rank g) (rank v))
        → InOrder low intervals
        → run_events sv v event_type b (interval_events intervals)
          ≡ (any (in_interval v) intervals || b && not (fixed_by v intervals))
    unfolding run_events
    run_intervals v b low [] agree order = ground arith
    run_intervals v b low ((i, f) ∷ rest) agree (hi, hf, high, ends, order) =
        let agree' : (g : Text) → Memᴰ g (bounds rest) → not_before v g ≡ leb (rank g) (rank v) =
          λ g m. agree g (bound_rest i f g rest m) in
        ap (λ state. run_events sv v event_type state (interval_events rest))
          (interval_step v i f b hi hf)
        ∙ run_intervals v (if not_before v f then false else from_version v i || b)
            (suc (suc (rank f))) rest agree' order
        ∙ interval_cases (from_version v i) (not_before v f) b (any (in_interval v) rest)
            (fixed_by v rest)
            (λ late.
              let past : suc (suc (rank f)) ≤ rank v =
                fixed_late v (suc (suc (rank f))) rest agree' order late in
              ground (arith, agree f (bound_end i f rest)))

    -- When the version and the bounds of the intervals are compared as numbers are, and the intervals
    -- follow one another without touching, a version is in a range with their ends as its events, in
    -- whatever order these are listed, exactly when it is in one of the intervals: introduced there or
    -- before, and not fixed.
    pub in_range-in_interval :
        (v repo : Text) (intervals : List Interval) (events : List Event)
        → Ranked (v ∷ bounds intervals)
        → InOrder 0 intervals
        → Permᴰ (interval_events intervals) events
        → in_range sv v (record { type = event_type; repo = repo; events = events })
          ≡ any (in_interval v) intervals
    unfolding sort_range_events
    in_range-in_interval v repo intervals events ranked order p =
        ap (run_events sv v event_type false) (
          sort_intervals intervals events (λ a b m n. ranked a b (Memᴰ.tail m) (Memᴰ.tail n)) order
            p)
        ∙ run_intervals v false 0 intervals
            (λ g m.
              ap at_least (ranked v g (Memᴰ.head refl) (Memᴰ.tail m))
              ∙ at_least-leb (rank v) (rank g))
            order
        ∙ or_false (any (in_interval v) intervals)
