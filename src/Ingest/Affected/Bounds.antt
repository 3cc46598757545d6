-- ===== src/Ingest/Affected/Bounds.antt =====
-- The events of a range whose events are the ends of intervals.
use mathlib.Core.List.{Memᴰ}
use sapper.Base.{
  nat_eq, text_eq, refl, ◌≡◌, inl, inr, ℕ, Text, text, Bool, true, false, not, ◌&&◌, ◌||◌, List, [],
  ◌∷◌, ◌==◌, if◌then◌else◌, Ordering, compare, ltb, leb, arith, Bool-cases, text_beq,
}
use sapper.Ingest.Osv.{Event}
use sapper.Ingest.Affected.{at_least, below}

abbrev pub introduced_event : Text → Event
introduced_event v = record { introduced = v; fixed = []; last_affected = []; limit = [] }

abbrev pub fixed_event : Text → Event
fixed_event v = record { introduced = []; fixed = v; last_affected = []; limit = [] }

-- From the first version (included) up to the second (excluded).
abbrev pub Interval : Type 0
Interval = Text × Text

abbrev pub interval_events : List Interval → List Event
interval_events [] = []
interval_events ((i, f) ∷ rest) = introduced_event i ∷ fixed_event f ∷ interval_events rest

-- The versions at which intervals begin and end. "0" is none: it stands for the start of history.
abbrev pub bounds : List Interval → List Text
bounds [] = []
bounds ((i, f) ∷ rest) =
    let others = f ∷ bounds rest in if i == text "0" then others else i ∷ others

pub bound_end : (i f : Text) (rest : List Interval) → Memᴰ f (bounds ((i, f) ∷ rest))
bound_end i f rest = elim (Bool-cases (text_beq i (text "0"))) [
  | inl e ↦ rw e (Memᴰ.head refl)
  | inr e ↦ rw e (Memᴰ.tail (Memᴰ.head refl))
]

pub bound_start :
    (i f : Text) (rest : List Interval)
    → text_beq i (text "0") ≡ false
    → Memᴰ i (bounds ((i, f) ∷ rest))
bound_start i f rest e = rw e (Memᴰ.head refl)

pub bound_rest :
    (i f g : Text) (rest : List Interval) → Memᴰ g (bounds rest) → Memᴰ g (bounds ((i, f) ∷ rest))
bound_rest i f g rest m = elim (Bool-cases (text_beq i (text "0"))) [
  | inl e ↦ rw e (Memᴰ.tail m)
  | inr e ↦ rw e (Memᴰ.tail (Memᴰ.tail m))
]

pub below-ltb : (m n : ℕ) → below (compare m n) ≡ ltb m n
below-ltb m n = split (compare m n)
  where
    split :
        (o : Ordering)
        → below o ≡ (elim o [ Ordering.lt ↦ true | Ordering.eq ↦ false | Ordering.gt ↦ false ])
    split Ordering.lt = refl
    split Ordering.eq = refl
    split Ordering.gt = refl

pub at_least-leb : (m n : ℕ) → at_least (compare m n) ≡ leb n m
at_least-leb m n = ground arith

pub or_false : (b : Bool) → (b || false) ≡ b
or_false true = refl
or_false false = refl

pub interval_cases :
    (from until b later gone : Bool)
    → (gone ≡ true → until ≡ true)
    → (later || (if until then false else from || b) && not gone)
      ≡ ((from && not until || later) || b && not (until || gone))
interval_cases from until b later gone h = ground arith
