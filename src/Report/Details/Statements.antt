-- ===== src/Report/Details/Statements.antt =====
-- What the stored VEX statements say of a product, and that `buildFinding` finds it.
use sapper.Base.{
  nat_eq, text_eq, ap, refl, ◌∙◌, ◌≡◌, ◌⊎◌, inl, inr, Text, text, Map, lookup, insert,
  lookup-insert, Bool, true, false, List, [], ◌∷◌, ◌++◌, Option, none, some, Result, ok, err, ◌==◌,
  if◌then◌else◌, arith, Bool-cases, Option-cases, text_beq, text_beq_iff,
}
use sapper.Graph.{Store, GraphError}
use sapper.Graph.Storage.{get_custom_data}
use sapper.Report.{Product}
use sapper.Report.Details.{
  Formats, collect_vex, add_vex, add_statements, statement_for, last, is_suppressed,
}

module _ {V : Type 0} where
  abbrev pub or_else : Option V → Option V → Option V
  or_else none other = other
  or_else (some v) other = some v

  or_else_assoc : (a b c : Option V) → or_else a (or_else b c) ≡ or_else (or_else a b) c
  or_else_assoc none b c = refl
  or_else_assoc (some v) b c = refl

module _ {B M K S V : Type 0} (format : Formats M K S V) (s : Store B M) where
  -- The last field of the hash that is about the product and can be decoded.
  abbrev pub last_field : Map Text Text → Text → Option V
  last_field [] product = none
  last_field ((key, raw) ∷ rest) product =
      or_else (last_field rest product) (if key == product then format.vex raw else none)

  abbrev pub field_stated : Result GraphError (Map Text Text) → Text → Option V
  field_stated (err e) product = none
  field_stated (ok fields) product = last_field fields product

  -- What is stored about the product under the last of the names under which something is.
  abbrev pub stated : List Text → Text → Option V
  stated [] product = none
  stated (name ∷ names) product =
      or_else (stated names product) (field_stated (get_custom_data s (text "vex") name) product)

  lookup-add_statements :
      (fields : Map Text Text) (vex : Map Text V) (product : Text)
      → lookup product (add_statements format s fields vex)
        ≡ or_else (last_field fields product) (lookup product vex)
  lookup-add_statements [] vex product = refl
  lookup-add_statements ((key, raw) ∷ rest) vex product = elim (Option-cases (format.vex raw)) [
    | inl bad ↦ rw bad (
        lookup-add_statements rest vex product
        ∙ ap (λ o. or_else o (lookup product vex)) (nothing (text_beq key product)))
    | inr (v, good) ↦ rw good (
        lookup-add_statements rest (insert key v vex) product
        ∙ ap (or_else (last_field rest product))
            (lookup-insert key product v vex ∙ chosen v (text_beq key product))
        ∙ or_else_assoc (last_field rest product) (if text_beq key product then some v else none)
            (lookup product vex))
  ]
    where
      nothing :
          (b : Bool)
          → last_field rest product ≡ or_else (last_field rest product) (if b then none else none)
      nothing b = ground arith

      chosen :
          (v : V) (b : Bool)
          → (if b then some v else lookup product vex)
            ≡ or_else (if b then some v else none) (lookup product vex)
      chosen v true = refl
      chosen v false = refl

  lookup-add_vex :
      (fields : Result GraphError (Map Text Text)) (vex : Map Text V) (product : Text)
      → lookup product (add_vex format s fields vex)
        ≡ or_else (field_stated fields product) (lookup product vex)
  lookup-add_vex (err e) vex product = refl
  lookup-add_vex (ok fields) vex product = lookup-add_statements fields vex product

  lookup-collect_vex :
      (names : List Text) (vex : Map Text V) (product : Text)
      → lookup product (collect_vex format s names vex)
        ≡ or_else (stated names product) (lookup product vex)
  unfolding collect_vex
  lookup-collect_vex [] vex product = refl
  lookup-collect_vex (name ∷ names) vex product =
      let fields = get_custom_data s (text "vex") name in
      lookup-collect_vex names (add_vex format s fields vex) product
      ∙ ap (or_else (stated names product)) (lookup-add_vex fields vex product)
      ∙ or_else_assoc (stated names product) (field_stated fields product) (lookup product vex)

  or_none : (o : Option V) → or_else o none ≡ o
  or_none none = refl
  or_none (some v) = refl

  collected :
      (names : List Text) (product : Text)
      → lookup product (collect_vex format s names []) ≡ stated names product
  unfolding lookup
  collected names product = lookup-collect_vex names [] product ∙ or_none (stated names product)

  -- The statement of a product is about it or, if there is none, about the package that its path
  -- ends in.
  abbrev pub Stated : List Text → Product V → Type 0
  Stated names p =
      (front : List Text) × (pkg : Text) × (p.path ≡ front ++ pkg ∷ [])
      × (p.vex ≡ or_else (stated names p.name) (stated names pkg))

  ends :
      (first : Text) (rest : List Text)
      → (front : List Text) × (first ∷ rest ≡ front ++ last first rest ∷ [])
  ends first [] = ([], refl)
  ends first (second ∷ rest) =
      let (front, e) = ends second rest in (first ∷ front, ap (λ l. first ∷ l) e)

  statement_for-or_else :
      (vex : Map Text V) (first : Text) (rest : List Text) (name : Text)
      → statement_for vex (first ∷ rest) name
        ≡ or_else (lookup name vex) (lookup (last first rest) vex)
  unfolding statement_for
  statement_for-or_else vex first rest name = elim (Option-cases (lookup name vex)) [
    | inl e ↦ rw (e, statement_for) refl
    | inr (v, e) ↦ rw (e, statement_for) refl
  ]

  pub statement_for-Stated :
      (names : List Text) (p : Product V) (rest : List Text)
      → p.path ≡ p.name ∷ rest
      → p.vex ≡ statement_for (collect_vex format s names []) p.path p.name
      → Stated names p
  statement_for-Stated names p rest path vex =
      let (front, e) = ends p.name rest in
      (
        front,
        last p.name rest,
        path ∙ e,
        vex
            ∙ ap (λ l. statement_for (collect_vex format s names []) l p.name) path
            ∙ statement_for-or_else (collect_vex format s names []) p.name rest p.name
            ∙ ap (λ o. or_else o (lookup (last p.name rest) (collect_vex format s names [])))
                (collected names p.name)
            ∙ ap (or_else (stated names p.name)) (collected names (last p.name rest)),
      )

  -- The statement says that the product is safe.
  abbrev pub IsCleared : Product V → Type 0
  IsCleared p =
      (v : V) × (p.vex ≡ some v)
      × ((format.status v ≡ text "not_affected") ⊎ (format.status v ≡ text "fixed"))

  pub is_suppressed-IsCleared : (p : Product V) → is_suppressed format p ≡ true → IsCleared p
  is_suppressed-IsCleared p h = elim (Option-cases p.vex) [
    | inl e ↦ absurd (ground arith)
    | inr (v, e) ↦ elim (Bool-cases (text_beq (format.status v) (text "not_affected"))) [
      | inl a ↦ (v, e, inl ((text_beq_iff (format.status v) (text "not_affected")).0 a))
      | inr b ↦ (v, e, inr ((text_beq_iff (format.status v) (text "fixed")).0 (ground arith)))
    ]
  ]

  pub IsCleared-is_suppressed : (p : Product V) → is_suppressed format p ≡ false → ¬ IsCleared p
  IsCleared-is_suppressed p h (v, e, o) = elim o [
    | inl a ↦ ground (arith, text_beq_iff (format.status v) (text "not_affected"))
    | inr b ↦ ground (arith, text_beq_iff (format.status v) (text "fixed"))
  ]
