-- ===== src/Ingest/Scorecards/Named.antt =====
-- Under which name a scorecard is found.
use sapper.Base.{
  nat_eq, text_eq, refl, sym, ap, subst, ◌∙◌, ◌≡◌, ◌≢◌, inl, inr, Text, text, Map, lookup, insert,
  lookup-insert, Bool, true, false, not, ◌&&◌, ◌||◌, List, [], ◌∷◌, ◌++◌, Option, none, some, ok,
  ◌==◌, if◌then◌else◌, elem, elem-append, filter, arith, Bool-cases, Option-cases, text_beq,
  text_beq_iff,
}
use mathlib.Core.List.{Memᴰ}
use sapper.Bitmap.{Bitmaps}
use sapper.Graph.{Node, Store, return}
use sapper.Ingest.Loader.{is_indexed}
use sapper.Versions.{is_nonempty}
use sapper.Ingest.Purl.{PackageUrl, purl_to_package, get_purl_ecosystem, full_name}
use sapper.Ingest.Scorecards.{
  ScorecardResult, results_named, add_result, group_results, link_package, link_results, score_node,
}

module _ {M : Type 0} (from_string : Text → Option PackageUrl) where
  -- The result is a success, and that is the name, without namespace, in its package URL.
  abbrev pub is_named : Text → ScorecardResult M → Bool
  is_named name r =
      r.success
      && elim (from_string r.purl) [ none ↦ false | some u ↦ not (u.name == []) && u.name == name ]

  abbrev taken : Text → ScorecardResult M → List (ScorecardResult M) → List (ScorecardResult M)
  taken name r rest = if is_named name r then r ∷ rest else rest

  append_assoc : (xs ys zs : List (ScorecardResult M)) → (xs ++ ys) ++ zs ≡ xs ++ (ys ++ zs)
  append_assoc [] ys zs = refl
  append_assoc (x ∷ xs) ys zs = ap (λ l. x ∷ l) (append_assoc xs ys zs)

  append_nil : (xs : List (ScorecardResult M)) → xs ++ [] ≡ xs
  append_nil [] = refl
  append_nil (x ∷ xs) = ap (λ l. x ∷ l) (append_nil xs)

  abbrev on : Option (List (ScorecardResult M)) → List (ScorecardResult M)
  on o = elim o [ none ↦ [] | some results ↦ results ]

  named_insert :
      (name key : Text) (r : ScorecardResult M) (grouped : Map Text (List (ScorecardResult M)))
      → results_named name (insert key (results_named key grouped ++ r ∷ []) grouped)
        ≡ results_named name grouped ++ (if key == name then r ∷ [] else [])
  named_insert name key r grouped = elim (Bool-cases (text_beq key name)) [
    | inl e ↦
        ap on (lookup-insert key name (results_named key grouped ++ r ∷ []) grouped)
        ∙ rw e (ap (λ k. results_named k grouped ++ r ∷ []) ((text_beq_iff key name).0 e))
    | inr e ↦
        ap on (lookup-insert key name (results_named key grouped ++ r ∷ []) grouped)
        ∙ rw e (sym (append_nil (results_named name grouped)))
  ]

  abbrev AddAt :
      Text → ScorecardResult M → Map Text (List (ScorecardResult M)) → Option PackageUrl → Type 0
  AddAt name r grouped o =
      results_named name (elim o [
        | none ↦ grouped
        | some u ↦
            if u.name == []
            then grouped
            else insert u.name (results_named u.name grouped ++ r ∷ []) grouped
      ])
      ≡ results_named name grouped
        ++ (if elim o [ none ↦ false | some u ↦ not (u.name == []) && u.name == name ]
            then r ∷ []
            else [])

  result_added :
      (name : Text) (r : ScorecardResult M) (grouped : Map Text (List (ScorecardResult M)))
      (o : Option PackageUrl)
      → AddAt name r grouped o
  result_added name r grouped none = sym (append_nil (results_named name grouped))
  result_added name r grouped (some u) = elim (Bool-cases (text_beq u.name [])) [
    | inl e ↦ rw e (sym (append_nil (results_named name grouped)))
    | inr e ↦ rw e (named_insert name u.name r grouped)
  ]

  abbrev AtSuccess : Text → ScorecardResult M → Map Text (List (ScorecardResult M)) → Bool → Type 0
  AtSuccess name r grouped b =
      results_named name (if b then add_result from_string r grouped else grouped)
      ≡ results_named name grouped
        ++ (if b && elim (from_string r.purl) [
          | none ↦ false
          | some u ↦ not (u.name == []) && u.name == name
        ]
            then r ∷ []
            else [])

  add_result-named :
      (name : Text) (r : ScorecardResult M) (grouped : Map Text (List (ScorecardResult M)))
      → results_named name (if r.success then add_result from_string r grouped else grouped)
        ≡ results_named name grouped ++ taken name r []
  add_result-named name r grouped = elim (Bool-cases r.success) [
    | inl e ↦
        subst (AtSuccess name r grouped) (sym e) (result_added name r grouped (from_string r.purl))
    | inr e ↦
        subst (AtSuccess name r grouped) (sym e) (sym (append_nil (results_named name grouped)))
  ]

  group_results-append :
      (name : Text) (results : List (ScorecardResult M))
      (grouped : Map Text (List (ScorecardResult M)))
      → results_named name (group_results from_string results grouped)
        ≡ results_named name grouped ++ filter (is_named name) results
  unfolding group_results
  group_results-append name [] grouped = sym (append_nil (results_named name grouped))
  group_results-append name (r ∷ rest) grouped =
      group_results-append name rest
        (if r.success then add_result from_string r grouped else grouped)
      ∙ ap (λ l. l ++ filter (is_named name) rest) (add_result-named name r grouped)
      ∙ append_assoc (results_named name grouped) (taken name r []) (filter (is_named name) rest)
      ∙ ap (λ l. results_named name grouped ++ l)
          (taken_append name r (filter (is_named name) rest))
    where
      taken_append :
          (name : Text) (r : ScorecardResult M) (rest : List (ScorecardResult M))
          → taken name r [] ++ rest ≡ taken name r rest
      taken_append name r rest = elim (Bool-cases (is_named name r)) [
        | inl e ↦ rw e refl
        | inr e ↦ rw e refl
      ]

  -- What is found under a name is the successful results of that name, in their order.
  pub group_results-filter :
      (name : Text) (results : List (ScorecardResult M))
      → results_named name (group_results from_string results []) ≡ filter (is_named name) results
  unfolding lookup
  group_results-filter name results = group_results-append name results []

-- The name has a separator of a namespace.
abbrev pub has_separator : Text → Bool
has_separator name = elem b'/' name || elem b':' name

full_name-separator :
    (u : PackageUrl) (ecosystem : Text)
    → u.namespace ≢ []
    → ecosystem ≢ text "Debian"
    → ecosystem ≢ text "Alpine"
    → has_separator (full_name u ecosystem) ≡ true
full_name-separator u ecosystem a b c = elim (Bool-cases (text_beq ecosystem (text "Maven"))) [
  | inl e ↦ rw e (rw given ground (arith, elem-append b':' u.namespace (b':' ∷ u.name)))
  | inr e ↦ rw e (
      rw (text_beq_false ecosystem (text "Debian") b) (
        rw (text_beq_false ecosystem (text "Alpine") c)
          (rw given ground (arith, elem-append b'/' u.namespace (b'/' ∷ u.name)))))
]
  where
    text_beq_false : (s t : Text) → s ≢ t → text_beq s t ≡ false
    text_beq_false s t n = elim (Bool-cases (text_beq s t)) [
      | inl e ↦ absurd (n ((text_beq_iff s t).0 e))
      | inr e ↦ e
    ]

    filled : (t : Text) → t ≢ [] → is_nonempty t ≡ true
    filled [] n = absurd (n refl)
    filled (c ∷ cs) n = refl

    given : is_nonempty u.namespace ≡ true
    given = filled u.namespace a

module _ {M : Type 0} (from_string : Text → Option PackageUrl) where
  abbrev named_at : Text → ScorecardResult M → Option PackageUrl → Bool
  named_at name r o =
      r.success && elim o [ none ↦ false | some u ↦ not (u.name == []) && u.name == name ]

  unnamed :
      (name : Text) (r : ScorecardResult M)
      → has_separator name ≡ true
      → ((u : PackageUrl) → from_string r.purl ≡ some u → has_separator u.name ≡ false)
      → is_named from_string name r ≡ false
  unnamed name r sep h = elim (Option-cases (from_string r.purl)) [
    | inl e ↦ ap (named_at name r) e ∙ ground arith
    | inr (u, e) ↦ ap (named_at name r) e ∙ apart u (h u e)
  ]
    where
      apart : (u : PackageUrl) → has_separator u.name ≡ false → named_at name r (some u) ≡ false
      apart u plain = elim (Bool-cases (text_beq u.name name)) [
        | inl same ↦ absurd (
            clash (has_separator name) sep
              (ap has_separator (sym ((text_beq_iff u.name name).0 same)) ∙ plain))
        | inr other ↦ rw other ground arith
      ]
        where
          clash : (b : Bool) → b ≡ true → b ≡ false → ⊥
          clash b e h = cc

  none_named :
      (name : Text) (results : List (ScorecardResult M))
      → has_separator name ≡ true
      → ((r : ScorecardResult M) (u : PackageUrl)
          → Memᴰ r results
          → from_string r.purl ≡ some u
          → has_separator u.name ≡ false)
      → filter (is_named from_string name) results ≡ []
  none_named name [] sep h = refl
  none_named name (r ∷ rest) sep h =
      rw (unnamed name r sep (λ u e. h r u (Memᴰ.head refl) e))
        (none_named name rest sep (λ q u m e. h q u (Memᴰ.tail m) e))

module _ {B M : Type 0} ⦃bm : Bitmaps B⦄ (from_string : Text → Option PackageUrl) where
  -- When no scorecard's package URL has a separator in its name, a library whose package URL has a
  -- namespace gets no scorecard, unless it is of Debian or Alpine.
  pub score_node-namespace :
      (results : List (ScorecardResult M)) (node : Node B M) (u : PackageUrl) (s : Store B M)
      → from_string node.name ≡ some u
      → u.namespace ≢ []
      → get_purl_ecosystem u ≢ text "Debian"
      → get_purl_ecosystem u ≢ text "Alpine"
      → ((r : ScorecardResult M) (v : PackageUrl)
          → Memᴰ r results
          → from_string r.purl ≡ some v
          → has_separator v.name ≡ false)
      → score_node from_string (group_results from_string results []) node s ≡ (ok tt, s)
  unfolding score_node purl_to_package link_results
  score_node-namespace results node u s at space not_debian not_alpine plain =
      let g = group_results from_string results [] in
      let name = full_name u (get_purl_ecosystem u) in
      let empty : results_named name g ≡ [] =
        group_results-filter from_string name results
        ∙ none_named from_string name results
            (full_name-separator u (get_purl_ecosystem u) space not_debian not_alpine) plain in
      elim (Bool-cases (is_indexed from_string node)) [
        | inl e ↦
            subst
              (λ b.
                (if b
                    then link_package from_string g node (purl_to_package from_string node.name)
                    else return tt)
                  s
                ≡ (ok tt, s))
              (sym e)
              (ap (λ o. link_package from_string g node o s) (found at)
                ∙ ap (λ l. link_results from_string u.version node l s) empty)
        | inr e ↦
            subst
              (λ b.
                (if b
                    then link_package from_string g node (purl_to_package from_string node.name)
                    else return tt)
                  s
                ≡ (ok tt, s))
              (sym e) refl
      ]
    where
      found :
          from_string node.name ≡ some u
          → purl_to_package from_string node.name
            ≡ some (record {
              name = full_name u (get_purl_ecosystem u);
              version = u.version;
              ecosystem = get_purl_ecosystem u;
            })
      found at = rw (at, purl_to_package) refl
