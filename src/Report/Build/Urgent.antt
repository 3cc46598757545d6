-- ===== src/Report/Build/Urgent.antt =====
-- What a report holds, and which findings come first in it.
use sapper.Base.{
  nat_eq, text_eq, text, ap, sym, refl, ◌∙◌, subst, ℕ, ◌≡◌, ◌↔◌, inl, inr, Map, keys, Bool, true,
  false, List, [], ◌∷◌, ◌++◌, some, ok, any, filter, Bool-cases, text_beq, text_beq_iff,
}
use mathlib.Core.List.{Memᴰ}
use mathlib.Core.List.Memᴰ
use sapper.Bitmap.{Bitmaps}
use sapper.Graph.{Node, Store, Op}
use sapper.Graph.Storage.{get_all_keys, get_nodes, collect}
use sapper.Ingest.Affected.{stable_sort}
use sapper.Ingest.Affected.Sorting.{
  stable_sort-Memᴰ, filter-Memᴰ, Leading, Leading-behind, stable_sort-Leading,
}
use sapper.Ingest.Priorities.{vulnerability_names}
use sapper.Report.{Finding}
use sapper.Report.Merge.{merge_aliases}
use sapper.Report.Details.{Formats, build_finding}
use sapper.Report.Details.Impact.{build_finding-Impact}
use sapper.Report.Build.{Floats, Options, is_some, is_kept, more_urgent, build_each, build}

apart : (t : Bool) → t ≡ true → t ≡ false → ⊥
apart t e h = cc

some_inj : {A : Type 0} (a b : A) → some a ≡ some b → a ≡ b
some_inj a b e = cc

module _ {F K S V : Type 0} (fl : Floats F S) where
  abbrev has_kev : Finding K S V → Bool
  has_kev f = is_some f.kev

  kev_leads :
      (a b : Finding K S V) → has_kev a ≡ true → has_kev b ≡ false → more_urgent fl a b ≡ true
  unfolding more_urgent
  kev_leads a b p q = rw p (rw q refl)

  kev_behind :
      (a b : Finding K S V) → has_kev a ≡ false → has_kev b ≡ true → more_urgent fl a b ≡ false
  unfolding more_urgent
  kev_behind a b p q = rw p (rw q refl)

  kev_keeps :
      (a b : Finding K S V) → more_urgent fl a b ≡ true → has_kev b ≡ true → has_kev a ≡ true
  kev_keeps a b less q = elim (Bool-cases (has_kev a)) [
    | inl p ↦ p
    | inr p ↦ absurd (apart (more_urgent fl a b) less (kev_behind a b p q))
  ]

module _ {B M K S V : Type 0} ⦃bm : Bitmaps B⦄ (format : Formats M K S V) (s : Store B M)
    (nodes : Map ℕ (Node B M)) where
  -- The finding is the one of a vulnerability among the nodes.
  abbrev pub FindingOf : Map ℕ (Node B M) → Finding K S V → Type 0
  FindingOf rest f =
      (id : ℕ) × (node : Node B M) × Memᴰ (id, node) rest
      × (node.type ≡ text "vuln")
      × (build_finding format s nodes node (vulnerability_names format.vulnerability node) ≡ some f)

  build_each-FindingOf :
      (rest : Map ℕ (Node B M))
      → (findings : List (Finding K S V)) × (build_each format s nodes rest ≡ ok findings)
        × ((f : Finding K S V) → Memᴰ f findings ↔ FindingOf rest f)
  unfolding build_each
  build_each-FindingOf [] =
      ([], refl, λ f. (λ m. absurd (Memᴰ.not-nil m), λ (_, _, m, _, _). absurd (Memᴰ.not-nil m)))
  build_each-FindingOf ((id, node) ∷ rest) =
      let (findings, e, exact) = build_each-FindingOf rest in
      let (f, made, _, _, _, _) =
        build_finding-Impact format s nodes node (vulnerability_names format.vulnerability node) in
      elim (Bool-cases (text_beq node.type (text "vuln"))) [
        | inl t ↦ (
          f ∷ findings,
          rw t (rw made (rw e refl)),
          λ g. (
            λ m. elim (Memᴰ.cases_cons m) [
              | inl same ↦ (
                id,
                node,
                Memᴰ.head refl,
                (text_beq_iff node.type (text "vuln")).0 t,
                made ∙ ap (λ (h : Finding K S V). some h) (sym same),
              )
              | inr later ↦
                  let (id', node', there, is_vuln, made') = (exact g).0 later in
                  (id', node', Memᴰ.tail there, is_vuln, made')
            ],
            λ (id', node', there, is_vuln, made'). elim (Memᴰ.cases_cons there) [
              | inl same ↦ Memᴰ.head (
                  some_inj g f (
                    sym made'
                    ∙ ap
                        (λ n.
                          build_finding format s nodes n
                            (vulnerability_names format.vulnerability n))
                        (ap (λ e. e.1) same)
                    ∙ made))
              | inr later ↦ Memᴰ.tail ((exact g).1 (id', node', later, is_vuln, made'))
            ],
          ),
        )
        | inr t ↦ (
          findings,
          rw t e,
          λ g. (
            λ m.
                let (id', node', there, is_vuln, made') = (exact g).0 m in
                (id', node', Memᴰ.tail there, is_vuln, made'),
            λ (id', node', there, is_vuln, made'). elim (Memᴰ.cases_cons there) [
              | inl same ↦ absurd (
                  apart (text_beq node.type (text "vuln"))
                    ((text_beq_iff node.type (text "vuln")).1
                      (ap (λ e. e.1.type) (sym same) ∙ is_vuln))
                    t)
              | inr later ↦ (exact g).1 (id', node', later, is_vuln, made')
            ],
          ),
        )
      ]

module _ {B M F K S V : Type 0} ⦃bm : Bitmaps B⦄ (format : Formats M K S V) (fl : Floats F S)
    (s : Store B M) (opts : Options F) where
  -- A report of a storage that can be read holds the findings that pass the filters, of those that
  -- the findings of all vulnerabilities merge into, and no other. After a finding that is not in the
  -- KEV catalog there is none that is.
  pub build-Urgent :
      s.fails Op.get_all_keys ≡ false
      → s.fails Op.get_nodes ≡ false
      → (single report : List (Finding K S V)) × (build format fl s opts ≡ ok report)
        × ((f : Finding K S V)
            → Memᴰ f single
              ↔ FindingOf format s
                  (collect s.nodes (keys s.nodes) [])
                  (collect s.nodes (keys s.nodes) [])
                  f)
        × ((f : Finding K S V)
            → Memᴰ f report
              ↔ (Memᴰ f (merge_aliases format.above single) × (is_kept fl opts f ≡ true)))
        × ((front back : List (Finding K S V)) (f : Finding K S V)
            → report ≡ front ++ f ∷ back
            → is_some f.kev ≡ false
            → any (λ g. is_some g.kev) back ≡ false)
  unfolding build get_all_keys get_nodes
  build-Urgent keys_read nodes_read =
      let nodes = collect s.nodes (keys s.nodes) [] in
      let (single, e, exact) = build_each-FindingOf format s nodes nodes in
      let kept = filter (is_kept fl opts) (merge_aliases format.above single) in
      let report = stable_sort (more_urgent fl) kept in
      (
        single,
        report,
        rw (keys_read, build) (rw nodes_read (rw e refl)),
        exact,
        (λ f. (
          λ m.
              (filter-Memᴰ (is_kept fl opts) f (merge_aliases format.above single)).0
                ((stable_sort-Memᴰ (more_urgent fl) f kept).0 m),
          λ m.
              (stable_sort-Memᴰ (more_urgent fl) f kept).1
                ((filter-Memᴰ (is_kept fl opts) f (merge_aliases format.above single)).1 m),
        )),
        (λ front back f split out.
            Leading-behind (more_urgent fl) (λ g. is_some g.kev) front back f
              (subst (λ l. Leading (more_urgent fl) (λ g. is_some g.kev) l) split
                (stable_sort-Leading (more_urgent fl) (λ g. is_some g.kev) (kev_leads fl)
                  (kev_keeps fl) kept))
              out),
      )
