-- ===== src/Service/Unchanged.antt =====
-- KEV entries, EPSS scores, VEX statements and cached sets are kept beside the graph: the requests that
-- store them change no node.
use sapper.Base.{
  nat_eq, text_eq, refl, ◌∙◌, ◌≡◌, ℕ, suc, Text, text, Map, Bool, true, false, List, [], ◌∷◌,
  Option, none, some, Result, ok, err, ◌==◌, if◌then◌else◌, trim_space, to_upper, arith, Bool-cases,
  Option-cases, inl, inr,
}
use sapper.Graph.{Store, Action, GraphError, ◌>>=◌, parse_failed}
use sapper.Graph.Storage.{add_or_update_custom_data, remove_all_caches}
use sapper.Ingest.Osv.{Vulnerability}
use sapper.Ingest.Priorities.{Counted, storing, KevEntry, store_kev, kev, cves_in_graph, cve_of}
use sapper.Ingest.Epss.{
  Rows, EpssFormat, Columns, columns, columns_of, score_of, store_scores, opened, read_rows,
  read_file, read_date, epss,
}
use sapper.Ingest.Vex.{
  Statement, VexDocument, is_known_status, time_of, names_of, store_names, store_products,
  store_statements, vex,
}

module _ {B M : Type 0} where
  abbrev pub SameNodes : Store B M → Store B M → Type 0
  SameNodes s t = t.nodes ≡ s.nodes

  add_or_update_custom_data-SameNodes :
      (tag key data_key value : Text) (s : Store B M)
      → SameNodes s (add_or_update_custom_data tag key data_key value s).1
  unfolding add_or_update_custom_data
  add_or_update_custom_data-SameNodes tag key data_key value s = ground arith

  pub remove_all_caches-SameNodes : (s : Store B M) → SameNodes s (remove_all_caches s).1
  unfolding remove_all_caches
  remove_all_caches-SameNodes s = ground arith

  storing-SameNodes :
      (save : Action B M (Unit {0})) (stored : ℕ) (next : ℕ → Counted B M) (s : Store B M)
      → SameNodes s (save s).1
      → ((t : Store B M) → SameNodes t (next (suc stored) t).1)
      → SameNodes s (storing save stored next s).1
  storing-SameNodes save stored next s saved later = split (save s) saved
    where
      outcome :
          Result GraphError (Unit {0}) × Store B M → (ℕ × Result GraphError (Unit {0})) × Store B M
      outcome o = elim o.0 [ err e ↦ ((stored, err e), o.1) | ok _ ↦ next (suc stored) o.1 ]

      split :
          (o : Result GraphError (Unit {0}) × Store B M)
          → SameNodes s o.1
          → SameNodes s (outcome o).1
      split (err e, t) same = same
      split (ok _, t) same = later t ∙ same

  >>=-SameNodes :
      (m : Action B M (Unit {0})) (f : Unit {0} → Action B M (Unit {0})) (s : Store B M)
      → SameNodes s (m s).1
      → ((t : Store B M) → SameNodes t (f tt t).1)
      → SameNodes s ((m >>= f) s).1
  >>=-SameNodes m f s first later = split (m s) first
    where
      outcome : Result GraphError (Unit {0}) × Store B M → Result GraphError (Unit {0}) × Store B M
      outcome o = elim o.0 [ ok a ↦ f a o.1 | err e ↦ (err e, o.1) ]

      split :
          (o : Result GraphError (Unit {0}) × Store B M)
          → SameNodes s o.1
          → SameNodes s (outcome o).1
      split (err e, t) same = same
      split (ok tt, t) same = later t ∙ same

  store_kev-SameNodes :
      (entries : List KevEntry) (stored : ℕ) (s : Store B M)
      → SameNodes s (store_kev entries stored s).1
  unfolding store_kev
  store_kev-SameNodes [] stored s = refl
  store_kev-SameNodes (entry ∷ rest) stored s =
      choose (cve_of entry.cve_id == []) entry.json (store_kev-SameNodes rest stored s)
        (λ t. store_kev-SameNodes rest (suc stored) t)
    where
      encoded : Option Text → Counted B M
      encoded json t = elim json [
        | none ↦ ((stored, err (parse_failed entry.cve_id)), t)
        | some value ↦
            storing
              (add_or_update_custom_data (text "kev") (cve_of entry.cve_id) (text "entry") value)
              stored (store_kev rest) t
      ]

      choose :
          (b : Bool) (json : Option Text)
          → SameNodes s (store_kev rest stored s).1
          → ((t : Store B M) → SameNodes t (store_kev rest (suc stored) t).1)
          → SameNodes s (if b then store_kev rest stored s else encoded json s).1
      choose true json skipped later = skipped
      choose false none skipped later = refl
      choose false (some value) skipped later =
          storing-SameNodes
            (add_or_update_custom_data (text "kev") (cve_of entry.cve_id) (text "entry") value)
            stored (store_kev rest) s
            (add_or_update_custom_data-SameNodes (text "kev") (cve_of entry.cve_id) (text "entry")
              value s)
            later

  pub kev-SameNodes :
      (parse : Text → Option (List KevEntry)) (source : Text) (s : Store B M)
      → SameNodes s (kev parse source s).1
  unfolding kev
  kev-SameNodes parse source s = elim (Option-cases (parse source)) [
    | inl e ↦ rw (e, kev) refl
    | inr (entries, e) ↦ rw (e, kev) (store_kev-SameNodes entries 0 s)
  ]

  module _ {F : Type 0} (format : EpssFormat F) where
    store_scores-SameNodes :
        (known : Map Text (Unit {0})) (date : Text) (cols : Columns) (rows : Rows) (stored : ℕ)
        (s : Store B M)
        → SameNodes s (store_scores format known date cols rows stored s).1
    unfolding store_scores
    store_scores-SameNodes known date cols [] stored s = refl
    store_scores-SameNodes known date cols (none ∷ rows) stored s = refl
    store_scores-SameNodes known date cols (some row ∷ rows) stored s =
        elim (Option-cases (score_of format known date cols row)) [
          | inl e ↦ rw (e, store_scores) (store_scores-SameNodes known date cols rows stored s)
          | inr ((cve, value), e) ↦
              rw (e, store_scores)
                (storing-SameNodes
                  (add_or_update_custom_data (text "epss") cve (text "score") value) stored
                  (store_scores format known date cols rows) s
                  (add_or_update_custom_data-SameNodes (text "epss") cve (text "score") value s)
                  (λ t. store_scores-SameNodes known date cols rows (suc stored) t))
        ]

    read_rows-SameNodes :
        (known : Map Text (Unit {0})) (date : Text) (rows : Rows) (s : Store B M)
        → SameNodes s (read_rows format known date rows s).1
    read_rows-SameNodes known date [] s = refl
    read_rows-SameNodes known date (none ∷ rows) s = refl
    read_rows-SameNodes known date (some header ∷ rows) s =
        elim (Option-cases (columns_of (columns header 0 []))) [
          | inl e ↦ rw (e, read_rows) refl
          | inr (cols, e) ↦ rw (e, read_rows) (store_scores-SameNodes known date cols rows 0 s)
        ]

    read_file-SameNodes :
        (known : Map Text (Unit {0})) (content : Option Text) (s : Store B M)
        → SameNodes s (read_file format known content s).1
    read_file-SameNodes known none s = refl
    read_file-SameNodes known (some content) s =
        read_rows-SameNodes known (read_date content).0 (format.rows (read_date content).1) s

    pub epss-SameNodes :
        (decode : M → Option Vulnerability) (source : Text) (s : Store B M)
        → SameNodes s (epss format decode source s).1
    unfolding epss
    epss-SameNodes decode source s = asked (cves_in_graph decode s)
      where
        outcome :
            Result GraphError (Map Text (Unit {0})) → (ℕ × Result GraphError (Unit {0})) × Store B M
        outcome x = elim x [
          | err e ↦ ((0, err e), s)
          | ok [] ↦ ((0, ok tt), s)
          | ok (cve ∷ cves) ↦ read_file format (cve ∷ cves) (opened format source) s
        ]

        asked : (x : Result GraphError (Map Text (Unit {0}))) → SameNodes s (outcome x).1
        asked (err e) = refl
        asked (ok []) = refl
        asked (ok (cve ∷ cves)) = read_file-SameNodes (cve ∷ cves) (opened format source) s

  store_names-SameNodes :
      (product value : Text) (names : List Text) (s : Store B M)
      → SameNodes s (store_names product value names s).1
  unfolding store_names
  store_names-SameNodes product value [] s = refl
  store_names-SameNodes product value (name ∷ names) s =
      choose (trim_space name == []) (store_names-SameNodes product value names s)
        (λ t. store_names-SameNodes product value names t)
    where
      save : Action B M (Unit {0})
      save = add_or_update_custom_data (text "vex") (to_upper (trim_space name)) product value

      choose :
          (b : Bool)
          → SameNodes s (store_names product value names s).1
          → ((t : Store B M) → SameNodes t (store_names product value names t).1)
          → SameNodes s
              ((if b
                  then store_names product value names
                  else save >>= λ _. store_names product value names)
                s).1
      choose true skipped later = skipped
      choose false skipped later =
          >>=-SameNodes save (λ _. store_names product value names) s
            (add_or_update_custom_data-SameNodes (text "vex") (to_upper (trim_space name)) product
              value s)
            later

  store_products-SameNodes :
      (names : List Text) (value : Text) (products : List Text) (stored : ℕ)
      (next : ℕ → Counted B M)
      → ((n : ℕ) (t : Store B M) → SameNodes t (next n t).1)
      → (s : Store B M) → SameNodes s (store_products names value products stored next s).1
  unfolding store_products
  store_products-SameNodes names value [] stored next later s = later stored s
  store_products-SameNodes names value (product ∷ products) stored next later s =
      choose (product == []) (store_products-SameNodes names value products stored next later s)
        (λ t. store_products-SameNodes names value products (suc stored) next later t)
    where
      after : ℕ → Counted B M
      after n = store_products names value products n next

      choose :
          (b : Bool)
          → SameNodes s (after stored s).1
          → ((t : Store B M) → SameNodes t (after (suc stored) t).1)
          → SameNodes s
              ((if b then after stored else storing (store_names product value names) stored after)
                s).1
      choose true skipped kept = skipped
      choose false skipped kept =
          storing-SameNodes (store_names product value names) stored after s
            (store_names-SameNodes product value names s) kept

  store_statements-SameNodes :
      (encode : Statement → Text → Text) (doc : VexDocument) (statements : List Statement)
      (stored : ℕ) (s : Store B M)
      → SameNodes s (store_statements encode doc statements stored s).1
  unfolding store_statements
  store_statements-SameNodes encode doc [] stored s = refl
  store_statements-SameNodes encode doc (st ∷ rest) stored s =
      elim (Bool-cases (is_known_status st.status)) [
        | inl e ↦
            rw (e, store_statements)
              (store_products-SameNodes (names_of st) (encode st (time_of doc st)) st.product_ids
                stored (store_statements encode doc rest)
                (λ n t. store_statements-SameNodes encode doc rest n t) s)
        | inr e ↦ rw (e, store_statements) refl
      ]

  pub vex-SameNodes :
      (encode : Statement → Text → Text) (parse : Text → Option VexDocument) (source : Text)
      (s : Store B M)
      → SameNodes s (vex encode parse source s).1
  unfolding vex
  vex-SameNodes encode parse source s = elim (Option-cases (parse source)) [
    | inl e ↦ rw (e, vex) refl
    | inr (doc, e) ↦ rw (e, vex) (store_statements-SameNodes encode doc doc.statements 0 s)
  ]
