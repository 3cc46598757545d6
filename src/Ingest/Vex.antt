-- ===== src/Ingest/Vex.antt =====
-- pkg/tools/ingest/prioritize.go: `VEX`. The JSON coder is a parameter.
use sapper.Base.{
  nat_eq, text_eq, ℕ, Text, text, Bool, ◌||◌, List, [], ◌∷◌, Option, none, some, ok, err, ◌==◌,
  if◌then◌else◌, to_upper, trim_space,
}
use sapper.Graph.{Action, ◌>>=◌, return, parse_failed, unknown_status}
use sapper.Graph.Storage.{add_or_update_custom_data}
use sapper.Ingest.Priorities.{Counted, storing}

-- One element of the document's `statements`; `rest` holds the texts that are only copied.
pub record Statement : Type 0 where
  pub name : Text
  pub aliases : List Text
  pub product_ids : List Text
  pub status : Text
  pub timestamp : Text
  pub rest : List Text

pub record VexDocument : Type 0 where
  pub timestamp : Text
  pub statements : List Statement

abbrev pub is_known_status : Text → Bool
is_known_status status =
    status == text "not_affected"
    || status == text "affected"
    || status == text "fixed"
    || status == text "under_investigation"

abbrev pub time_of : VexDocument → Statement → Text
time_of doc st = if st.timestamp == [] then doc.timestamp else st.timestamp

abbrev pub names_of : Statement → List Text
names_of st = st.name ∷ st.aliases

module _ {B M : Type 0} where
  -- The loop over the names, for one product.
  unfoldable pub store_names : Text → Text → List Text → Action B M (Unit {0})
  store_names product value [] = return tt
  store_names product value (name ∷ names) =
      let skipped = store_names product value names in
      let stored =
        add_or_update_custom_data (text "vex") (to_upper (trim_space name)) product value >>= λ _.
        store_names product value names in
      if trim_space name == [] then skipped else stored

  -- The loop over the products of one statement, and what comes after it.
  unfoldable pub store_products : List Text → Text → List Text → ℕ → (ℕ → Counted B M) → Counted B M
  unfolding store_names
  store_products names value [] stored next = next stored
  store_products names value (product ∷ products) stored next =
      let skipped = store_products names value products stored next in
      let kept =
        storing (store_names product value names) stored
          (λ n. store_products names value products n next) in
      if product == [] then skipped else kept

  -- The loop over the statements.
  unfoldable pub store_statements :
      (Statement → Text → Text) → VexDocument → List Statement → ℕ → Counted B M
  unfolding store_products
  store_statements encode doc [] stored s = ((stored, ok tt), s)
  store_statements encode doc (st ∷ rest) stored s =
      let later = store_statements encode doc rest in
      if is_known_status st.status
      then store_products (names_of st) (encode st (time_of doc st)) st.product_ids stored later s
      else ((stored, err (unknown_status st.status)), s)

  unfoldable pub vex : (Statement → Text → Text) → (Text → Option VexDocument) → Text → Counted B M
  unfolding store_statements
  vex encode parse source s = elim (parse source) [
    | none ↦ ((0, err (parse_failed source)), s)
    | some doc ↦ store_statements encode doc doc.statements 0 s
  ]
