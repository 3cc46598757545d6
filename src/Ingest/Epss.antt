-- ===== src/Ingest/Epss.antt =====
-- pkg/tools/ingest/prioritize.go: `EPSS`. gzip, the reader of CSV rows, strconv.ParseFloat and the
-- JSON coder are parameters.
use sapper.Base.{
  nat_eq, text_eq, ℕ, zero, suc, ◌+◌, Text, text, Map, lookup, insert, Bool, true, false, ◌&&◌,
  List, [], ◌∷◌, Option, none, some, ok, err, ◌==◌, if◌then◌else◌, leb, ltb, to_upper, to_lower,
  trim_space, get_elem?, length, max, has_prefix, reverse,
}
use sapper.Graph.{parse_failed}
use sapper.Graph.Storage.{add_or_update_custom_data}
use sapper.Ingest.Osv.{Vulnerability}
use sapper.Ingest.Priorities.{Counted, storing, cves_in_graph}

-- `none` is a row that cannot be read.
abbrev pub Rows : Type 0
Rows = List (Option (List Text))

pub record EpssFormat (F : Type 0) : Type 0 where
  pub gunzip : Text → Option Text
  pub rows : Text → Rows
  pub parse_float : Text → Option F
  -- The JSON of a score, a percentile and a date.
  pub encode : F → F → Text → Text

-- `strings.Split(s, ",")`
abbrev pub split_comma : Text → Text → List Text
split_comma part [] = reverse part ∷ []
split_comma part (c ∷ cs) =
    let here = reverse part ∷ split_comma [] cs in
    let on = split_comma (c ∷ part) cs in if c == b',' then here else on

-- `strings.Cut(s, ":")`
abbrev pub cut_colon : Text → Text → Option (Text × Text)
cut_colon part [] = none
cut_colon part (c ∷ cs) =
    let rest = cut_colon (c ∷ part) cs in if c == b':' then some (reverse part, cs) else rest

-- `buffered.ReadString('\n')`, and what is left.
abbrev pub read_line : Text → Text × Text
read_line [] = ([], [])
read_line (c ∷ cs) =
    let (line, rest) = read_line cs in if c == 10 then (10 ∷ [], cs) else (c ∷ line, rest)

abbrev pub take : ℕ → Text → Text
take zero s = []
take (suc n) [] = []
take (suc n) (c ∷ cs) = c ∷ take n cs

abbrev pub date_in : Text → Text → Text
date_in old part = elim (cut_colon [] part) [
  | none ↦ old
  | some (k, v) ↦ if trim_space k == text "score_date" then take 10 (trim_space v) else old
]

abbrev pub date_of_parts : List Text → Text → Text
date_of_parts [] date = date
date_of_parts (part ∷ parts) date = date_of_parts parts (date_in date part)

abbrev pub drop_hash : Text → Text
drop_hash [] = []
drop_hash (c ∷ cs) = if c == b'#' then cs else c ∷ cs

-- The date of the first line, if it is a comment, and what the reader goes on with.
unfoldable pub read_date : Text → Text × Text
read_date [] = ([], [])
read_date (c ∷ cs) =
    if c == b'#'
    then (let (line, rest) = read_line (c ∷ cs) in
        (date_of_parts (split_comma [] (trim_space (drop_hash line))) [], rest))
    else ([], c ∷ cs)

-- The index of each column, by its name; the last one of a name counts.
abbrev pub columns : List Text → ℕ → Map Text ℕ → Map Text ℕ
columns [] i col = col
columns (name ∷ names) i col = columns names (i + 1) (insert (to_lower (trim_space name)) i col)

pub record Columns : Type 0 where
  pub cve : ℕ
  pub epss : ℕ
  pub percentile : ℕ

abbrev pub columns_of : Map Text ℕ → Option Columns
columns_of col = elim (lookup (text "cve") col) [
  | none ↦ none
  | some cve ↦ elim (lookup (text "epss") col) [
    | none ↦ none
    | some epss ↦ elim (lookup (text "percentile") col) [
      | none ↦ none
      | some percentile ↦ some (record { cve = cve; epss = epss; percentile = percentile })
    ]
  ]
]

-- `record[i]`, which is in range where it is used.
abbrev pub cell : List Text → ℕ → Text
cell row i = elim (get_elem? row i) [ none ↦ [] | some t ↦ trim_space t ]

abbrev pub is_known : Map Text (Unit {0}) → Text → Bool
is_known known cve = elim (lookup cve known) [ none ↦ false | some _ ↦ true ]

module _ {F : Type 0} (format : EpssFormat F) (known : Map Text (Unit {0})) (date : Text)
    (cols : Columns) where
  -- The CVE and the encoded score of a row, if it is to be stored.
  unfoldable pub score_of : List Text → Option (Text × Text)
  score_of row =
      if leb (length row) (max (max cols.cve cols.epss) cols.percentile)
      then none
      else if is_known known (to_upper (cell row cols.cve))
      then elim (format.parse_float (cell row cols.epss)) [
        | none ↦ none
        | some score ↦ elim (format.parse_float (cell row cols.percentile)) [
          | none ↦ none
          | some percentile ↦
              some (to_upper (cell row cols.cve), format.encode score percentile date)
        ]
      ]
      else none

  -- The loop over the rows.
  unfoldable pub store_scores : {B M : Type 0} → Rows → ℕ → Counted B M
  unfolding score_of
  store_scores [] stored s = ((stored, ok tt), s)
  store_scores (none ∷ rows) stored s = ((stored, err (parse_failed [])), s)
  store_scores (some row ∷ rows) stored s = elim (score_of row) [
    | none ↦ store_scores rows stored s
    | some (cve, value) ↦
        storing (add_or_update_custom_data (text "epss") cve (text "score") value) stored
          (store_scores rows) s
  ]

-- The reader of the file, behind gzip where its magic number says so.
abbrev pub opened : {F : Type 0} → EpssFormat F → Text → Option Text
opened format source =
    if ltb 2 (length source) && has_prefix source (0x1f ∷ 0x8b ∷ [])
    then format.gunzip source
    else some source

module _ {B F : Type 0} (format : EpssFormat F) where
  abbrev pub read_rows : {M : Type 0} → Map Text (Unit {0}) → Text → Rows → Counted B M
  read_rows known date [] s = ((0, err (parse_failed [])), s)
  read_rows known date (none ∷ rows) s = ((0, err (parse_failed [])), s)
  read_rows known date (some header ∷ rows) s = elim (columns_of (columns header 0 [])) [
    | none ↦ ((0, err (parse_failed [])), s)
    | some cols ↦ store_scores format known date cols rows 0 s
  ]

  abbrev pub read_file : {M : Type 0} → Map Text (Unit {0}) → Option Text → Counted B M
  read_file known none s = ((0, err (parse_failed [])), s)
  read_file known (some content) s =
      let (date, rest) = read_date content in read_rows known date (format.rows rest) s

  unfoldable pub epss : {M : Type 0} → (M → Option Vulnerability) → Text → Counted B M
  epss decode source s = elim (cves_in_graph decode s) [
    | err e ↦ ((0, err e), s)
    | ok [] ↦ ((0, ok tt), s)
    | ok (cve ∷ cves) ↦ read_file (cve ∷ cves) (opened format source) s
  ]
