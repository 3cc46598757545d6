-- ===== src/Ingest/Priorities/Stored.antt =====
-- What is stored of the KEV catalog, as a report reads it.
use sapper.Base.{
  nat_eq, text_eq, refl, sym, ap, ◌∙◌, ◌≡◌, ◌≢◌, inl, inr, ℕ, suc, ◌+◌, Text, text, Map, lookup,
  insert, lookup-insert, Bool, true, false, List, [], ◌∷◌, Option, none, some, Result, ok, err,
  ◌==◌, if◌then◌else◌, arith, Bool-cases, text_beq, text_beq_iff,
}
use mathlib.Core.List.{Memᴰ}
use sapper.Graph.{Store, Op, GraphError, no_custom_data}
use sapper.Graph.Storage.{full_key, get_custom_data, add_or_update_custom_data}
use sapper.Ingest.Priorities.{KevEntry, cve_of, store_kev, kev}

abbrev entry_in : Option (Map Text Text) → Option Text
entry_in o = elim o [ none ↦ none | some fields ↦ lookup (text "entry") fields ]

module _ {B M : Type 0} where
  -- The entry that is stored for a CVE.
  abbrev pub entry_at : Store B M → Text → Option Text
  entry_at s cve = elim (get_custom_data s (text "kev") cve) [
    | err e ↦ none
    | ok fields ↦ lookup (text "entry") fields
  ]

-- The last entry of the catalog about a CVE.
abbrev pub last_entry : Text → List KevEntry → Option Text
last_entry cve [] = none
last_entry cve (entry ∷ rest) = elim (last_entry cve rest) [
  | some value ↦ some value
  | none ↦ if cve_of entry.cve_id == cve then entry.json else none
]

-- How many entries name a CVE.
abbrev pub named_count : List KevEntry → ℕ
named_count [] = 0
named_count (entry ∷ rest) =
    if cve_of entry.cve_id == [] then named_count rest else suc (named_count rest)

abbrev or_else : Option Text → Option Text → Option Text
or_else o other = elim o [ some value ↦ some value | none ↦ other ]

abbrev old_fields : Option (Map Text Text) → Map Text Text
old_fields o = elim o [ none ↦ [] | some fields ↦ fields ]

abbrev answer : Text → Option (Map Text Text) → Result GraphError (Map Text Text)
answer key o = elim o [ none ↦ err (no_custom_data key) | some fields ↦ ok fields ]

module _ {B M : Type 0} where
  abbrev in_db : Store B M → Text → Option Text
  in_db s cve = entry_in (lookup (full_key (text "kev") cve) s.db)

  abbrev saved : Store B M → Text → Text → Store B M
  saved s cve value =
      let key = full_key (text "kev") cve in
      record s { db = insert key (insert (text "entry") value (old_fields (lookup key s.db))) s.db }

  saves :
      (s : Store B M) (cve value : Text)
      → s.fails Op.add_or_update_custom_data ≡ false
      → add_or_update_custom_data (text "kev") cve (text "entry") value s
        ≡ (ok tt, saved s cve value)
  unfolding add_or_update_custom_data
  saves s cve value works = rw (works, add_or_update_custom_data) refl

  in_db-saved :
      (s : Store B M) (cve other value : Text)
      → in_db (saved s cve value) other ≡ (if text_beq cve other then some value else in_db s other)
  in_db-saved s cve other value =
      let key = full_key (text "kev") cve in
      let fields = insert (text "entry") value (old_fields (lookup key s.db)) in
      ap entry_in (lookup-insert key (full_key (text "kev") other) fields s.db)
      ∙ chosen (text_beq cve other) fields (lookup (full_key (text "kev") other) s.db)
          (lookup-insert (text "entry") (text "entry") value (old_fields (lookup key s.db)))
    where
      chosen :
          (b : Bool) (fields : Map Text Text) (old : Option (Map Text Text))
          → lookup (text "entry") fields ≡ some value
          → entry_in (if b then some fields else old) ≡ (if b then some value else entry_in old)
      chosen true fields old e = e
      chosen false fields old e = refl

  reads_db :
      (s : Store B M) (cve : Text)
      → s.fails Op.get_custom_data ≡ false
      → get_custom_data s (text "kev") cve
        ≡ answer (full_key (text "kev") cve) (lookup (full_key (text "kev") cve) s.db)
  unfolding get_custom_data
  reads_db s cve reads = rw (reads, get_custom_data) refl

  read_db :
      (s : Store B M) (cve : Text)
      → s.fails Op.get_custom_data ≡ false
      → entry_at s cve ≡ in_db s cve
  read_db s cve reads =
      ap entry_on (reads_db s cve reads) ∙ both (lookup (full_key (text "kev") cve) s.db)
    where
      entry_on : Result GraphError (Map Text Text) → Option Text
      entry_on r = elim r [ err e ↦ none | ok fields ↦ lookup (text "entry") fields ]

      both :
          (o : Option (Map Text Text))
          → entry_on (answer (full_key (text "kev") cve) o) ≡ entry_in o
      both none = refl
      both (some fields) = refl

  abbrev go_on :
      List KevEntry
      → ℕ
      → Result GraphError (Unit {0}) × Store B M
      → (ℕ × Result GraphError (Unit {0})) × Store B M
  go_on rest stored o = elim o.0 [
    | err x ↦ ((stored, err x), o.1)
    | ok _ ↦ store_kev rest (suc stored) o.1
  ]

  -- Where nothing fails, a pass over the entries stores the last one about each CVE.
  store_kev-in_db :
      (entries : List KevEntry) (stored : ℕ) (s : Store B M)
      → s.fails Op.add_or_update_custom_data ≡ false
      → ((entry : KevEntry) → Memᴰ entry entries → (value : Text) × (entry.json ≡ some value))
      → (t : Store B M) × (store_kev entries stored s ≡ ((stored + named_count entries, ok tt), t))
        × (t.nodes ≡ s.nodes)
        × (t.fails ≡ s.fails)
        × ((cve : Text) → cve ≢ [] → in_db t cve ≡ or_else (last_entry cve entries) (in_db s cve))
  unfolding store_kev
  store_kev-in_db [] stored s works encoded =
      (s, ap (λ (n : ℕ). ((n, ok tt), s)) (plus_zero stored), refl, refl, λ cve _. refl)
    where
      plus_zero : (n : ℕ) → n ≡ n + 0
      plus_zero n = omega arith
  store_kev-in_db (entry ∷ rest) stored s works encoded =
      let others : (e : KevEntry) → Memᴰ e rest → (value : Text) × (e.json ≡ some value) =
        λ e m. encoded e (Memᴰ.tail m) in
      let id = cve_of entry.cve_id in
      elim (Bool-cases (text_beq id [])) [
        | inl empty ↦
            let (t, e, nodes, fails, exact) = store_kev-in_db rest stored s works others in
            (
              t,
              rw (empty, store_kev) e,
              nodes,
              fails,
              λ cve given.
                  exact cve given
                  ∙ ap (λ o. or_else o (in_db s cve))
                      (sym (
                        unnamed id cve (last_entry cve rest) entry.json given
                          ((text_beq_iff id []).0 empty))),
            )
        | inr full ↦
            let (value, has_value) = encoded entry (Memᴰ.head refl) in
            let (t, e, nodes, fails, exact) =
              store_kev-in_db rest (suc stored) (saved s id value) works others in
            (
              t,
              rw (full, store_kev)
                  (rw has_value (
                    ap (λ o. go_on rest stored o) (saves s id value works)
                    ∙ e
                    ∙ ap (λ n. ((n, ok tt), t)) (plus_suc stored (named_count rest)))),
              nodes,
              fails,
              λ cve given.
                  exact cve given
                  ∙ ap (or_else (last_entry cve rest)) (in_db-saved s id cve value)
                  ∙ either (text_beq id cve) (last_entry cve rest) entry.json value (in_db s cve)
                      has_value,
            )
      ]
    where
      plus_suc : (a b : ℕ) → suc a + b ≡ a + suc b
      plus_suc a b = omega arith

      unnamed :
          (id cve : Text) (later json : Option Text)
          → cve ≢ []
          → id ≡ []
          → or_else later (if text_beq id cve then json else none) ≡ later
      unnamed id cve (some v) json given e = refl
      unnamed id cve none json given e = elim (Bool-cases (text_beq id cve)) [
        | inl same ↦ absurd (given (sym ((text_beq_iff id cve).0 same) ∙ e))
        | inr other ↦ rw other refl
      ]

      either :
          (b : Bool) (later json : Option Text) (value : Text) (old : Option Text)
          → json ≡ some value
          → or_else later (if b then some value else old)
            ≡ or_else (or_else later (if b then json else none)) old
      either b (some v) json value old e = refl
      either true none json value old e = sym (ap (λ o. or_else o old) e)
      either false none json value old e = refl

  -- When the storage does not fail, and the entries can be encoded, loading the KEV catalog returns the
  -- number of its entries that name a CVE, and leaves the nodes alone. What a report then reads for a
  -- CVE is the catalog's last entry about it, or what was there before if it has none.
  pub kev-entry_at :
      (parse : Text → Option (List KevEntry)) (source : Text) (entries : List KevEntry)
      (s : Store B M)
      → parse source ≡ some entries
      → s.fails Op.add_or_update_custom_data ≡ false
      → s.fails Op.get_custom_data ≡ false
      → ((entry : KevEntry) → Memᴰ entry entries → (value : Text) × (entry.json ≡ some value))
      → (t : Store B M) × (kev parse source s ≡ ((named_count entries, ok tt), t))
        × (t.nodes ≡ s.nodes)
        × ((cve : Text)
            → cve ≢ []
            → entry_at t cve
              ≡ elim (last_entry cve entries) [ some value ↦ some value | none ↦ entry_at s cve ])
  unfolding kev
  kev-entry_at parse source entries s parses works reads encoded =
      let (t, e, nodes, fails, exact) = store_kev-in_db entries 0 s works encoded in
      (
        t,
        rw (parses, kev) (e ∙ ap (λ n. ((n, ok tt), t)) (plus_zero (named_count entries))),
        nodes,
        λ cve given.
            read_db t cve (ap (λ f. f Op.get_custom_data) fails ∙ reads)
            ∙ exact cve given
            ∙ ap (or_else (last_entry cve entries)) (sym (read_db s cve reads)),
      )
    where
      plus_zero : (n : ℕ) → 0 + n ≡ n
      plus_zero n = omega arith
