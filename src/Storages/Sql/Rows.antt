-- ===== src/Storages/Sql/Rows.antt =====
-- What a saved node reads back as, and what clearing the caches leaves.
use sapper.Base.{
  nat_eq, text_eq, refl, sym, ap, subst, ◌∙◌, ◌≡◌, ◌≢◌, ◌<◌, ◌^◌, ◌⊎◌, inl, inr, ℕ, Text, Map,
  lookup, insert, lookup-insert, Bool, true, false, not, [], ◌∷◌, ◌++◌, Option, none, some, Result,
  ok, err, if◌then◌else◌, elem, elem-append, filter, arith, Bool-cases, Option-cases, nat_beq_iff,
  text_beq, text_beq_iff,
}
use sapper.Graph.{
  Node, GraphError, Op, failed, node_not_found, name_not_found, bad_number, parse_failed,
}
use sapper.Numbers.{NumberError, uint32_to_str, str_to_uint32, str_to_uint32-uint32_to_str}
use sapper.Storages.Sql.{
  Database, SqlStatement, Tx, run_statement, save, then_do, transaction, push_entry, first_row,
  save_row, create_entry, delete_caches, Codec, node_key, name_key, cache_key, is_cache, save_node,
  get_node, name_to_id, get_cache, remove_all_caches, to_be_cached,
}

abbrev Outcome : Type 0
Outcome = Result GraphError (Unit {0}) × Database

run_statement-ok :
    (op : Op) (statement : SqlStatement) (change : Database → Database) (db : Database)
    → db.fails statement ≡ false
    → run_statement op statement change db ≡ (ok tt, change db)
run_statement-ok op statement change db e = rw e refl

run_statement-err :
    (op : Op) (statement : SqlStatement) (change : Database → Database) (db : Database)
    → db.fails statement ≡ true
    → run_statement op statement change db ≡ (err (failed op), db)
run_statement-err op statement change db e = rw e refl

clash : (b : Bool) → b ≡ true → b ≡ false → ⊥
clash b e h = cc

lookup-filter :
    (key : Text) (kv : Map Text Text)
    → is_cache key ≡ true
    → lookup key (filter (λ row. not (is_cache row.0)) kv) ≡ none
unfolding lookup
lookup-filter key [] h = refl
lookup-filter key ((k, v) ∷ kv) h = elim (Bool-cases (is_cache k)) [
  | inl e ↦ rw e (lookup-filter key kv h)
  | inr e ↦ rw e (elim (Bool-cases (text_beq k key)) [
    | inl same ↦ absurd (clash (is_cache k) (ap is_cache ((text_beq_iff k key).0 same) ∙ h) e)
    | inr other ↦ rw other (lookup-filter key kv h)
  ])
]

-- Different IDs have different digits.
apart :
    (n id : ℕ)
    → n < 2 ^ 32
    → id < 2 ^ 32
    → id ≢ n
    → text_beq (uint32_to_str n) (uint32_to_str id) ≡ false
apart n id small id_small other =
    elim (Bool-cases (text_beq (uint32_to_str n) (uint32_to_str id))) [
      | inr e ↦ e
      | inl e ↦ absurd (
          other (
            number_inj id n (
              sym (str_to_uint32-uint32_to_str id id_small)
              ∙ ap str_to_uint32 (sym ((text_beq_iff (uint32_to_str n) (uint32_to_str id)).0 e))
              ∙ str_to_uint32-uint32_to_str n small)))
    ]
  where
    number : ℕ → Result NumberError ℕ
    number n = ok n

    number_inj : (a b : ℕ) → number a ≡ number b → a ≡ b
    number_inj a b e = cc

abbrev numbered : Text → Option Text → Result GraphError ℕ
numbered name o = elim o [
  | none ↦ err (name_not_found name)
  | some value ↦ elim (str_to_uint32 value) [ err _ ↦ err bad_number | ok id ↦ ok id ]
]

name_to_id-lookup :
    (d : Database) (name : Text)
    → ((key : Text) → d.fails (first_row key) ≡ false)
    → name_to_id d name ≡ numbered name (lookup (name_key name) d.kv)
unfolding name_to_id
name_to_id-lookup d name reads = elim (Option-cases (lookup (name_key name) d.kv)) [
  | inl e ↦ rw (reads (name_key name), name_to_id) (rw e refl)
  | inr (v, e) ↦ rw (reads (name_key name), name_to_id) (rw e refl)
]

module _ {B M : Type 0} (codec : Codec B M) where
  abbrev decoded : ℕ → Option Text → Result GraphError (Node B M)
  decoded id o = elim o [
    | none ↦ err (node_not_found id)
    | some value ↦ elim (codec.decode_node value) [
      | none ↦ err (parse_failed value)
      | some node ↦ ok node
    ]
  ]

  get_node-lookup :
      (d : Database) (id : ℕ)
      → ((key : Text) → d.fails (first_row key) ≡ false)
      → get_node codec d id ≡ decoded id (lookup (node_key id) d.kv)
  unfolding get_node
  get_node-lookup d id reads = elim (Option-cases (lookup (node_key id) d.kv)) [
    | inl e ↦ rw (reads (node_key id), get_node) (rw e refl)
    | inr (v, e) ↦ rw (reads (node_key id), get_node) (rw e refl)
  ]

module _ {B M : Type 0} (codec : Codec B M) (db : Database) where
  -- After the caches are removed no node has one, and what is to be cached is what it was: a graph that
  -- was cached has nothing to cache, though it has no cache.
  pub remove_all_caches-to_be_cached :
      (t : Database)
      → remove_all_caches db ≡ (ok tt, t)
      → ((key : Text) → db.fails (first_row key) ≡ false)
      → (to_be_cached t ≡ to_be_cached db) × ((id : ℕ) → get_cache codec t id ≡ ok none)
  unfolding remove_all_caches to_be_cached get_cache
  remove_all_caches-to_be_cached t e reads = elim (Bool-cases (db.fails delete_caches)) [
    | inl broken ↦ absurd (ground arith)
    | inr works ↦
        let same : cleared ≡ t = ground arith in
        subst
          (λ d. (to_be_cached d ≡ to_be_cached db) × ((id : ℕ) → get_cache codec d id ≡ ok none))
          same (refl, λ id. no_cache id (lookup-filter (cache_key id) db.kv refl))
  ]
    where
      cleared : Database
      cleared = record db { kv = filter (λ row. not (is_cache row.0)) db.kv }

      no_cache :
          (id : ℕ) → lookup (cache_key id) cleared.kv ≡ none → get_cache codec cleared id ≡ ok none
      no_cache id gone = rw (reads (cache_key id), get_cache) (rw gone refl)

  -- A save that fails leaves the database as it was. After one that succeeds, the node reads back as it
  -- was saved, its name leads to its ID, it is to be cached, and every other node reads as before.
  pub save_node-get_node :
      (n : Node B M) (json : Text)
      → codec.encode_node n ≡ some json
      → codec.decode_node json ≡ some n
      → n.id < 2 ^ 32
      → ((key : Text) → db.fails (first_row key) ≡ false)
      → ((x : GraphError) × (save_node codec n db ≡ (err x, db)))
        ⊎ (t : Database) × (save_node codec n db ≡ (ok tt, t))
          × (get_node codec t n.id ≡ ok n)
          × (name_to_id t n.name ≡ ok n.id)
          × (elem n.id t.stack ≡ true)
          × ((id : ℕ) → id < 2 ^ 32 → id ≢ n.id → get_node codec t id ≡ get_node codec db id)
  unfolding save_node
  save_node-get_node n json encodes decodes small reads =
      elim (Bool-cases (db.fails (save_row (node_key n.id)))) [
        | inl broken ↦ inl (
          failed (Op.save_node n.id),
          sent
              ∙ ap (λ o. ended (after (then_do name_row (push_entry n.id)) o))
                  (run_statement-err (Op.save_node n.id) (save_row (node_key n.id))
                    (stored_row (node_key n.id) json) db broken),
        )
        | inr node_works ↦
            let first_done =
              sent
              ∙ ap (λ o. ended (after (then_do name_row (push_entry n.id)) o))
                  (run_statement-ok (Op.save_node n.id) (save_row (node_key n.id))
                    (stored_row (node_key n.id) json) db node_works) in
            elim (Bool-cases (db.fails (save_row (name_key n.name)))) [
              | inl broken ↦ inl (
                failed (Op.save_node n.id),
                first_done
                    ∙ ap (λ o. ended (after (push_entry n.id) o))
                        (run_statement-err (Op.save_node n.id) (save_row (name_key n.name))
                          (stored_row (name_key n.name) (uint32_to_str n.id)) d1 broken),
              )
              | inr name_works ↦
                  let second_done =
                    first_done
                    ∙ ap (λ o. ended (after (push_entry n.id) o))
                        (run_statement-ok (Op.save_node n.id) (save_row (name_key n.name))
                          (stored_row (name_key n.name) (uint32_to_str n.id)) d1 name_works) in
                  elim (Bool-cases (db.fails (create_entry n.id))) [
                    | inl broken ↦ inl (
                      failed (Op.save_node n.id),
                      second_done
                          ∙ ap ended (
                              run_statement-err (Op.save_node n.id) (create_entry n.id) pushed d2
                                broken),
                    )
                    | inr works ↦ inr (
                      pushed d2,
                      second_done
                          ∙ ap ended (
                              run_statement-ok (Op.save_node n.id) (create_entry n.id) pushed d2
                                works),
                      get_node-lookup codec (pushed d2) n.id reads
                          ∙ ap (decoded codec n.id) (
                              at_node n.id
                              ∙ chosen (text_beq (uint32_to_str n.id) (uint32_to_str n.id))
                                  ((text_beq_iff (uint32_to_str n.id) (uint32_to_str n.id)).1 refl))
                          ∙ decoded_some,
                      name_to_id-lookup (pushed d2) n.name reads
                          ∙ ap (numbered n.name) at_name
                          ∙ numbered_some,
                      on_stack (Bool-cases (elem n.id db.stack)),
                      λ id id_small other.
                          get_node-lookup codec (pushed d2) id reads
                          ∙ ap (decoded codec id) (
                              at_node id
                              ∙ skipped (text_beq (uint32_to_str n.id) (uint32_to_str id)) id
                                  (apart n.id id small id_small other))
                          ∙ sym (get_node-lookup codec db id reads),
                    )
                  ]
            ]
      ]
    where
      stored_row : Text → Text → Database → Database
      stored_row key value d = record d { kv = insert key value d.kv }

      name_row : Tx (Unit {0})
      name_row = save (Op.save_node n.id) (name_key n.name) (uint32_to_str n.id)

      d1 : Database
      d1 = stored_row (node_key n.id) json db

      d2 : Database
      d2 = stored_row (name_key n.name) (uint32_to_str n.id) d1

      pushed : Database → Database
      pushed d = record d { stack = if elem n.id d.stack then d.stack else d.stack ++ n.id ∷ [] }

      ended : Outcome → Outcome
      ended o = elim o.0 [ err e ↦ (err e, db) | ok _ ↦ (ok tt, o.1) ]

      after : Tx (Unit {0}) → Outcome → Outcome
      after second o = elim o.0 [ err e ↦ (err e, o.1) | ok _ ↦ second o.1 ]

      sent :
          save_node codec n db
          ≡ transaction
              (then_do
                (save (Op.save_node n.id) (node_key n.id) json)
                (then_do name_row (push_entry n.id)))
              db
      sent = rw (encodes, save_node) refl

      -- The two keys differ in their prefix.
      at_node :
          (id : ℕ)
          → lookup (node_key id) d2.kv ≡ (
              if text_beq (uint32_to_str n.id) (uint32_to_str id)
              then some json
              else lookup (node_key id) db.kv)
      at_node id =
          lookup-insert (name_key n.name) (node_key id) (uint32_to_str n.id) d1.kv
          ∙ lookup-insert (node_key n.id) (node_key id) json db.kv

      here :
          (b : Bool)
          → b ≡ true
          → (if b then some (uint32_to_str n.id) else lookup (name_key n.name) d1.kv)
            ≡ some (uint32_to_str n.id)
      here b e = rw e refl

      at_name : lookup (name_key n.name) d2.kv ≡ some (uint32_to_str n.id)
      at_name =
          lookup-insert (name_key n.name) (name_key n.name) (uint32_to_str n.id) d1.kv
          ∙ here (text_beq n.name n.name) ((text_beq_iff n.name n.name).1 refl)

      chosen :
          (b : Bool)
          → b ≡ true
          → (if b then some json else lookup (node_key n.id) db.kv) ≡ some json
      chosen b e = rw e refl

      skipped :
          (b : Bool) (id : ℕ)
          → b ≡ false
          → (if b then some json else lookup (node_key id) db.kv) ≡ lookup (node_key id) db.kv
      skipped b id e = rw e refl

      decoded_some : decoded codec n.id (some json) ≡ ok n
      decoded_some = rw (decodes, decoded) refl

      numbered_some : numbered n.name (some (uint32_to_str n.id)) ≡ ok n.id
      numbered_some = rw (str_to_uint32-uint32_to_str n.id small, numbered) refl

      on_stack :
          (elem n.id db.stack ≡ true) ⊎ (elem n.id db.stack ≡ false)
          → elem n.id (pushed d2).stack ≡ true
      on_stack (inl e) = rw e e
      on_stack (inr e) =
          rw e ground (arith, elem-append n.id db.stack (n.id ∷ []), nat_beq_iff n.id n.id)
