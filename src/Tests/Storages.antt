-- ===== src/Tests/Storages.antt =====
-- The SQL storage with one cached node.
use sapper.Base.{
  nat_eq, text_eq, ℕ, ◌≡◌, ◌≢◌, ◌<◌, ◌^◌, ◌⊎◌, refl, Text, text, false, true, List, [], ◌∷◌, none,
  some, ok, err, elem, arith,
}
use sapper.Graph.{GraphError}
use sapper.Storages.Sql.{
  Database, Codec, save_node, get_node, get_cache, name_to_id, remove_all_caches, to_be_cached,
}
use sapper.Storages.Sql.Rows.{remove_all_caches-to_be_cached, save_node-get_node}
use sapper.Tests.Sample.{app}

-- The only node there is has one JSON form.
abbrev codec : Codec (List ℕ) Text
codec = record {
  encode_node = λ _. some (text "{}");
  decode_node = λ _. some app;
  encode_cache = λ _. none;
  decode_cache = λ _. none;
}

abbrev cached : Database
cached = record {
  kv =
      (text "node:1", text "{}")
      ∷ (text "name_to_id:app", text "1")
      ∷ (text "cache:1", text "{}")
      ∷ [];
  stack = [];
  last_id = 1;
  fails = λ _. false;
}

abbrev cleared : Database
cleared = record cached { kv = (text "node:1", text "{}") ∷ (text "name_to_id:app", text "1") ∷ [] }

remove_all_caches-to_be_cached_example :
    (to_be_cached cleared ≡ to_be_cached cached) × ((id : ℕ) → get_cache codec cleared id ≡ ok none)
unfolding remove_all_caches
remove_all_caches-to_be_cached_example =
    remove_all_caches-to_be_cached codec cached cleared refl (λ _. refl)

save_node-get_node_example :
    ((x : GraphError) × (save_node codec app cached ≡ (err x, cached)))
    ⊎ (t : Database) × (save_node codec app cached ≡ (ok tt, t))
      × (get_node codec t 1 ≡ ok app)
      × (name_to_id t (text "app") ≡ ok 1)
      × (elem 1 t.stack ≡ true)
      × ((id : ℕ) → id < 2 ^ 32 → id ≢ 1 → get_node codec t id ≡ get_node codec cached id)
save_node-get_node_example =
    save_node-get_node codec cached app (text "{}") refl refl (omega arith) (λ _. refl)
