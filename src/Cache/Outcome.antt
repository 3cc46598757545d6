-- ===== src/Cache/Outcome.antt =====
-- What `Cache` changes in the storage.
use sapper.Base.{
  nat_eq, text_eq, ℕ, ◌≡◌, ◌⊎◌, refl, Bool, true, false, List, [], ◌∷◌, Result, ok, err,
  if◌then◌else◌, inl, inr,
}
use sapper.Bitmap.{Bitmaps}
use sapper.Graph.{NodeCache, Store, Op, GraphError, failed}
use sapper.Graph.Storage.{insert_caches, to_be_cached, save_caches, clear_cache_stack}
use sapper.Cache.{cache, compute_caches, store_caches}
use sapper.Cache.Keys.{Hash}

module _ {B M : Type 0} ⦃bm : Bitmaps B⦄ where
  -- After a success nothing is left to cache; after a failure everything still is.
  abbrev Outcome : Store B M → Result GraphError (Unit {0}) × Store B M → Type 0
  Outcome s (r, t) =
      (t.nodes ≡ s.nodes)
      × (t.ids ≡ s.ids)
      × (((r ≡ ok tt) × (t.pending ≡ []))
          ⊎ ((e : GraphError) × (r ≡ err e) × (t.pending ≡ s.pending)))

  store_caches-Outcome :
      (h : Hash) (fuel : ℕ) (x : Result GraphError (List (NodeCache B))) (s : Store B M)
      → Outcome s (store_caches h fuel x s)
  unfolding save_caches clear_cache_stack
  store_caches-Outcome h fuel (err e) s = (refl, refl, inr (e, refl, refl))
  store_caches-Outcome h fuel (ok caches) s = split (s.fails Op.save_caches)
    where
      saved : Store B M
      saved = record s { cache = insert_caches caches s.cache }

      first : Bool → Result GraphError (Unit {0}) × Store B M
      first x = if x then (err (failed Op.save_caches), s) else (ok tt, saved)

      stored : Bool → Result GraphError (Unit {0}) × Store B M
      stored x = elim (first x).0 [
        | err e ↦ (err e, (first x).1)
        | ok _ ↦ clear_cache_stack (first x).1
      ]

      cleared :
          (y : Bool)
          → Outcome s (
              if y
              then (err (failed Op.clear_cache_stack), saved)
              else (ok tt, record saved { pending = [] }))
      cleared true = (refl, refl, inr (failed Op.clear_cache_stack, refl, refl))
      cleared false = (refl, refl, inl (refl, refl))

      split : (x : Bool) → Outcome s (stored x)
      split true = (refl, refl, inr (failed Op.save_caches, refl, refl))
      split false = cleared (s.fails Op.clear_cache_stack)

  -- `Cache` never changes a node or a name. When it succeeds, nothing is left to cache; when it fails, what
  -- was to be cached still is, so queries go on to walk the graph.
  pub cache-Outcome :
      (h : Hash) (fuel : ℕ) (s : Store B M)
      → let r = (cache h fuel s).0 in
        let t = (cache h fuel s).1 in
        (t.nodes ≡ s.nodes)
        × (t.ids ≡ s.ids)
        × (((r ≡ ok tt) × (t.pending ≡ []))
            ⊎ ((e : GraphError) × (r ≡ err e) × (t.pending ≡ s.pending)))
  unfolding cache to_be_cached
  cache-Outcome h fuel s = split (s.fails Op.to_be_cached) s.pending refl
    where
      asked : Bool → List ℕ → Result GraphError (Unit {0}) × Store B M
      asked b xs = elim (if b then err (failed Op.to_be_cached) else ok xs) [
        | err e ↦ (err e, s)
        | ok [] ↦ (ok tt, s)
        | ok (id ∷ ids) ↦ store_caches h fuel (compute_caches h fuel s (id ∷ ids)) s
      ]

      split : (b : Bool) (xs : List ℕ) → s.pending ≡ xs → Outcome s (asked b xs)
      split true xs e = (refl, refl, inr (failed Op.to_be_cached, refl, refl))
      split false [] e = (refl, refl, inl (refl, e))
      split false (id ∷ ids) e = store_caches-Outcome h fuel (compute_caches h fuel s (id ∷ ids)) s
