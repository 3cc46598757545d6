-- ===== src/Service/Built.antt =====
-- The index of libraries that is built from a storage holds the packages of its libraries.
use sapper.Base.{
  nat_eq, text_eq, refl, sym, ap, subst, ◌∙◌, ◌≡◌, ◌↔◌, ◌⊎◌, inl, inr, ℕ, Text, Map, lookup, insert,
  keys, Bool, true, false, List, [], ◌∷◌, ◌++◌, Option, none, some, ◌>>=◌, Result, ok, err,
  if◌then◌else◌, Option-cases,
}
use mathlib.Core.List.{Memᴰ}
use mathlib.Core.List.Memᴰ
use sapper.Graph.{Node, Store, GraphError}
use sapper.Graph.Storage.{get_all_keys, get_nodes}
use sapper.Ingest.Osv.{PackageInfo}
use sapper.Ingest.Purl.{PackageUrl, purl_to_package}
use sapper.Ingest.Loader.{
  LibraryIndex, IndexedPackage, packages_named, is_indexed, index_nodes, build_library_index,
}
use sapper.Service.Libraries.{library_of, library_in, library_at}
use sapper.Service.Reads.{collect-Memᴰ, Memᴰ-collect, elem-keys, read_all, all_nodes}
use sapper.Service.Index.{Packaged, packages_named-insert}

abbrev lib : ℕ → Text → Option (ℕ × Text)
lib id purl = some (id, purl)

module _ (from_string : Text → Option PackageUrl) where
  abbrev with_package : ℕ → LibraryIndex → Option PackageInfo → LibraryIndex
  with_package id idx x = elim x [
    | none ↦ idx
    | some info ↦
        insert info.name (packages_named info.name idx ++ record { id = id; info = info } ∷ []) idx
  ]

  with_package-Packaged :
      (name : Text) (p : IndexedPackage) (id : ℕ) (purl : Text) (idx : LibraryIndex)
      (x : Option PackageInfo)
      → purl_to_package from_string purl ≡ x
      → Memᴰ p (packages_named name (with_package id idx x))
        ↔ (Memᴰ p (packages_named name idx) ⊎ Packaged from_string name p (some (id, purl)))
  with_package-Packaged name p id purl idx none e = (
    inl,
    λ o. elim o [ inl m ↦ m | inr (other, same, found, _) ↦ absurd (missing other same found) ],
  )
    where
      snd : (other : Text) → lib id purl ≡ lib p.id other → purl ≡ other
      snd other same = cc

      clash : {a : Option PackageInfo} → a ≡ none → a ≡ some p.info → ⊥
      clash e f = cc

      missing :
          (other : Text)
          → lib id purl ≡ lib p.id other
          → purl_to_package from_string other ≡ some p.info
          → ⊥
      missing other same found = clash e (ap (purl_to_package from_string) (snd other same) ∙ found)
  with_package-Packaged name p id purl idx (some info) e =
      let q : IndexedPackage = record { id = id; info = info } in
      let (to, from) = packages_named-insert from_string name info.name p q idx in
      (
        λ m. elim (to m) [
          | inl old ↦ inl old
          | inr (same, named) ↦ inr (
            purl,
            ap (λ (r : IndexedPackage). some (r.id, purl)) (sym same),
            e ∙ ap (λ (r : IndexedPackage). some r.info) (sym same),
            ap (λ (r : IndexedPackage). r.info.name) same ∙ named,
          )
        ],
        λ o. elim o [
          | inl old ↦ from (inl old)
          | inr (other, same, found, named) ↦
              let agree =
                some_inj p.info info
                  (sym found ∙ ap (purl_to_package from_string) (sym (snd other same)) ∙ e) in
              from (
                inr (
                  made (fst other same) agree,
                  ap (λ (i : PackageInfo). i.name) (sym agree) ∙ named,
                ))
        ],
      )
    where
      fst : (other : Text) → lib id purl ≡ lib p.id other → id ≡ p.id
      fst other same = cc

      snd : (other : Text) → lib id purl ≡ lib p.id other → purl ≡ other
      snd other same = cc

      some_inj : (a b : PackageInfo) → some a ≡ some b → a ≡ b
      some_inj a b e = cc

      built : ℕ → PackageInfo → IndexedPackage
      built i j = record { id = i; info = j }

      made : id ≡ p.id → p.info ≡ info → p ≡ built id info
      made e f = ap (λ i. built i p.info) (sym e) ∙ ap (λ j. built id j) f

module _ {B M : Type 0} (from_string : Text → Option PackageUrl) where
  abbrev indexing : Node B M → LibraryIndex → Bool → LibraryIndex
  indexing n idx b =
      if b then with_package from_string n.id idx (purl_to_package from_string n.name) else idx

  indexing-Packaged :
      (name : Text) (p : IndexedPackage) (n : Node B M) (idx : LibraryIndex) (b : Bool)
      → Memᴰ p (packages_named name (indexing n idx b)) ↔ (
          Memᴰ p (packages_named name idx)
          ⊎ Packaged from_string name p (if b then some (n.id, n.name) else none))
  indexing-Packaged name p n idx true =
      with_package-Packaged from_string name p n.id n.name idx (purl_to_package from_string n.name)
        refl
  indexing-Packaged name p n idx false =
      (inl, λ o. elim o [ inl m ↦ m | inr (_, e, _, _) ↦ absurd cc ])

  -- The index holds what it held and the packages of the libraries among the nodes.
  index_nodes-Packaged :
      (name : Text) (p : IndexedPackage) (nodes : Map ℕ (Node B M)) (idx : LibraryIndex)
      → Memᴰ p (packages_named name (index_nodes from_string nodes idx)) ↔ (
          Memᴰ p (packages_named name idx)
          ⊎ (id : ℕ) × (n : Node B M) × Memᴰ (id, n) nodes
            × Packaged from_string name p (library_of n))
  unfolding index_nodes
  index_nodes-Packaged name p [] idx =
      (inl, λ o. elim o [ inl m ↦ m | inr (_, _, m, _) ↦ absurd (Memᴰ.not-nil m) ])
  index_nodes-Packaged name p ((id, n) ∷ rest) idx =
      let b = is_indexed from_string n in
      let (to, from) = index_nodes-Packaged name p rest (indexing n idx b) in
      let (to_one, from_one) = indexing-Packaged name p n idx b in
      (
        λ m. elim (to m) [
          | inl m' ↦ elim (to_one m') [
            | inl old ↦ inl old
            | inr found ↦ inr (id, n, Memᴰ.head refl, found)
          ]
          | inr (id', n', m', found) ↦ inr (id', n', Memᴰ.tail m', found)
        ],
        λ o. elim o [
          | inl old ↦ from (inl (from_one (inl old)))
          | inr (id', n', m', found) ↦ elim (Memᴰ.cases_cons m') [
            | inl same ↦ from (
                inl (
                  from_one (
                    inr (
                      subst (λ x. Packaged from_string name p (library_of x)) (ap (λ e. e.1) same)
                        found))))
            | inr later ↦ from (inr (id', n', later, found))
          ]
        ],
      )

  -- The index is about the libraries of the storage, and about all of them.
  abbrev pub IsFresh : LibraryIndex → Store B M → Type 0
  IsFresh idx s =
      (name : Text) (p : IndexedPackage)
      → Memᴰ p (packages_named name idx)
        ↔ ((id : ℕ) × Packaged from_string name p (library_at s id))

module _ {B M : Type 0} (from_string : Text → Option PackageUrl) (s : Store B M) where
  abbrev built_on : Result GraphError (Map ℕ (Node B M)) → Result GraphError LibraryIndex
  built_on r = r >>= λ nodes. ok (index_nodes from_string nodes [])

  from_nodes :
      (ks : List ℕ) (idx : LibraryIndex) (r : Result GraphError (Map ℕ (Node B M)))
      → get_all_keys s ≡ ok ks
      → get_nodes s ks ≡ r
      → built_on r ≡ ok idx
      → index_nodes from_string (all_nodes s) [] ≡ idx
  from_nodes ks idx (err x) a b e = absurd cc
  from_nodes ks idx (ok nodes) a b e =
      ap (λ l. index_nodes from_string l []) (sym (read_all s ks nodes a b))
      ∙ ok_inj (index_nodes from_string nodes []) e
    where
      found : LibraryIndex → Result GraphError LibraryIndex
      found i = ok i

      ok_inj : (i : LibraryIndex) → found i ≡ found idx → i ≡ idx
      ok_inj i e = cc

  from_keys :
      (idx : LibraryIndex) (r : Result GraphError (List ℕ))
      → get_all_keys s ≡ r
      → (r >>= λ ids. built_on (get_nodes s ids)) ≡ ok idx
      → index_nodes from_string (all_nodes s) [] ≡ idx
  from_keys idx (err x) a e = absurd cc
  from_keys idx (ok ks) a e = from_nodes ks idx (get_nodes s ks) a refl e

  -- A new index is fresh.
  pub build_library_index-IsFresh :
      (idx : LibraryIndex) → build_library_index from_string s ≡ ok idx → IsFresh from_string idx s
  unfolding build_library_index lookup
  build_library_index-IsFresh idx e =
      subst (λ i. IsFresh from_string i s) (from_keys idx (get_all_keys s) refl e)
        (λ name p.
          let (to, from) = index_nodes-Packaged from_string name p (all_nodes s) [] in
          (
            λ m. elim (to m) [
              | inl old ↦ absurd (Memᴰ.not-nil old)
              | inr (id, n, m', found) ↦ (
                id,
                subst (λ o. Packaged from_string name p (library_in o))
                    (sym (
                      collect-Memᴰ s.nodes (keys s.nodes) [] (λ i v l. absurd (Memᴰ.not-nil l)) id n
                        m'))
                    found,
              )
            ],
            λ (id, found). elim (Option-cases (lookup id s.nodes)) [
              | inl missing ↦ absurd (
                  nowhere name p
                    (subst (λ o. Packaged from_string name p (library_in o)) missing found))
              | inr (n, at) ↦ from (
                  inr (
                    id,
                    n,
                    Memᴰ-collect s.nodes (keys s.nodes) [] id n at
                        (inr (elem-keys s.nodes id n at)),
                    subst (λ o. Packaged from_string name p (library_in o)) at found,
                  ))
            ],
          ))
    where
      nowhere : (name : Text) (p : IndexedPackage) → Packaged from_string name p none → ⊥
      nowhere name p (purl, e, _, _) = cc
