-- ===== src/Service/Index.antt =====
-- What the index of libraries holds after it is built.
use sapper.Base.{
  nat_eq, text_eq, sym, ap, subst, ◌≡◌, ◌↔◌, ◌⊎◌, inl, inr, ℕ, Text, insert, lookup-insert, Bool,
  true, false, List, [], ◌∷◌, ◌++◌, Option, none, some, Bool-cases, text_beq, text_beq_iff,
}
use mathlib.Core.List.{Memᴰ}
use mathlib.Core.List.Memᴰ
use sapper.Ingest.Purl.{PackageUrl, purl_to_package}
use sapper.Ingest.Loader.{LibraryIndex, IndexedPackage, packages_named}

module _ (from_string : Text → Option PackageUrl) where
  -- The package of a library, under its name.
  abbrev pub Packaged : Text → IndexedPackage → Option (ℕ × Text) → Type 0
  Packaged name p library =
      (purl : Text) × (library ≡ some (p.id, purl))
      × (purl_to_package from_string purl ≡ some p.info)
      × (p.info.name ≡ name)

  abbrev on : Option (List IndexedPackage) → List IndexedPackage
  on o = elim o [ none ↦ [] | some packages ↦ packages ]

  pub packages_named-insert :
      (name key : Text) (p q : IndexedPackage) (idx : LibraryIndex)
      → Memᴰ p (packages_named name (insert key (packages_named key idx ++ q ∷ []) idx))
        ↔ (Memᴰ p (packages_named name idx) ⊎ (p ≡ q) × (key ≡ name))
  packages_named-insert name key p q idx =
      subst (λ l. Memᴰ p l ↔ (Memᴰ p (packages_named name idx) ⊎ (p ≡ q) × (key ≡ name)))
        (sym (ap on (lookup-insert key name (packages_named key idx ++ q ∷ []) idx)))
        (elim (Bool-cases (text_beq key name)) [
          | inl e ↦ rw e (here ((text_beq_iff key name).0 e))
          | inr e ↦ rw e (
            inl,
            λ o. elim o [
              | inl m ↦ m
              | inr (_, same) ↦
                  absurd (apart (text_beq key name) ((text_beq_iff key name).1 same) e)
            ],
          )
        ])
    where
      apart : (b : Bool) → b ≡ true → b ≡ false → ⊥
      apart b e h = cc

      here :
          key ≡ name
          → Memᴰ p (packages_named key idx ++ q ∷ [])
            ↔ (Memᴰ p (packages_named name idx) ⊎ (p ≡ q) × (key ≡ name))
      here same = (
        λ m. elim (Memᴰ.append_cases (packages_named key idx) m) [
          | inl old ↦ inl (subst (λ k. Memᴰ p (packages_named k idx)) same old)
          | inr new ↦ inr (Memᴰ.eq_of_singleton new, same)
        ],
        λ o. elim o [
          | inl old ↦
              Memᴰ.append_left (q ∷ []) (subst (λ k. Memᴰ p (packages_named k idx)) (sym same) old)
          | inr (e, _) ↦ Memᴰ.append_right (packages_named key idx) (Memᴰ.head e)
        ],
      )
