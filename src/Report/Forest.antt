-- ===== src/Report/Forest.antt =====
-- pkg/report/merge.go: the union-find of `mergeAliases`. An index without an entry is its own parent,
-- as the first loop sets it.
pub mod Chains
pub mod Labels
pub mod Classes
use sapper.Base.{
  length, nat_eq, text_eq, ℕ, zero, suc, ◌+◌, Text, Map, lookup, insert, List, [], ◌∷◌, Option,
  none, some, ◌==◌, if◌then◌else◌,
}

abbrev pub Parents : Type 0
Parents = Map ℕ ℕ

abbrev pub parent_of : Parents → ℕ → ℕ
parent_of p i = elim (lookup i p) [ none ↦ i | some j ↦ j ]

-- `find`, which points every index on its way to the root.
unfoldable pub find : ℕ → ℕ → Parents → ℕ × Parents
find zero i p = (i, p)
find (suc fuel) i p =
    let rest = find fuel (parent_of p i) p in
    if parent_of p i == i then (i, p) else (rest.0, insert i rest.0 rest.1)

-- `parent[find(i)] = find(j)`
unfoldable pub unite : ℕ → ℕ → ℕ → Parents → Parents
unfolding find
unite fuel i j p =
    let (root_i, q) = find fuel i p in let (root_j, r) = find fuel j q in insert root_i root_j r

pub record Forest : Type 0 where
  pub parent : Parents
  pub owner : Map Text ℕ

-- One name of the finding `i`.
unfoldable pub claim : ℕ → ℕ → Text → Forest → Forest
unfolding unite
claim fuel i name f = elim (lookup name f.owner) [
  | some j ↦ record f { parent = unite fuel i j f.parent }
  | none ↦ record f { owner = insert name i f.owner }
]

unfoldable pub claim_all : ℕ → ℕ → List Text → Forest → Forest
unfolding claim
claim_all fuel i [] f = f
claim_all fuel i (name ∷ names) f = claim_all fuel i names (claim fuel i name f)

-- The loop over the findings, given by their names, from the index `i` on.
unfoldable pub claim_each : ℕ → ℕ → List (List Text) → Forest → Forest
unfolding claim_all
claim_each fuel i [] f = f
claim_each fuel i (names ∷ rest) f = claim_each fuel (i + 1) rest (claim_all fuel i names f)

-- The roots, in the order of the second loop.
unfoldable pub roots : ℕ → ℕ → List (List Text) → Parents → List ℕ
unfolding find
roots fuel i [] p = []
roots fuel i (_ ∷ rest) p = let (root, q) = find fuel i p in root ∷ roots fuel (i + 1) rest q

-- How many names there are: enough fuel for `find`, since each name unites two trees at most once.
abbrev pub name_count : List (List Text) → ℕ
name_count [] = 0
name_count (names ∷ rest) = length names + name_count rest

-- The roots of the findings, given by their names.
unfoldable pub alias_roots : List (List Text) → List ℕ
unfolding claim_each roots
alias_roots names =
    let fuel = suc (name_count names) in
    let forest = claim_each fuel 0 names (record { parent = []; owner = [] }) in
    roots fuel 0 names forest.parent
