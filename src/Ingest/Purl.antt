-- ===== src/Ingest/Purl.antt =====
-- pkg/tools/ingest/helpers.go: package URLs. github.com/package-url/packageurl-go is a parameter.
use sapper.Base.{
  nat_eq, text_eq, Text, text, Map, lookup, [], ◌∷◌, ◌++◌, Option, none, some, ◌==◌, if◌then◌else◌,
}
use sapper.Versions.{is_nonempty}
use sapper.Ingest.Osv.{PackageInfo}

pub record PackageUrl : Type 0 where
  pub type : Text
  pub namespace : Text
  pub name : Text
  pub version : Text

-- `purlEcosystems`; "*" matches every namespace.
abbrev pub purl_ecosystems : Map Text (Map Text Text)
purl_ecosystems =
    (text "apk", (text "alpine", text "Alpine") ∷ [])
    ∷ (text "cargo", (text "*", text "crates.io") ∷ [])
    ∷ (text "deb", (text "debian", text "Debian") ∷ [])
    ∷ (text "hex", (text "*", text "Hex") ∷ [])
    ∷ (text "golang", (text "*", text "Go") ∷ [])
    ∷ (text "maven", (text "*", text "Maven") ∷ [])
    ∷ (text "nuget", (text "*", text "NuGet") ∷ [])
    ∷ (text "npm", (text "*", text "npm") ∷ [])
    ∷ (text "composer", (text "*", text "Packagist") ∷ [])
    ∷ (text "generic", (text "*", text "OSS-Fuzz") ∷ [])
    ∷ (text "pypi", (text "*", text "PyPI") ∷ [])
    ∷ (text "gem", (text "*", text "RubyGems") ∷ [])
    ∷ []

-- What stands for a type or a namespace that is not in the table.
abbrev pub fallback_ecosystem : PackageUrl → Text
fallback_ecosystem u = u.type ++ (text ":" ++ u.namespace)

abbrev ecosystem_in : PackageUrl → Map Text Text → Text
ecosystem_in u eco_map = elim (lookup (text "*") eco_map) [
  | some wildcard ↦ wildcard
  | none ↦ elim (lookup u.namespace eco_map) [
    | none ↦ fallback_ecosystem u
    | some ecosystem ↦ ecosystem
  ]
]

unfoldable pub get_purl_ecosystem : PackageUrl → Text
get_purl_ecosystem u = elim (lookup u.type purl_ecosystems) [
  | none ↦ fallback_ecosystem u
  | some eco_map ↦ ecosystem_in u eco_map
]

-- The `switch` on the ecosystem.
abbrev pub full_name : PackageUrl → Text → Text
full_name u ecosystem =
    if is_nonempty u.namespace
    then (if ecosystem == text "Maven"
        then u.namespace ++ (text ":" ++ u.name)
        else if ecosystem == text "Debian"
        then u.name
        else if ecosystem == text "Alpine"
        then u.name
        else u.namespace ++ (text "/" ++ u.name))
    else u.name

-- `PURLToPackage`, where `none` is an error of the parser.
unfoldable pub purl_to_package : (Text → Option PackageUrl) → Text → Option PackageInfo
purl_to_package from_string purl = elim (from_string purl) [
  | none ↦ none
  | some u ↦
      let ecosystem = get_purl_ecosystem u in
      some (record { name = full_name u ecosystem; version = u.version; ecosystem = ecosystem })
]
