-- ===== src/Srcinfo/Report.antt =====
-- What src/srcinfo.cpp says of a result, and the search text of a package.
use aurhub.Base.{
  ℕ, suc, ◌+◌, ◌≡◌, refl, true, false, ◌||◌, [], length, ◌∷◌, ◌++◌, map, arith, ltb, leb, ◌-◌, ◌&&◌,
  ◌↔◌, if◌then◌else◌,
}
use aurhub.Bytes.{Bytes, contains}
use aurhub.Bytes.Case.{HasText, lowered, lowered-Lowers, contains-lowered_iff}
use aurhub.Model.{Package}
use aurhub.Search.Query.{lower_byte, normalize_search_query}
use aurhub.Srcinfo.Fields
use aurhub.Srcinfo.Fields.{
  SrcinfoSeverity, fatal, warning, SrcinfoDiagnosticCode, Diagnostics, has_fatal,
}
use aurhub.Srcinfo.Text.{codes}

unfoldable pub warning_count : Diagnostics → ℕ
warning_count [] = 0
warning_count (d ∷ diagnostics) =
    (elim d.severity [ warning ↦ 1 | fatal ↦ 0 ]) + warning_count diagnostics

unfoldable pub fatal_count : Diagnostics → ℕ
fatal_count [] = 0
fatal_count (d ∷ diagnostics) =
    (elim d.severity [ fatal ↦ 1 | warning ↦ 0 ]) + fatal_count diagnostics

unfoldable pub srcinfo_severity_name : SrcinfoSeverity → Bytes
srcinfo_severity_name warning = codes "warning"
srcinfo_severity_name fatal = codes "fatal"

unfoldable pub srcinfo_diagnostic_code_name : SrcinfoDiagnosticCode → Bytes
srcinfo_diagnostic_code_name Fields.malformed_line = codes "malformed_line"
srcinfo_diagnostic_code_name Fields.empty_key = codes "empty_key"
srcinfo_diagnostic_code_name Fields.field_before_pkgbase = codes "field_before_pkgbase"
srcinfo_diagnostic_code_name Fields.duplicate_pkgbase = codes "duplicate_pkgbase"
srcinfo_diagnostic_code_name Fields.empty_pkgbase = codes "empty_pkgbase"
srcinfo_diagnostic_code_name Fields.duplicate_pkgname = codes "duplicate_pkgname"
srcinfo_diagnostic_code_name Fields.empty_pkgname = codes "empty_pkgname"
srcinfo_diagnostic_code_name Fields.unknown_field = codes "unknown_field"
srcinfo_diagnostic_code_name Fields.duplicate_scalar = codes "duplicate_scalar"
srcinfo_diagnostic_code_name Fields.field_not_allowed_in_package =
    codes "field_not_allowed_in_package"
srcinfo_diagnostic_code_name Fields.ignored_package_field = codes "ignored_package_field"
srcinfo_diagnostic_code_name Fields.invalid_arch_any = codes "invalid_arch_any"
srcinfo_diagnostic_code_name Fields.unsupported_arch = codes "unsupported_arch"
srcinfo_diagnostic_code_name Fields.missing_pkgbase = codes "missing_pkgbase"
srcinfo_diagnostic_code_name Fields.missing_pkgname = codes "missing_pkgname"
srcinfo_diagnostic_code_name Fields.missing_pkgver = codes "missing_pkgver"
srcinfo_diagnostic_code_name Fields.missing_pkgrel = codes "missing_pkgrel"
srcinfo_diagnostic_code_name Fields.missing_arch = codes "missing_arch"

-- the body of the loop of `normalized_search_text`
unfoldable pub lower_value : ℕ → ℕ
lower_value value = if leb b'A' value && leb value b'Z' then value + (b'a' - b'A') else value

unfoldable pub normalized_search_text : Package → Bytes
unfolding lower_value
normalized_search_text p = map lower_value (p.name ++ b' ' ∷ p.description)

-- A list of diagnostics has a fatal one if and only if it counts one, and every diagnostic is
-- counted either as a warning or as fatal.
pub fatal_count-has_fatal :
    (diagnostics : Diagnostics)
    → (has_fatal diagnostics ≡ ltb 0 (fatal_count diagnostics))
      × (warning_count diagnostics + fatal_count diagnostics ≡ length diagnostics)
unfolding has_fatal fatal_count warning_count
fatal_count-has_fatal [] = (refl, refl)
fatal_count-has_fatal (d ∷ ds) =
    let (a, b) = fatal_count-has_fatal ds in
    (
      elim d.severity
          as (λ s.
            ((elim s [ fatal ↦ true | warning ↦ false ]) || has_fatal ds)
            ≡ ltb 0 ((elim s [ fatal ↦ 1 | warning ↦ 0 ]) + fatal_count ds)) [
              | fatal ↦ ground arith
              | warning ↦ ground (arith, a)
            ],
      elim d.severity
          as (λ s.
            (elim s [ warning ↦ 1 | fatal ↦ 0 ])
              + warning_count ds
              + ((elim s [ fatal ↦ 1 | warning ↦ 0 ]) + fatal_count ds)
            ≡ suc (length ds)) [ fatal ↦ omega (arith, b) | warning ↦ omega (arith, b) ],
    )

-- A package is found under a query if and only if a piece of its name, a blank and its description
-- is the query but for the case of letters: the search text contains the normalized query exactly
-- then.
pub normalized_search_text-contains :
    (p : Package) (query : Bytes)
    → (contains (normalized_search_text p) (normalize_search_query query) ≡ true)
      ↔ HasText (p.name ++ b' ' ∷ p.description) query
unfolding normalized_search_text normalize_search_query lower_value lower_byte lowered
normalized_search_text-contains p query =
    contains-lowered_iff lowered lowered-Lowers (p.name ++ b' ' ∷ p.description) query
