-- ===== src/Tests/Sections.antt =====
-- A .SRCINFO with two packages.
use aurhub.Base.{◌+◌, ◌≡◌, ◌↔◌, inl, inr, arith, refl, true, [], ◌∷◌, map, length, ltb, ◌==◌}
use mathlib.Core.List.{Nodup, Mem}
use aurhub.Bytes.{Bytes, bytes_eq, contains}
use aurhub.Bytes.Case.{HasText}
use aurhub.Model.{Package, pos}
use aurhub.Search.Query.{normalize_search_query}
use aurhub.Srcinfo.Fields.{fatal, warning, unknown_field, Diagnostics, has_fatal}
use aurhub.Srcinfo.Names.{
  parse_srcinfo-bases, parse_srcinfo-Nodup, parse_srcinfo-names, parse_srcinfo-has_fatal,
}
use aurhub.Srcinfo.Output.{parse_srcinfo}
use aurhub.Srcinfo.Report.{
  fatal_count, warning_count, fatal_count-has_fatal, normalized_search_text,
  normalized_search_text-contains,
}
use aurhub.Srcinfo.Text.{codes}

abbrev section : Bytes
section = codes "pkgbase = b\npkgver = 1\npkgrel = 2\narch = any\npkgname = x\npkgname = y\n"

parse_srcinfo-Nodup_example : Nodup (map (λ (q : Package). q.name) (parse_srcinfo section).packages)
parse_srcinfo-Nodup_example = parse_srcinfo-Nodup section

parse_srcinfo-names_example :
    ¬ Mem [] (map (λ (q : Package). q.name) (parse_srcinfo section).packages)
parse_srcinfo-names_example = parse_srcinfo-names section

parse_srcinfo-bases_example :
    ¬ Mem [] (map (λ (q : Package). q.base) (parse_srcinfo section).packages)
parse_srcinfo-bases_example = parse_srcinfo-bases section

parse_srcinfo-has_fatal_example :
    has_fatal (parse_srcinfo section).diagnostics ≡ (length (parse_srcinfo section).packages == 0)
parse_srcinfo-has_fatal_example = parse_srcinfo-has_fatal section

names_found :
    map (λ (q : Package). q.name) (parse_srcinfo section).packages ≡ codes "x" ∷ codes "y" ∷ []
unfolding parse_srcinfo has_fatal bytes_eq
names_found = refl

abbrev some_diagnostics : Diagnostics
some_diagnostics =
    record { severity = fatal; code = unknown_field; line = 3; key = codes "k" }
    ∷ record { severity = warning; code = unknown_field; line = 4; key = codes "k" }
    ∷ []

fatal_count-has_fatal_example :
    (has_fatal some_diagnostics ≡ ltb 0 (fatal_count some_diagnostics))
    × (warning_count some_diagnostics + fatal_count some_diagnostics ≡ length some_diagnostics)
fatal_count-has_fatal_example = fatal_count-has_fatal some_diagnostics

abbrev yay : Package
yay = record {
  name = codes "Yay";
  base = codes "yay";
  version = codes "1";
  description = codes "AUR helper";
  url = [];
  license = [];
  groups = [];
  depends = [];
  make_depends = [];
  check_depends = [];
  opt_depends = [];
  provides = [];
  conflicts = [];
  replaces = [];
  keywords = [];
  updated_at = pos 0;
}

abbrev has_y_aur : HasText (codes "Yay AUR helper") (codes "Y aur")
has_y_aur = (
  codes "Ya",
  codes "y AUR",
  codes " helper",
  refl,
  (
    inr (inr (omega arith)),
    (inl refl, (inr (inl (omega arith)), (inr (inl (omega arith)), (inr (inl (omega arith)), tt)))),
  ),
)

normalized_search_text-contains_example :
    (contains (normalized_search_text yay) (normalize_search_query (codes "Y aur")) ≡ true)
    ↔ HasText (codes "Yay AUR helper") (codes "Y aur")
normalized_search_text-contains_example = normalized_search_text-contains yay (codes "Y aur")

found : contains (normalized_search_text yay) (normalize_search_query (codes "Y aur")) ≡ true
found = (normalized_search_text-contains yay (codes "Y aur")).1 has_y_aur
