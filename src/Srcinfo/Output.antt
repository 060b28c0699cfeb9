-- ===== src/Srcinfo/Output.antt =====
-- The rest of `parse_srcinfo`: the checks behind the loop, and the packages of the result.
use aurhub.Base.{
  ℕ, Bool, not, ◌&&◌, List, [], ◌∷◌, Option, none, some, map, length, get_or, ◌==◌, if◌then◌else◌,
}
use mathlib.Core.List.{reverse}
use aurhub.Bytes.{Bytes, is_empty}
use aurhub.Model.{Package, pos}
use aurhub.Srcinfo.Fields.{
  fatal, warning, SrcinfoDiagnosticCode, Diagnostics, PresentValue, Fields, no_fields,
  add_diagnostic, contains_arch, validate_core_arches, flatten, merge_arch, make_version, has_fatal,
  invalid_arch_any, unsupported_arch, missing_pkgbase, missing_pkgname, missing_pkgver,
  missing_pkgrel, missing_arch,
}
use aurhub.Srcinfo.Key.{is_text}
use aurhub.Srcinfo.Parse.{PackageBlock, IgnoredArchUse, Parser, initial, on_lines}
use aurhub.Srcinfo.Text.{codes, split_lines}

pub record SrcinfoResult : Type 0 where
  pub packages : List Package
  pub diagnostics : Diagnostics

-- a test that adds a fatal diagnostic without a line
unfoldable pub require : Bool → SrcinfoDiagnosticCode → Bytes → Diagnostics → Diagnostics
unfolding add_diagnostic
require present code key diagnostics =
    if present then diagnostics else add_diagnostic diagnostics fatal code 0 key

abbrev pub is_given : PresentValue Bytes → Bool
is_given v = v.present && not (is_empty v.value)

abbrev pub is_listed : PresentValue (List Bytes) → Bool
is_listed v = v.present && not (length v.value == 0)

-- the five tests behind the loop
unfoldable pub check_required : Parser → Diagnostics
unfolding require is_empty
check_required p = require (is_listed p.base_fields.arches) missing_arch (codes "arch") (
    require (is_given p.base_fields.pkgrel) missing_pkgrel (codes "pkgrel") (
      require (is_given p.base_fields.pkgver) missing_pkgver (codes "pkgver") (
        require (not (length p.blocks == 0)) missing_pkgname (codes "pkgname")
          (require p.has_pkgbase missing_pkgbase (codes "pkgbase") p.diagnostics))))

-- the architectures of a package
abbrev pub arches_of : Fields → Fields → List Bytes
arches_of base fields = if fields.arches.present then fields.arches.value else base.arches.value

-- the body of the loop over the blocks
unfoldable pub check_block : Fields → PackageBlock → Diagnostics → Diagnostics
unfolding add_diagnostic validate_core_arches
check_block base block diagnostics =
    let arches = arches_of base block.fields in
    validate_core_arches block.fields arches (
      if block.fields.arches.present && length arches == 0
      then add_diagnostic diagnostics fatal missing_arch block.line (codes "arch")
      else diagnostics)

unfoldable pub check_blocks : Fields → List PackageBlock → Diagnostics → Diagnostics
unfolding check_block
check_blocks base [] diagnostics = diagnostics
check_blocks base (block ∷ blocks) diagnostics =
    check_blocks base blocks (check_block base block diagnostics)

abbrev no_block : PackageBlock
no_block = record { name = []; line = 0; fields = no_fields }

-- the architectures that an ignored field is held against
unfoldable pub ignored_arches_of : Fields → List PackageBlock → Option ℕ → List Bytes
unfolding no_fields
ignored_arches_of base blocks none = base.arches.value
ignored_arches_of base blocks (some index) = arches_of base (get_or blocks index no_block).fields

unfoldable pub check_ignored :
    Fields → List PackageBlock → List IgnoredArchUse → Diagnostics → Diagnostics
unfolding add_diagnostic ignored_arches_of
check_ignored base blocks [] diagnostics = diagnostics
check_ignored base blocks (use' ∷ uses) diagnostics = check_ignored base blocks uses (
    if is_text use'.arch "any"
    then add_diagnostic diagnostics warning invalid_arch_any use'.line use'.key
    else if not (contains_arch (ignored_arches_of base blocks use'.package_index) use'.arch)
    then add_diagnostic diagnostics warning unsupported_arch use'.line use'.key
    else diagnostics)

-- all diagnostics; the blocks in the order of the input
unfoldable pub check_all : Parser → Diagnostics
unfolding check_required validate_core_arches check_blocks check_ignored
check_all p =
    let base = p.base_fields in
    let blocks = reverse p.blocks in
    check_ignored base blocks p.ignored_arches
      (check_blocks base blocks (validate_core_arches base base.arches.value (check_required p)))

-- a value of the package, or else of the base
abbrev pick : {A : Type 0} → PresentValue A → PresentValue A → A
pick local base = if local.present then local.value else base.value

-- the body of the last loop
unfoldable pub make_package : Bytes → Fields → PackageBlock → Package
unfolding make_version merge_arch flatten
make_package base_name base block =
    let fields = block.fields in
    record {
      name = block.name;
      base = base_name;
      version = make_version base;
      description = pick fields.description base.description;
      url = pick fields.url base.url;
      license = pick fields.license base.license;
      groups = pick fields.groups base.groups;
      depends = merge_arch base.depends fields.depends;
      make_depends = flatten base.make_depends;
      check_depends = flatten base.check_depends;
      opt_depends = merge_arch base.opt_depends fields.opt_depends;
      provides = merge_arch base.provides fields.provides;
      conflicts = merge_arch base.conflicts fields.conflicts;
      replaces = merge_arch base.replaces fields.replaces;
      keywords = [];
      updated_at = pos 0;
    }

unfoldable pub finish : Parser → SrcinfoResult
unfolding check_all make_package
finish p =
    let diagnostics = check_all p in
    record {
      packages =
          if has_fatal diagnostics
          then []
          else map (make_package p.base_name p.base_fields) (reverse p.blocks);
      diagnostics = diagnostics;
    }

unfoldable pub parse_srcinfo : Bytes → SrcinfoResult
unfolding initial on_lines split_lines finish
parse_srcinfo input = finish (on_lines (split_lines input) initial)
