-- ===== src/Srcinfo/Fatal.antt =====
-- The diagnostics of src/srcinfo.cpp through its checks: those that are fatal.
use aurhub.Base.{
  ℕ, ◌≡◌, refl, Bool, true, false, not, ◌||◌, List, [], ◌∷◌, ◌++◌, arith, if◌then◌else◌, length,
  ◌==◌,
}
use mathlib.Core.List.{reverse}
use aurhub.Bytes.{Bytes, is_empty}
use aurhub.Srcinfo.Fields
use aurhub.Srcinfo.Fields.{
  SrcinfoSeverity, fatal, SrcinfoDiagnosticCode, SrcinfoDiagnostic, Diagnostics, missing_pkgbase,
  missing_pkgname, missing_pkgver, missing_pkgrel, missing_arch, PresentValue, ArchField,
  ArchDimension, Fields, add_diagnostic, assign_scalar, assign_projected_field, contains_arch,
  validate_dimension, validate_arch_field, validate_core_arches, has_fatal,
}
use aurhub.Srcinfo.Key.{FieldId, ParsedKey, is_text}
use aurhub.Srcinfo.Parse.{PackageBlock, IgnoredArchUse, Parser}
use aurhub.Srcinfo.Text.{codes}
use aurhub.Srcinfo.Output.{
  is_given, is_listed, require, check_required, check_block, check_blocks, check_ignored, check_all,
}

-- If the later diagnostics have no fatal one, neither have the earlier.
abbrev pub Keeps : Diagnostics → Diagnostics → Type 0
Keeps earlier later = has_fatal later ≡ false → has_fatal earlier ≡ false

pub Keeps-if :
    (t : Bool) (ds a b : Diagnostics) → Keeps ds a → Keeps ds b → Keeps ds (if t then a else b)
Keeps-if true ds a b p q = p
Keeps-if false ds a b p q = q

has_fatal-append : (xs ys : Diagnostics) → has_fatal (xs ++ ys) ≡ (has_fatal xs || has_fatal ys)
unfolding has_fatal
has_fatal-append [] ys = refl
has_fatal-append (x ∷ xs) ys = rw (has_fatal-append xs ys) (ground arith)

pub add_diagnostic-Keeps :
    (ds : Diagnostics) (s : SrcinfoSeverity) (c : SrcinfoDiagnosticCode) (line : ℕ) (key : Bytes)
    → Keeps ds (add_diagnostic ds s c line key)
unfolding add_diagnostic
add_diagnostic-Keeps ds s c line key h =
    let one : SrcinfoDiagnostic = record { severity = s; code = c; line = line; key = key } in
    ground (arith, has_fatal-append ds (one ∷ []))

pub add_diagnostic-fatal :
    (ds : Diagnostics) (c : SrcinfoDiagnosticCode) (line : ℕ) (key : Bytes)
    → has_fatal (add_diagnostic ds fatal c line key) ≡ true
unfolding add_diagnostic has_fatal
add_diagnostic-fatal ds c line key =
    let one : SrcinfoDiagnostic = record { severity = fatal; code = c; line = line; key = key } in
    ground (arith, has_fatal-append ds (one ∷ []))

assign_scalar-Keeps :
    (v : PresentValue Bytes) (value : Bytes) (line : ℕ) (key : Bytes) (ds : Diagnostics)
    → Keeps ds (assign_scalar v value line key ds).1
unfolding assign_scalar
assign_scalar-Keeps v value line key ds =
    Keeps-if v.present ds _ _ (add_diagnostic-Keeps ds fatal Fields.duplicate_scalar line key)
      (λ h. h)

by_field :
    (fields : Fields) (f : FieldId) (arch key value : Bytes) (line : ℕ) (ds : Diagnostics)
    → Keeps ds
        (assign_projected_field fields (record { field = f; arch = arch }) key value line ds).1
unfolding assign_projected_field
by_field fields FieldId.pkgdesc arch key value line ds =
    assign_scalar-Keeps fields.description value line key ds
by_field fields FieldId.url arch key value line ds =
    assign_scalar-Keeps fields.url value line key ds
by_field fields FieldId.epoch arch key value line ds =
    assign_scalar-Keeps fields.epoch value line key ds
by_field fields FieldId.pkgver arch key value line ds =
    assign_scalar-Keeps fields.pkgver value line key ds
by_field fields FieldId.pkgrel arch key value line ds =
    assign_scalar-Keeps fields.pkgrel value line key ds
by_field fields _ arch key value line ds = λ h. h

pub assign_projected_field-Keeps :
    (fields : Fields) (parsed : ParsedKey) (key value : Bytes) (line : ℕ) (ds : Diagnostics)
    → Keeps ds (assign_projected_field fields parsed key value line ds).1
assign_projected_field-Keeps fields parsed key value line ds =
    by_field fields parsed.field parsed.arch key value line ds

validate_dimension-Keeps :
    (arches : List Bytes) (key : Bytes) (s : SrcinfoSeverity) (d : ArchDimension) (ds : Diagnostics)
    → Keeps ds (validate_dimension arches key s d ds)
unfolding validate_dimension
validate_dimension-Keeps arches key s d ds =
    Keeps-if (is_empty d.arch) ds _ _ (λ h. h)
      (Keeps-if (is_text d.arch "any") ds _ _ (add_diagnostic-Keeps ds s _ d.line _) (
        Keeps-if (not (contains_arch arches d.arch)) ds _ _ (add_diagnostic-Keeps ds s _ d.line _)
          (λ h. h)))

validate_arch_field-Keeps :
    (field : ArchField) (arches : List Bytes) (key : Bytes) (s : SrcinfoSeverity) (ds : Diagnostics)
    → Keeps ds (validate_arch_field field arches key s ds)
unfolding validate_arch_field
validate_arch_field-Keeps [] arches key s ds h = h
validate_arch_field-Keeps (d ∷ dimensions) arches key s ds h =
    validate_dimension-Keeps arches key s d ds
      (validate_arch_field-Keeps dimensions arches key s (validate_dimension arches key s d ds) h)

validate_core_arches-Keeps :
    (fields : Fields) (arches : List Bytes) (ds : Diagnostics)
    → Keeps ds (validate_core_arches fields arches ds)
unfolding validate_core_arches
validate_core_arches-Keeps fields arches ds h =
    let back = λ (field : ArchField) (key : Bytes) (es : Diagnostics).
      validate_arch_field-Keeps field arches key fatal es in
    back fields.depends _ ds (
      back fields.make_depends _ _ (
        back fields.check_depends _ _ (
          back fields.opt_depends _ _
            (back fields.provides _ _ (back fields.conflicts _ _ (back fields.replaces _ _ h))))))

check_block-Keeps :
    (base : Fields) (block : PackageBlock) (ds : Diagnostics) → Keeps ds (check_block base block ds)
unfolding check_block
check_block-Keeps base block ds h =
    Keeps-if _ ds _ _ (add_diagnostic-Keeps ds fatal _ block.line _) (λ x. x)
      (validate_core_arches-Keeps block.fields _ _ h)

check_blocks-Keeps :
    (base : Fields) (blocks : List PackageBlock) (ds : Diagnostics)
    → Keeps ds (check_blocks base blocks ds)
unfolding check_blocks
check_blocks-Keeps base [] ds h = h
check_blocks-Keeps base (block ∷ blocks) ds h =
    check_block-Keeps base block ds (check_blocks-Keeps base blocks (check_block base block ds) h)

check_ignored-Keeps :
    (base : Fields) (blocks : List PackageBlock) (uses : List IgnoredArchUse) (ds : Diagnostics)
    → Keeps ds (check_ignored base blocks uses ds)
unfolding check_ignored
check_ignored-Keeps base blocks [] ds h = h
check_ignored-Keeps base blocks (use' ∷ uses) ds h =
    Keeps-if (is_text use'.arch "any") ds _ _ (add_diagnostic-Keeps ds _ _ use'.line _)
      (Keeps-if _ ds _ _ (add_diagnostic-Keeps ds _ _ use'.line _) (λ x. x))
      (check_ignored-Keeps base blocks uses _ h)

-- With no fatal diagnostic at the end, the test was passed, and there was none before it.
require-Keeps :
    (test : Bool) (c : SrcinfoDiagnosticCode) (key : Bytes) (ds : Diagnostics)
    → has_fatal (require test c key ds) ≡ false
    → (test ≡ true) × (has_fatal ds ≡ false)
unfolding require
require-Keeps true c key ds h = (refl, h)
require-Keeps false c key ds h = ground (arith, add_diagnostic-fatal ds c 0 key)

check_required-Keeps :
    (p : Parser)
    → has_fatal (check_required p) ≡ false
    → (has_fatal p.diagnostics ≡ false)
      × (p.has_pkgbase ≡ true)
      × (not (length p.blocks == 0) ≡ true)
unfolding check_required
check_required-Keeps p h =
    let base = p.base_fields in
    let ds1 = require p.has_pkgbase missing_pkgbase (codes "pkgbase") p.diagnostics in
    let ds2 = require (not (length p.blocks == 0)) missing_pkgname (codes "pkgname") ds1 in
    let ds3 = require (is_given base.pkgver) missing_pkgver (codes "pkgver") ds2 in
    let ds4 = require (is_given base.pkgrel) missing_pkgrel (codes "pkgrel") ds3 in
    let (_, r4) = require-Keeps (is_listed base.arches) missing_arch (codes "arch") ds4 h in
    let (_, r3) = require-Keeps (is_given base.pkgrel) missing_pkgrel (codes "pkgrel") ds3 r4 in
    let (_, r2) = require-Keeps (is_given base.pkgver) missing_pkgver (codes "pkgver") ds2 r3 in
    let (some_block, r1) =
      require-Keeps (not (length p.blocks == 0)) missing_pkgname (codes "pkgname") ds1 r2 in
    let (some_base, r0) =
      require-Keeps p.has_pkgbase missing_pkgbase (codes "pkgbase") p.diagnostics r1 in
    (r0, some_base, some_block)

-- With no fatal diagnostic at the end there was none in the loop, and there are a base and a
-- package.
pub check_all-Keeps :
    (p : Parser)
    → has_fatal (check_all p) ≡ false
    → (has_fatal p.diagnostics ≡ false)
      × (p.has_pkgbase ≡ true)
      × (not (length p.blocks == 0) ≡ true)
unfolding check_all
check_all-Keeps p h =
    let base = p.base_fields in
    let blocks = reverse p.blocks in
    check_required-Keeps p (
      validate_core_arches-Keeps base base.arches.value (check_required p)
        (check_blocks-Keeps base blocks _ (check_ignored-Keeps base blocks p.ignored_arches _ h)))
