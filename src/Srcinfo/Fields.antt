-- ===== src/Srcinfo/Fields.antt =====
-- The values of a section, the diagnostics, and what the fields do with a value.
use aurhub.Base.{ℕ, Bool, true, false, not, ◌&&◌, ◌||◌, List, [], ◌∷◌, ◌++◌, if◌then◌else◌}
use aurhub.Bytes.{Bytes, bytes_eq, is_empty}
use aurhub.Srcinfo.Key.{FieldId, ParsedKey, is_text}
use aurhub.Srcinfo.Text.{codes}

pub data SrcinfoSeverity : Type 0 where
  warning fatal : SrcinfoSeverity

pub data SrcinfoDiagnosticCode : Type 0 where
  malformed_line empty_key field_before_pkgbase duplicate_pkgbase : SrcinfoDiagnosticCode
  empty_pkgbase duplicate_pkgname empty_pkgname unknown_field : SrcinfoDiagnosticCode
  duplicate_scalar field_not_allowed_in_package ignored_package_field : SrcinfoDiagnosticCode
  invalid_arch_any unsupported_arch missing_pkgbase missing_pkgname : SrcinfoDiagnosticCode
  missing_pkgver missing_pkgrel missing_arch : SrcinfoDiagnosticCode

pub record SrcinfoDiagnostic : Type 0 where
  pub severity : SrcinfoSeverity
  pub code : SrcinfoDiagnosticCode
  pub line : ℕ
  pub key : Bytes

abbrev pub Diagnostics : Type 0
Diagnostics = List SrcinfoDiagnostic

unfoldable pub add_diagnostic :
    Diagnostics → SrcinfoSeverity → SrcinfoDiagnosticCode → ℕ → Bytes → Diagnostics
add_diagnostic diagnostics severity code line key =
    diagnostics ++ record { severity = severity; code = code; line = line; key = key } ∷ []

pub record PresentValue (A : Type 0) : Type 0 where
  pub present : Bool
  pub value : A

pub record ArchDimension : Type 0 where
  pub arch : Bytes
  pub values : List Bytes
  pub line : ℕ

-- `ArchField` is its list of dimensions.
abbrev pub ArchField : Type 0
ArchField = List ArchDimension

pub record Fields : Type 0 where
  pub description : PresentValue Bytes
  pub url : PresentValue Bytes
  pub epoch : PresentValue Bytes
  pub pkgver : PresentValue Bytes
  pub pkgrel : PresentValue Bytes
  pub arches : PresentValue (List Bytes)
  pub license : PresentValue (List Bytes)
  pub groups : PresentValue (List Bytes)
  pub depends : ArchField
  pub make_depends : ArchField
  pub check_depends : ArchField
  pub opt_depends : ArchField
  pub provides : ArchField
  pub conflicts : ArchField
  pub replaces : ArchField

abbrev absent : {A : Type 0} → A → PresentValue A
absent a = record { present = false; value = a }

-- `Fields{}`
unfoldable pub no_fields : Fields
no_fields = record {
  description = absent [];
  url = absent [];
  epoch = absent [];
  pkgver = absent [];
  pkgrel = absent [];
  arches = absent [];
  license = absent [];
  groups = absent [];
  depends = [];
  make_depends = [];
  check_depends = [];
  opt_depends = [];
  provides = [];
  conflicts = [];
  replaces = [];
}

-- `assign_scalar`: the new value, and a diagnostic if there was one
unfoldable pub assign_scalar :
    PresentValue Bytes → Bytes → ℕ → Bytes → Diagnostics → PresentValue Bytes × Diagnostics
unfolding add_diagnostic
assign_scalar field value line key diagnostics = (
  record { present = true; value = value },
  if field.present then add_diagnostic diagnostics fatal duplicate_scalar line key else diagnostics,
)

unfoldable pub append_plain : PresentValue (List Bytes) → Bytes → PresentValue (List Bytes)
unfolding is_empty
append_plain field value = record {
  present = true;
  value = if is_empty value then field.value else field.value ++ value ∷ [];
}

-- The values of a dimension, with one more unless it is empty.
unfoldable pub add_value : Bytes → List Bytes → List Bytes
unfolding is_empty
add_value value values = if is_empty value then values else values ++ value ∷ []

-- The value goes to the first dimension of the architecture, or to a new one at the end.
unfoldable pub append_arch : ArchField → Bytes → Bytes → ℕ → ArchField
unfolding add_value
append_arch [] arch value line =
    record { arch = arch; values = add_value value []; line = line } ∷ []
append_arch (d ∷ dimensions) arch value line =
    let rest = append_arch dimensions arch value line in
    if bytes_eq d.arch arch
    then record d { values = add_value value d.values } ∷ dimensions
    else d ∷ rest

unfoldable pub assign_projected_field :
    Fields → ParsedKey → Bytes → Bytes → ℕ → Diagnostics → Fields × Diagnostics
unfolding assign_scalar append_plain append_arch
assign_projected_field fields parsed key value line diagnostics =
    let a = parsed.arch in
    elim parsed.field [
      | FieldId.pkgdesc ↦
          let (v, ds) = assign_scalar fields.description value line key diagnostics in
          (record fields { description = v }, ds)
      | FieldId.url ↦
          let (v, ds) = assign_scalar fields.url value line key diagnostics in
          (record fields { url = v }, ds)
      | FieldId.epoch ↦
          let (v, ds) = assign_scalar fields.epoch value line key diagnostics in
          (record fields { epoch = v }, ds)
      | FieldId.pkgver ↦
          let (v, ds) = assign_scalar fields.pkgver value line key diagnostics in
          (record fields { pkgver = v }, ds)
      | FieldId.pkgrel ↦
          let (v, ds) = assign_scalar fields.pkgrel value line key diagnostics in
          (record fields { pkgrel = v }, ds)
      | FieldId.arch ↦ (record fields { arches = append_plain fields.arches value }, diagnostics)
      | FieldId.license ↦
          (record fields { license = append_plain fields.license value }, diagnostics)
      | FieldId.groups ↦ (record fields { groups = append_plain fields.groups value }, diagnostics)
      | FieldId.depends ↦
          (record fields { depends = append_arch fields.depends a value line }, diagnostics)
      | FieldId.makedepends ↦ (
        record fields { make_depends = append_arch fields.make_depends a value line },
        diagnostics,
      )
      | FieldId.checkdepends ↦ (
        record fields { check_depends = append_arch fields.check_depends a value line },
        diagnostics,
      )
      | FieldId.optdepends ↦
          (record fields { opt_depends = append_arch fields.opt_depends a value line }, diagnostics)
      | FieldId.provides ↦
          (record fields { provides = append_arch fields.provides a value line }, diagnostics)
      | FieldId.conflicts ↦
          (record fields { conflicts = append_arch fields.conflicts a value line }, diagnostics)
      | FieldId.replaces ↦
          (record fields { replaces = append_arch fields.replaces a value line }, diagnostics)
      | _ ↦ (fields, diagnostics)
    ]

abbrev pub contains_arch : List Bytes → Bytes → Bool
contains_arch [] arch = false
contains_arch (a ∷ arches) arch = bytes_eq a arch || contains_arch arches arch

-- the diagnostic of one dimension, if it has one
unfoldable pub validate_dimension :
    List Bytes → Bytes → SrcinfoSeverity → ArchDimension → Diagnostics → Diagnostics
unfolding add_diagnostic is_empty
validate_dimension arches key severity d diagnostics =
    let full_key = key ++ b'_' ∷ d.arch in
    if is_empty d.arch
    then diagnostics
    else if is_text d.arch "any"
    then add_diagnostic diagnostics severity invalid_arch_any d.line full_key
    else if not (contains_arch arches d.arch)
    then add_diagnostic diagnostics severity unsupported_arch d.line full_key
    else diagnostics

unfoldable pub validate_arch_field :
    ArchField → List Bytes → Bytes → SrcinfoSeverity → Diagnostics → Diagnostics
unfolding validate_dimension
validate_arch_field [] arches key severity diagnostics = diagnostics
validate_arch_field (d ∷ dimensions) arches key severity diagnostics =
    validate_arch_field dimensions arches key severity
      (validate_dimension arches key severity d diagnostics)

unfoldable pub validate_core_arches : Fields → List Bytes → Diagnostics → Diagnostics
unfolding validate_arch_field
validate_core_arches fields arches diagnostics =
    let check = λ (field : ArchField) (key : Bytes) (ds : Diagnostics).
      validate_arch_field field arches key fatal ds in
    check fields.replaces (codes "replaces") (
      check fields.conflicts (codes "conflicts") (
        check fields.provides (codes "provides") (
          check fields.opt_depends (codes "optdepends") (
            check fields.check_depends (codes "checkdepends") (
              check fields.make_depends (codes "makedepends")
                (check fields.depends (codes "depends") diagnostics))))))

unfoldable pub flatten : ArchField → List Bytes
flatten [] = []
flatten (d ∷ dimensions) = d.values ++ flatten dimensions

unfoldable pub overrides_arch : ArchField → Bytes → Bool
overrides_arch [] arch = false
overrides_arch (d ∷ dimensions) arch = bytes_eq d.arch arch || overrides_arch dimensions arch

-- the second loop of `merge_arch`
unfoldable pub not_overridden : ArchField → ArchField → List Bytes
unfolding overrides_arch
not_overridden local [] = []
not_overridden local (d ∷ dimensions) =
    (if overrides_arch local d.arch then [] else d.values) ++ not_overridden local dimensions

unfoldable pub merge_arch : ArchField → ArchField → List Bytes
unfolding flatten not_overridden
merge_arch base local = flatten local ++ not_overridden local base

unfoldable pub make_version : Fields → Bytes
unfolding is_empty
make_version fields =
    (if fields.epoch.present
        && not (is_empty fields.epoch.value)
        && not (is_text fields.epoch.value "0")
      then fields.epoch.value ++ b':' ∷ []
      else [])
    ++ fields.pkgver.value
    ++ b'-' ∷ fields.pkgrel.value

unfoldable pub has_fatal : Diagnostics → Bool
has_fatal [] = false
has_fatal (d ∷ diagnostics) =
    (elim d.severity [ fatal ↦ true | warning ↦ false ]) || has_fatal diagnostics
