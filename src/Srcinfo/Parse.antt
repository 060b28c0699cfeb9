-- ===== src/Srcinfo/Parse.antt =====
-- The loop of `parse_srcinfo` in src/srcinfo.cpp over the lines, with its locals as one state.
use aurhub.Base.{
  ℕ, ◌+◌, ◌%◌, ◌^◌, Bool, true, false, not, ◌&&◌, ◌||◌, List, [], ◌∷◌, ◌++◌, Option, none, some,
  length, ◌-◌, if◌then◌else◌, ◌==◌,
}
use aurhub.Bytes.{Bytes, bytes_eq, is_empty}
use aurhub.Srcinfo.Fields.{
  SrcinfoSeverity, fatal, warning, SrcinfoDiagnosticCode, Diagnostics, Fields, no_fields,
  add_diagnostic, assign_projected_field,
}
use aurhub.Srcinfo.Fields.{
  malformed_line, empty_key, field_before_pkgbase, duplicate_pkgbase, empty_pkgbase,
  duplicate_pkgname, empty_pkgname, unknown_field, field_not_allowed_in_package,
  ignored_package_field,
}
use aurhub.Srcinfo.Key.{
  ParsedKey, is_text, is_unknown, parse_key, projected_field, allowed_in_package,
}
use aurhub.Srcinfo.Text.{trim, unicode_blank, split_at}

pub record PackageBlock : Type 0 where
  pub name : Bytes
  pub line : ℕ
  pub fields : Fields

-- `package_index` is `none` where the source has the largest `size_t`.
pub record IgnoredArchUse : Type 0 where
  pub key : Bytes
  pub arch : Bytes
  pub line : ℕ
  pub package_index : Option ℕ

-- The locals of `parse_srcinfo`. `blocks` is newest first, so `current` is its head, and a null
-- pointer while there is no block. `package_names` is a set.
pub record Parser : Type 0 where
  pub diagnostics : Diagnostics
  pub base_name : Bytes
  pub has_pkgbase : Bool
  pub base_fields : Fields
  pub blocks : List PackageBlock
  pub package_names : List Bytes
  pub ignored_arches : List IgnoredArchUse
  pub line_number : ℕ

unfoldable pub initial : Parser
unfolding no_fields
initial = record {
  diagnostics = [];
  base_name = [];
  has_pkgbase = false;
  base_fields = no_fields;
  blocks = [];
  package_names = [];
  ignored_arches = [];
  line_number = 0;
}

unfoldable pub report : SrcinfoSeverity → SrcinfoDiagnosticCode → Bytes → Parser → Parser
unfolding add_diagnostic
report severity code key p = record p {
  diagnostics = add_diagnostic p.diagnostics severity code p.line_number key;
}

-- `package_names.emplace(value).second`, negated
unfoldable pub is_member : Bytes → List Bytes → Bool
is_member value [] = false
is_member value (x ∷ names) = bytes_eq x value || is_member value names

-- the branch `key == "pkgbase"`
unfoldable pub on_pkgbase : Bytes → Bytes → Parser → Parser
unfolding report is_empty
on_pkgbase key value p =
    let named = record p { has_pkgbase = true; base_name = value } in
    if p.has_pkgbase
    then report fatal duplicate_pkgbase key p
    else if is_empty value
    then report fatal empty_pkgbase key named
    else named

-- the diagnostics and the set, for the branch `key == "pkgname"`
unfoldable pub enter_name : Bytes → Bytes → Parser → Parser
unfolding report is_empty is_member
enter_name key value p =
    if is_empty value
    then report fatal empty_pkgname key p
    else if is_member value p.package_names
    then report fatal duplicate_pkgname key p
    else record p { package_names = value ∷ p.package_names }

unfoldable pub on_pkgname : Bytes → Bytes → Parser → Parser
unfolding enter_name no_fields
on_pkgname key value p =
    let entered = enter_name key value p in
    if not p.has_pkgbase then report fatal field_before_pkgbase key p else record entered {
      blocks = record { name = value; line = p.line_number; fields = no_fields } ∷ entered.blocks;
    }

-- `assign_projected_field` to the current block, or to the base while there is none
unfoldable pub assign_to : ParsedKey → Bytes → Bytes → List PackageBlock → Parser → Parser
unfolding assign_projected_field
assign_to parsed key value [] p =
    let (fields, ds) =
      assign_projected_field p.base_fields parsed key value p.line_number p.diagnostics in
    record p { base_fields = fields; diagnostics = ds }
assign_to parsed key value (b ∷ blocks) p =
    let (fields, ds) =
      assign_projected_field b.fields parsed key value p.line_number p.diagnostics in
    record p { blocks = record b { fields = fields } ∷ blocks; diagnostics = ds }

abbrev pub in_package : Parser → Bool
in_package p = not (length p.blocks == 0)

-- a field that is not projected
unfoldable pub ignore_field : ParsedKey → Bytes → Parser → Parser
unfolding is_empty
ignore_field parsed key p = if is_empty parsed.arch then p else record p {
  ignored_arches =
      p.ignored_arches
      ++ record {
        key = key;
        arch = parsed.arch;
        line = p.line_number;
        package_index = if in_package p then some (length p.blocks - 1) else none;
      }
        ∷ [];
}

-- any other key
unfoldable pub on_field : Bytes → Bytes → Parser → Parser
unfolding report ignore_field assign_to parse_key projected_field allowed_in_package
on_field key value p =
    let parsed = parse_key key in
    if not p.has_pkgbase
    then report fatal field_before_pkgbase key p
    else if is_unknown parsed.field
    then report fatal unknown_field key p
    else if in_package p && not (allowed_in_package parsed.field)
    then (if projected_field parsed.field
        then report fatal field_not_allowed_in_package key p
        else report warning ignored_package_field key p)
    else if not (projected_field parsed.field)
    then ignore_field parsed key p
    else assign_to parsed key value p.blocks p

unfoldable pub on_pair : Bytes → Bytes → Parser → Parser
unfolding report on_pkgbase on_pkgname on_field is_empty
on_pair key value p =
    if is_empty key
    then report fatal empty_key [] p
    else if is_text key "pkgbase"
    then on_pkgbase key value p
    else if is_text key "pkgname"
    then on_pkgname key value p
    else on_field key value p

-- `line.front() == '#'`
unfoldable pub is_comment : Bytes → Bool
is_comment [] = false
is_comment (c ∷ t) = c == b'#'

-- the body of the loop, on a line as it stands in the input
unfoldable pub on_line : Bytes → Parser → Parser
unfolding report on_pair trim unicode_blank is_comment is_empty split_at
on_line raw p =
    let q = record p { line_number = (p.line_number + 1) % 2 ^ 32 } in
    let line = trim raw in
    if is_empty line || unicode_blank line || is_comment line
    then q
    else (elim (split_at b'=' line) [
      | none ↦ report fatal malformed_line [] q
      | some (before, after) ↦ on_pair (trim before) (trim after) q
    ])

unfoldable pub on_lines : List Bytes → Parser → Parser
unfolding on_line
on_lines [] p = p
on_lines (line ∷ lines) p = on_lines lines (on_line line p)
