-- ===== src/Srcinfo/Key.antt =====
-- The keys: `FieldId`, `exact_field`, `parse_key` and the classes of fields.
use Prim.Native.String.{String}
use aurhub.Base.{Bool, true, false, ◌||◌, [], none, some, if◌then◌else◌}
use aurhub.Bytes.{Bytes, bytes_eq, is_empty}
use aurhub.Srcinfo.Text.{codes, split_at}

pub data FieldId : Type 0 where
  pkgdesc pkgver pkgrel epoch url install changelog arch groups license : FieldId
  checkdepends makedepends depends optdepends provides conflicts replaces : FieldId
  noextract options backup source validpgpkeys checksum unknown : FieldId

pub record ParsedKey : Type 0 where
  pub field : FieldId
  pub arch : Bytes

-- `key == "..."`
abbrev pub is_text : Bytes → String → Bool
is_text key text = bytes_eq key (codes text)

unfoldable pub checksum_name : Bytes → Bool
checksum_name key =
    is_text key "cksums"
    || is_text key "md5sums"
    || is_text key "sha1sums"
    || is_text key "sha224sums"
    || is_text key "sha256sums"
    || is_text key "sha384sums"
    || is_text key "sha512sums"
    || is_text key "b2sums"

unfoldable pub exact_field : Bytes → FieldId
unfolding checksum_name
exact_field key =
    if is_text key "pkgdesc"
    then pkgdesc
    else if is_text key "pkgver"
    then pkgver
    else if is_text key "pkgrel"
    then pkgrel
    else if is_text key "epoch"
    then epoch
    else if is_text key "url"
    then url
    else if is_text key "install"
    then install
    else if is_text key "changelog"
    then changelog
    else if is_text key "arch"
    then arch
    else if is_text key "groups"
    then groups
    else if is_text key "license"
    then license
    else if is_text key "checkdepends"
    then checkdepends
    else if is_text key "makedepends"
    then makedepends
    else if is_text key "depends"
    then depends
    else if is_text key "optdepends"
    then optdepends
    else if is_text key "provides"
    then provides
    else if is_text key "conflicts"
    then conflicts
    else if is_text key "replaces"
    then replaces
    else if is_text key "noextract"
    then noextract
    else if is_text key "options"
    then options
    else if is_text key "backup"
    then backup
    else if is_text key "source"
    then source
    else if is_text key "validpgpkeys"
    then validpgpkeys
    else if checksum_name key
    then checksum
    else unknown

abbrev pub is_unknown : FieldId → Bool
is_unknown unknown = true
is_unknown _ = false

unfoldable pub architecture_capable : FieldId → Bool
architecture_capable checkdepends = true
architecture_capable makedepends = true
architecture_capable depends = true
architecture_capable optdepends = true
architecture_capable options = true
architecture_capable provides = true
architecture_capable conflicts = true
architecture_capable replaces = true
architecture_capable source = true
architecture_capable checksum = true
architecture_capable _ = false

unfoldable pub parse_key : Bytes → ParsedKey
unfolding exact_field architecture_capable split_at is_empty
parse_key key =
    let no_key : ParsedKey = record { field = unknown; arch = [] } in
    let exact = exact_field key in
    if is_unknown exact
    then (elim (split_at b'_' key) [
      | none ↦ no_key
      | some (before, after) ↦
          let base = exact_field before in
          if is_empty after
          then no_key
          else if architecture_capable base
          then record { field = base; arch = after }
          else no_key
    ])
    else record { field = exact; arch = [] }

unfoldable pub projected_field : FieldId → Bool
projected_field pkgdesc = true
projected_field pkgver = true
projected_field pkgrel = true
projected_field epoch = true
projected_field url = true
projected_field arch = true
projected_field groups = true
projected_field license = true
projected_field checkdepends = true
projected_field makedepends = true
projected_field depends = true
projected_field optdepends = true
projected_field provides = true
projected_field conflicts = true
projected_field replaces = true
projected_field _ = false

unfoldable pub allowed_in_package : FieldId → Bool
allowed_in_package pkgdesc = true
allowed_in_package url = true
allowed_in_package install = true
allowed_in_package changelog = true
allowed_in_package arch = true
allowed_in_package groups = true
allowed_in_package license = true
allowed_in_package depends = true
allowed_in_package optdepends = true
allowed_in_package options = true
allowed_in_package provides = true
allowed_in_package conflicts = true
allowed_in_package replaces = true
allowed_in_package backup = true
allowed_in_package _ = false
