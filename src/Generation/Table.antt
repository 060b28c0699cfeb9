-- ===== src/Generation/Table.antt =====
-- What the constructor of `GenerationView` in src/generation.cpp makes of an overlay: the
-- references are valid, their names ascend, and the four tables are those of the references.
use aurhub.Base.{ℕ, ◌<◌, ◌≡◌, ◌≢◌, Bool, true, not, [], get_or, length, ◌==◌}
use aurhub.Base.Result.{ok, err}
use aurhub.Bytes.{Bytes, bytes_lt}
use aurhub.Snapshot.Format.{SnapshotView}
use aurhub.Generation.Format.{Overlay, GenerationView, u32_max}
use aurhub.Generation.Ref.{Get, package_ref, package_name, package_search}
use aurhub.Search.Hits.{hits}
use aurhub.Search.Exact.{AreFlags}

abbrev pub value_of : Get Bytes → Bytes
value_of (ok a) = a
value_of (err e) = []

-- the name and the search text of the package at an index
unfoldable pub name_at : SnapshotView → Overlay → ℕ → Bytes
name_at base o i = value_of (package_name base o (package_ref o i))

unfoldable pub text_at : SnapshotView → Overlay → ℕ → Bytes
text_at base o i = value_of (package_search base o (package_ref o i))

-- The package is an active package of the base.
unfoldable pub is_kept : Overlay → ℕ → Bool
is_kept o i = (package_ref o i).source == 0

unfoldable pub is_extra : Overlay → ℕ → Bool
unfolding is_kept
is_extra o i = not (is_kept o i)

-- the package of the base, where it is one
abbrev pub base_index : Overlay → ℕ → ℕ
base_index o i = (package_ref o i).index

-- Every reference names a package, and the names ascend.
pub record AreRefs (base : SnapshotView) (o : Overlay) : Type 0 where
  pub named :
      (i : ℕ)
      → i < o.header.package_count
      → package_name base o (package_ref o i) ≡ ok (name_at base o i)
  pub described :
      (i : ℕ)
      → i < o.header.package_count
      → package_search base o (package_ref o i) ≡ ok (text_at base o i)
  pub in_base :
      (i : ℕ)
      → i < o.header.package_count
      → is_kept o i ≡ true
      → base_index o i < base.header.package_count
  pub in_order :
      (i j : ℕ)
      → i < j
      → j < o.header.package_count
      → is_kept o i ≡ true
      → is_kept o j ≡ true
      → base_index o i < base_index o j
  pub ascending :
      (i j : ℕ)
      → i < j
      → j < o.header.package_count
      → bytes_lt (name_at base o i) (name_at base o j) ≡ true

-- The tables are those of the references.
pub record AreTables (view : GenerationView) (o : Overlay) : Type 0 where
  pub kept :
      (i : ℕ)
      → i < o.header.package_count
      → is_kept o i ≡ true
      → get_or view.base_active_kept (base_index o i) 0 ≢ 0
  pub current :
      (i : ℕ)
      → i < o.header.package_count
      → is_kept o i ≡ true
      → get_or view.base_to_current (base_index o i) u32_max ≡ i
  pub referenced :
      (p : ℕ)
      → get_or view.base_active_kept p 0 ≢ 0
      → (i : ℕ) × (i < o.header.package_count) × (is_kept o i ≡ true) × (base_index o i ≡ p)
  pub unreferenced :
      (p : ℕ)
      → get_or view.base_active_kept p 0 ≡ 0
      → get_or view.base_to_current p u32_max ≡ u32_max
  pub extra : view.extra_active ≡ hits (is_extra o) 0 o.header.package_count
  pub kept_size : length view.base_active_kept ≡ view.base.header.package_count
  pub dirty_size : length view.base_dirty_search_blocks ≡ view.base.header.search_block_count
  pub clean : AreFlags view.base view.base_active_kept view.base_dirty_search_blocks
