-- ===== src/Generation/Find.antt =====
-- `GenerationView::find_package` of src/generation.cpp, and `std::lower_bound`.
pub mod Binary
pub mod Extra
pub mod Exact
use aurhub.Base.{
  ℕ, zero, suc, ◌+◌, ◌-◌, ◌/◌, Bool, not, ◌&&◌, List, [], ◌∷◌, Option, none, some, get_or, drop,
  ltb, ◌==◌, if◌then◌else◌,
}
use aurhub.Base.Result.{ok, ◌>>=◌}
use aurhub.Bytes.{Bytes, bytes_eq, bytes_lt}
use aurhub.Snapshot.Format
use aurhub.Snapshot.Format.{SnapshotView}
use aurhub.Generation.Format.{Overlay, GenerationView, u32_max}
use aurhub.Generation.Ref.{Get, package_ref, package_name}
use aurhub.Generation.Check.{head}

-- The loop of `find_package` over the base: the first index from `first` up to `last` whose name is
-- not below. The fuel is at least `last - first`, so the loop has ended where the fuel has.
unfoldable pub search_base : SnapshotView → Bytes → ℕ → ℕ → ℕ → ℕ
search_base base wanted zero first last = first
search_base base wanted (suc fuel) first last =
    let middle = first + (last - first) / 2 in
    let above = search_base base wanted fuel (middle + 1) last in
    let below = search_base base wanted fuel first middle in
    if ltb first last
    then (if bytes_lt (Format.name base middle) wanted then above else below)
    else first

-- The position that `std::lower_bound` documents: that of the first element for which `less` does
-- not hold, or the length.
unfoldable pub lower_bound : (ℕ → Get Bool) → List ℕ → Get ℕ
lower_bound less [] = ok 0
lower_bound less (x ∷ xs) =
    let rest = lower_bound less xs in less x >>= λ b. if b then (rest >>= λ p. ok (suc p)) else ok 0

-- `package_name(package_ref(index)) < wanted`
abbrev pub name_below : SnapshotView → Overlay → Bytes → ℕ → Get Bool
name_below base o wanted index =
    package_name base o (package_ref o index) >>= λ n. ok (bytes_lt n wanted)

-- the part of `find_package` on the packages that are not in the base
unfoldable pub find_extra : SnapshotView → Overlay → List ℕ → Bytes → Get (Option ℕ)
unfolding lower_bound package_name package_ref
find_extra base o extra_active wanted =
    lower_bound (name_below base o wanted) extra_active >>= λ position.
    elim (head (drop position extra_active)) [
      | none ↦ ok none
      | some extra ↦ package_name base o (package_ref o extra) >>= λ n.
          ok (if bytes_eq n wanted then some extra else none)
    ]

unfoldable pub find_package : GenerationView → Bytes → Get (Option ℕ)
unfolding search_base find_extra
find_package view wanted =
    let count = view.base.header.package_count in
    let first = search_base view.base wanted count 0 count in
    let found = ltb first count && bytes_eq (Format.name view.base first) wanted in
    let current = get_or view.base_to_current first u32_max in
    elim view.overlay [
      | none ↦ ok (if found then some first else none)
      | some o ↦
          if found && not (current == u32_max)
          then ok (some current)
          else find_extra view.base o view.extra_active wanted
    ]
