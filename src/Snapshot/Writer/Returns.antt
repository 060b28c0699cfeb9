-- ===== src/Snapshot/Writer/Returns.antt =====
-- The inputs for which `write_snapshot` of src/snapshot.cpp is made, and what it does on them.
use native.Mathlib.Nat.{mod-eq_of_lt}
use aurhub.Base.{
  ℕ, ◌+◌, ◌-◌, ◌%◌, ◌^◌, ◌≤◌, ◌<◌, ◌≡◌, ◌≢◌, refl, sym, ap, ◌∙◌, true, false, not, ◌&&◌, ◌||◌, List,
  [], ◌∷◌, ◌++◌, map, length, length-append, length-map, ltb, leb, ◌==◌, arith, Option, some,
  if◌then◌else◌, ℕ_discrete, dec_lt,
}
use aurhub.Base.Result.{ok, is_ok, is_ok-value, Ensures-value}
use aurhub.Bytes.{Bytes}
use aurhub.Model.{ℤ, BranchInfo, CompiledPackageView}
use aurhub.Snapshot.Block.{SearchBlock}
use aurhub.Snapshot.Builder.{block_count, write_search_blocks}
use aurhub.Snapshot.Builder.Count.{AllBytes, write_search_blocks-Wrote}
use aurhub.Snapshot.Format.{Slice32, BranchRecord, PackageRecord, SnapshotView}
use aurhub.Snapshot.Writer.{
  WriteError, u32_max, off_t_max, assign_slice, branch_records, Sizes, make_record, package_records,
  gzip_input, branch_strings, package_strings, package_searches, SnapshotInput, make_header,
  check_input, Tables, make_tables, require, write_snapshot, invalid_branch, invalid_shadow_branch,
}
use aurhub.Snapshot.Writer.File.{
  strings_of, searches_of, IsAccepted, IsWritten, write_snapshot-IsWritten,
}

assign_slice-ok :
    (size : ℕ) (value : Bytes)
    → size + length value ≤ u32_max
    → (slice : Slice32) × (assign_slice size value ≡ ok (slice, size + length value))
unfolding assign_slice
assign_slice-ok size value fits =
    let passes : (ltb u32_max size
          || ltb u32_max (length value)
          || ltb (u32_max - size) (length value))
        ≡ false =
      ground arith in
    (record { offset = size % 2 ^ 32; size = length value % 2 ^ 32 }, rw passes refl)

branch_records-ok :
    (branches : List BranchInfo) (size : ℕ)
    → size + length (branch_strings branches) ≤ u32_max
    → (records : List BranchRecord) × (branch_records size branches
        ≡ ok (records, size + length (branch_strings branches)))
unfolding branch_records branch_strings
branch_records-ok [] size fits = ([], ap (λ n. ok ([], n)) (omega arith))
branch_records-ok (b ∷ branches) size fits =
    let long = length-append b.name (branch_strings branches) in
    let (slice, first) = assign_slice-ok size b.name (omega (arith, long)) in
    let (records, rest) = branch_records-ok branches (size + length b.name) (omega (arith, long)) in
    let all : List BranchRecord =
      record { name = slice; oid = b.oid; updated_at = b.updated_at } ∷ records in
    let ends : size + length b.name + length (branch_strings branches)
        ≡ size + length (b.name ++ branch_strings branches) =
      omega (arith, long) in
    (all, rw (first, rest) (ap (λ n. ok (all, n)) ends))

-- every package names a branch that exists
abbrev pub HaveBranches : ℕ → List CompiledPackageView → Type 0
HaveBranches count [] = Unit
HaveBranches count (p ∷ packages) = (p.branch_index < count) × HaveBranches count packages

abbrev grown : Sizes → Bytes → Bytes → Sizes
grown sizes strings searches = record {
  strings_size = sizes.strings_size + length strings;
  search_texts_size = sizes.search_texts_size + length searches;
}

Sizes-eq :
    (a b : Sizes)
    → a.strings_size ≡ b.strings_size
    → a.search_texts_size ≡ b.search_texts_size
    → a ≡ b
Sizes-eq a b p q = λ i. record { strings_size = p i; search_texts_size = q i }

grown-append :
    (sizes : Sizes) (a b c d : Bytes) → grown (grown sizes a b) c d ≡ grown sizes (a ++ c) (b ++ d)
grown-append sizes a b c d =
    Sizes-eq _ _ (omega (arith, length-append a c)) (omega (arith, length-append b d))

module _ (invalid : WriteError) (count : ℕ) where
  make_record-ok :
      (p : CompiledPackageView) (sizes : Sizes)
      → p.branch_index < count
      → sizes.strings_size + length (p.name ++ p.json) ≤ u32_max
      → sizes.search_texts_size + length p.search ≤ u32_max
      → (r : PackageRecord) × (make_record invalid count sizes p
          ≡ ok (r, grown sizes (p.name ++ p.json) p.search))
  unfolding make_record
  make_record-ok p sizes branch strings searches =
      let long = length-append p.name p.json in
      let passes : leb count p.branch_index ≡ false = ground arith in
      let (name, a) = assign_slice-ok sizes.strings_size p.name (omega (arith, long)) in
      let (search, b) = assign_slice-ok sizes.search_texts_size p.search searches in
      let (json, c) =
        assign_slice-ok (sizes.strings_size + length p.name) p.json (omega (arith, long)) in
      let ends : sizes.strings_size + length p.name + length p.json
          ≡ sizes.strings_size + length (p.name ++ p.json) =
        omega (arith, long) in
      (
        record {
          name = name;
          search = search;
          json = json;
          branch_index = p.branch_index;
          updated_at = p.updated_at;
        },
        rw (passes, a, b, c, ends) refl,
      )

  package_records-ok :
      (packages : List CompiledPackageView) (sizes : Sizes)
      → HaveBranches count packages
      → sizes.strings_size + length (package_strings packages) ≤ u32_max
      → sizes.search_texts_size + length (package_searches packages) ≤ u32_max
      → (records : List PackageRecord) × (package_records invalid count sizes packages
          ≡ ok (records, grown sizes (package_strings packages) (package_searches packages)))
  unfolding package_records package_strings package_searches
  package_records-ok [] sizes have strings searches =
      ([], ap (λ s. ok ([], s)) (Sizes-eq _ (grown sizes [] []) (omega arith) (omega arith)))
  package_records-ok (p ∷ packages) sizes (branch, have) strings searches =
      let long = length-append (p.name ++ p.json) (package_strings packages) in
      let long' = length-append p.search (package_searches packages) in
      let (r, first) = make_record-ok p sizes branch (omega (arith, long)) (omega (arith, long')) in
      let (records, rest) =
        package_records-ok packages (grown sizes (p.name ++ p.json) p.search) have
          (omega (arith, long)) (omega (arith, long')) in
      (
        r ∷ records,
        rw (first, rest)
            (ap (λ s. ok (r ∷ records, s))
              (grown-append sizes (p.name ++ p.json) p.search (package_strings packages)
                (package_searches packages))),
      )

abbrev no_sizes : Sizes
no_sizes = record { strings_size = 0; search_texts_size = 0 }

-- the sizes of the sections
abbrev pub sizes_of : SnapshotInput → Sizes
sizes_of input = record {
  strings_size = length (strings_of input);
  search_texts_size = length (searches_of input);
}

-- The inputs that the writer is made for.
pub record IsSuitable (now : ℤ) (gz : Bytes) (input : SnapshotInput) : Type 0 where
  pub accepted : IsAccepted input
  pub branches_exist : HaveBranches (length input.branches) input.packages
  pub shadow_branches_exist : HaveBranches (length input.branches) input.shadow_packages
  pub strings_fit : length (strings_of input) ≤ u32_max
  pub searches_fit : length (searches_of input) ≤ u32_max
  pub file_fits :
      (make_header input (sizes_of input) (length gz) now).packages_gz_offset
        + (make_header input (sizes_of input) (length gz) now).packages_gz_size
      ≤ off_t_max

not_lt : (a b : ℕ) → ¬ (b < a) → a ≤ b
not_lt a b h = elim (dec_lt b a) [ yes l ↦ absurd (h l) | no n ↦ omega arith ]

check_input-ok : (input : SnapshotInput) → IsAccepted input → check_input input ≡ ok tt
unfolding check_input
check_input-ok input a =
    let fine = input.search_block_packages in
    let coarse = input.search_super_block_packages in
    let first : (fine == 0 || ltb 65535 fine) ≡ false =
      ground (arith, a.block_pos, a.block_small) in
    let second : (not (coarse == 0)
          && (ltb 65535 coarse || ltb coarse fine || not (coarse % fine == 0)))
        ≡ false =
      multiple fine coarse a.super_small a.super_multiple in
    let third : ltb u32_max (length input.packages) ≡ false = ground (arith, a.few) in
    rw (first, second, third) refl
  where
    multiple :
        (fine coarse : ℕ)
        → coarse < 2 ^ 16
        → (coarse ≢ 0 → coarse % fine ≡ 0)
        → (not (coarse == 0) && (ltb 65535 coarse || ltb coarse fine || not (coarse % fine == 0)))
          ≡ false
    multiple fine coarse small h = elim (ℕ_discrete coarse 0) [
      | yes e ↦ ground arith
      | no ne ↦
          let large : fine ≤ coarse = not_lt fine coarse (λ l. ne (sym (mod-eq_of_lt l) ∙ h ne)) in
          ground (arith, h ne)
    ]

make_tables-ok :
    (input : SnapshotInput)
    → HaveBranches (length input.branches) input.packages
    → HaveBranches (length input.branches) input.shadow_packages
    → length (strings_of input) ≤ u32_max
    → length (searches_of input) ≤ u32_max
    → (tables : Tables) × (make_tables input ≡ ok tables) × (tables.sizes ≡ sizes_of input)
unfolding make_tables
make_tables-ok input have have' strings searches =
    let b = branch_strings input.branches in
    let p = package_strings input.packages in
    let s = package_strings input.shadow_packages in
    let q = package_searches input.packages in
    let t = package_searches input.shadow_packages in
    let long = length-append (b ++ p) s in
    let long' = length-append b p in
    let long'' = length-append q t in
    let start : Sizes = record { strings_size = 0 + length b; search_texts_size = 0 } in
    let (branches, first) = branch_records-ok input.branches 0 (omega (arith, long, long')) in
    let (records, second) =
      package_records-ok invalid_branch (length input.branches) input.packages start have
        (omega (arith, long, long')) (omega (arith, long'')) in
    let (shadows, third) =
      package_records-ok invalid_shadow_branch (length input.branches) input.shadow_packages
        (grown start p q) have' (omega (arith, long, long')) (omega (arith, long'')) in
    let tables : Tables = record {
      branches = branches;
      records = records;
      shadow_records = shadows;
      sizes = grown (grown start p q) s t;
    } in
    (
      tables,
      rw (first, second, third) refl,
      Sizes-eq tables.sizes (sizes_of input) (omega (arith, long, long')) (omega (arith, long'')),
    )

write_search_blocks-some :
    (b s n : ℕ) (texts : List Bytes)
    → n ≡ length texts
    → 0 < b
    → b < 2 ^ 16
    → s < 2 ^ 16
    → n < 2 ^ 32
    → AllBytes texts
    → (r : List SearchBlock × List SearchBlock) × (write_search_blocks b s
          (block_count n b)
          (if s == 0 then 0 else block_count n s)
          texts
        ≡ some r)
write_search_blocks-some b s n texts size pos small coarse_small few bytes =
    let (fine, coarse, run, _) =
      write_search_blocks-Wrote b s texts pos small coarse_small (omega arith) bytes in
    rw size ((fine, coarse), run)

write_snapshot-ok :
    (gzip : Bytes → Option Bytes) (now : ℤ) (input : SnapshotInput) (gz : Bytes)
    → AllBytes (map (λ q. q.search) input.packages)
    → gzip (gzip_input input.packages) ≡ some gz
    → IsSuitable now gz input
    → is_ok (write_snapshot gzip now input) ≡ true
unfolding write_snapshot require make_header
write_snapshot-ok gzip now input gz bytes zipped suitable =
    let accepted = suitable.accepted in
    let (tables, made, sizes_are) =
      make_tables-ok input suitable.branches_exist suitable.shadow_branches_exist
        suitable.strings_fit suitable.searches_fit in
    let (blocks, written) =
      write_search_blocks-some input.search_block_packages input.search_super_block_packages
        (length input.packages) (map (λ q. q.search) input.packages)
        (sym (length-map input.packages (λ q. q.search))) accepted.block_pos accepted.block_small
        accepted.super_small accepted.few bytes in
    let header = make_header input (sizes_of input) (length gz) now in
    let small : ltb off_t_max (header.packages_gz_offset + header.packages_gz_size) ≡ false =
      ground (arith, suitable.file_fits) in
    rw (check_input-ok input accepted, made, zipped, sizes_are, small, written) refl

-- For a suitable input, whose packages' search texts are lists of bytes, and a compression that
-- succeeds, `write_snapshot` returns a snapshot, and it is the one that was meant: its tables read
-- back what was given, and its blocks are an index of the search texts.
pub write_snapshot-IsSuitable :
    (gzip : Bytes → Option Bytes) (now : ℤ) (input : SnapshotInput) (gz : Bytes)
    → AllBytes (map (λ q. q.search) input.packages)
    → gzip (gzip_input input.packages) ≡ some gz
    → IsSuitable now gz input
    → (view : SnapshotView) × (write_snapshot gzip now input ≡ ok view) × IsWritten input view
write_snapshot-IsSuitable gzip now input gz bytes zipped suitable =
    let (view, run) =
      is_ok-value (write_snapshot gzip now input)
        (write_snapshot-ok gzip now input gz bytes zipped suitable) in
    (view, run, Ensures-value (write_snapshot-IsWritten gzip now input bytes) run)
