-- ===== src/Snapshot/Writer/File.antt =====
-- What a snapshot file of `write_snapshot` in src/snapshot.cpp is to hold.
use aurhub.Base.{
  ℕ, zero, suc, ◌+◌, ◌*◌, ◌/◌, ◌%◌, ◌^◌, ◌<◌, ◌≡◌, ◌≢◌, refl, sym, ap, subst, ◌∙◌, true, false,
  ◌||◌, ◌&&◌, not, List, [], ◌∷◌, ◌++◌, map, append_assoc, append-nil, length, ltb, ◌==◌, arith,
  Option, none, some, get_or, fun_ext, take, length-map, if◌then◌else◌, ℕ_discrete,
}
use native.Mathlib.Nat.{div-add-mod'}
use aurhub.Base.Result.{ok, Ensures, returns, throws, Ensures-bind, Ensures-guard}
use aurhub.Bytes.{Bytes}
use aurhub.Model.{ℤ, CompiledPackageView}
use aurhub.Search.Exact.{IsIndexed}
use aurhub.Snapshot.Builder.{block_count, write_search_blocks}
use aurhub.Snapshot.Builder.Count.{AllBytes, Wrote, block_count-eq, write_search_blocks-Wrote}
use aurhub.Snapshot.Builder.Loop.{Covered}
use aurhub.Snapshot.Block.{SearchBlock}
use aurhub.Snapshot.Format.{
  SnapshotView, PackageRecord, slice_of, no_record, package_record, search_text,
}
use aurhub.Snapshot.Reader.{invalid_block, invalid_super_block, check_blocks, check_search}
use aurhub.Snapshot.Reader.Accepts.{check_blocks-Covered}
use aurhub.Snapshot.Writer.{
  WriteError, bad_block_packages, bad_super_block_packages, too_many_packages, invalid_branch,
  invalid_shadow_branch, gzip_failed, file_too_large, block_count_changed, u32_max, SnapshotInput,
  Tables, check_input, make_tables, make_header, make_view, require, write_snapshot, off_t_max,
  branch_strings, package_strings, package_searches, gzip_input,
}
use aurhub.Snapshot.Writer.Slices.{
  BranchesRead, PackagesRead, branch_records-read, package_records-read,
}

-- What `check_input` lets through.
pub record IsAccepted (input : SnapshotInput) : Type 0 where
  pub block_pos : 0 < input.search_block_packages
  pub block_small : input.search_block_packages < 2 ^ 16
  pub super_small : input.search_super_block_packages < 2 ^ 16
  pub super_multiple :
      input.search_super_block_packages ≢ 0
      → input.search_super_block_packages % input.search_block_packages ≡ 0
  pub few : length input.packages < 2 ^ 32

check_input-IsAccepted :
    (input : SnapshotInput) → Ensures (λ _. IsAccepted input) (check_input input)
unfolding check_input
check_input-IsAccepted input =
    let fine = input.search_block_packages in
    let coarse = input.search_super_block_packages in
    Ensures-guard (fine == 0 || ltb 65535 fine) bad_block_packages _ (λ a.
      Ensures-guard
        (not (coarse == 0) && (ltb 65535 coarse || ltb coarse fine || not (coarse % fine == 0)))
        bad_super_block_packages _
        (λ b. Ensures-guard (ltb u32_max (length input.packages)) too_many_packages _ (λ c.
          returns (record {
            block_pos = ground arith;
            block_small = ground arith;
            super_small = ground arith;
            super_multiple = λ ne. ground arith;
            few = ground arith;
          }))))

-- the string section and the search text section
abbrev pub strings_of : SnapshotInput → Bytes
strings_of input =
    branch_strings input.branches
    ++ package_strings input.packages
    ++ package_strings input.shadow_packages

abbrev pub searches_of : SnapshotInput → Bytes
searches_of input = package_searches input.packages ++ package_searches input.shadow_packages

pub record TablesRead (input : SnapshotInput) (strings searches : Bytes) (tables : Tables)
    : Type 0 where
  pub branches_read : BranchesRead strings tables.branches input.branches
  pub packages_read :
      PackagesRead strings searches (length input.branches) tables.records input.packages
  pub shadows_read :
      PackagesRead strings searches
        (length input.branches)
        tables.shadow_records
        input.shadow_packages
  pub strings_end : tables.sizes.strings_size ≡ length strings
  pub searches_end : tables.sizes.search_texts_size ≡ length searches

make_tables-read :
    (input : SnapshotInput)
    → Ensures (TablesRead input (strings_of input) (searches_of input)) (make_tables input)
unfolding make_tables
make_tables-read input =
    let b = branch_strings input.branches in
    let p = package_strings input.packages in
    let s = package_strings input.shadow_packages in
    let q = package_searches input.packages in
    let t = package_searches input.shadow_packages in
    Ensures-bind
      (branch_records-read (strings_of input) input.branches [] (p ++ s) 0 refl
        (append_assoc b p s))
      (λ (branches, strings_size) (x, at).
        Ensures-bind
          (package_records-read (strings_of input) (searches_of input) invalid_branch
            (length input.branches) input.packages b s [] t
            (record { strings_size = strings_size; search_texts_size = 0 }) (at, refl)
            (append_assoc b p s) refl)
          (λ (records, sizes) (y, at').
            Ensures-bind
              (package_records-read (strings_of input) (searches_of input) invalid_shadow_branch
                (length input.branches) input.shadow_packages (b ++ p) [] q [] sizes at'
                (rw append-nil) (rw append-nil))
              (λ (shadows, sizes') (z, at''). returns (record {
                branches_read = x;
                packages_read = y;
                shadows_read = z;
                strings_end = at''.0;
                searches_end = at''.1;
              }))))

-- The blocks are those of both levels, and the header's counts are their numbers.
write_blocks-Wrote :
    (b s n : ℕ) (texts : List Bytes) (e : WriteError)
    → n ≡ length texts
    → 0 < b
    → b < 2 ^ 16
    → s < 2 ^ 16
    → n < 2 ^ 32
    → AllBytes texts
    → Ensures
        (λ r. Wrote b s texts r.0 r.1)
        (require e
          (write_search_blocks b s (block_count n b) (if s == 0 then 0 else block_count n s) texts))
unfolding require
write_blocks-Wrote b s n texts e size pos small coarse_small few bytes =
    let (fine, coarse, run, wrote) =
      write_search_blocks-Wrote b s texts pos small coarse_small (omega arith) bytes in
    rw (size, run) (returns wrote)

-- what the record at `p` says of the search text at `p`
pub search_text-read :
    (strings searches : Bytes) (n : ℕ) (records : List PackageRecord)
    (packages : List CompiledPackageView) (p : ℕ)
    → PackagesRead strings searches n records packages
    → slice_of searches (get_or records p no_record).search
      ≡ get_or (map (λ q. q.search) packages) p []
unfolding get_or
search_text-read strings searches n [] [] p h = unfold slice_of take in refl
search_text-read strings searches n [] (q ∷ packages) p h = absurd h
search_text-read strings searches n (r ∷ records) [] p h = absurd h
search_text-read strings searches n (r ∷ records) (q ∷ packages) zero h = h.0.2
search_text-read strings searches n (r ∷ records) (q ∷ packages) (suc p) h =
    search_text-read strings searches n records packages p h.1

-- The file that the writer means to leave behind.
pub record IsWritten (input : SnapshotInput) (view : SnapshotView) : Type 0 where
  pub tables_read : TablesRead input view.strings view.search_texts (record {
    branches = view.branches;
    records = view.records;
    shadow_records = view.shadow_records;
    sizes = record {
      strings_size = view.header.strings_size;
      search_texts_size = view.header.search_texts_size;
    };
  })
  pub counts_packages : view.header.package_count ≡ length input.packages
  pub counts_shadows : view.header.shadow_package_count ≡ length input.shadow_packages
  pub counts_branches : view.header.branch_count ≡ length input.branches
  pub indexed : IsIndexed view
  pub checked : check_search view ≡ ok tt

==_same : (a : ℕ) → (a == a) ≡ true
==_same a = ground arith

module _ (input : SnapshotInput) (view : SnapshotView) (accepted : IsAccepted input)
    (texts : (p : ℕ) → search_text view p ≡ get_or (map (λ q. q.search) input.packages) p [])
    (wrote : Wrote input.search_block_packages input.search_super_block_packages
      (map (λ q. q.search) input.packages)
      view.search_blocks
      view.search_super_blocks) where
  abbrev n : ℕ
  n = length input.packages

  abbrev b : ℕ
  b = input.search_block_packages

  abbrev s : ℕ
  s = input.search_super_block_packages

  n_is : length (map (λ q. q.search) input.packages) ≡ n
  n_is = length-map input.packages (λ q. q.search)

  level :
      (limit : ℕ) (blocks : List SearchBlock)
      → Covered
          (λ p. get_or (map (λ q. q.search) input.packages) p [])
          limit
          (length (map (λ q. q.search) input.packages))
          blocks
      → Covered (search_text view) limit n blocks
  level limit blocks c =
      subst (λ text. Covered text limit n blocks) (fun_ext (λ p. sym (texts p))) (rw n_is at c)

  fine_number : length view.search_blocks ≡ block_count n b
  fine_number =
      let c = level b view.search_blocks wrote.fine_covers in
      block_count-eq n b (length view.search_blocks) accepted.block_pos c.enough c.tight

  coarse_number : length view.search_super_blocks ≡ (if s == 0 then 0 else block_count n s)
  coarse_number = elim (ℕ_discrete s 0) [
    | yes e ↦ ground (arith, ap (length {A = SearchBlock}) (wrote.coarse_empty e))
    | no ne ↦
        let c = level s view.search_super_blocks (wrote.coarse_covers ne) in
        ground (
          arith,
          block_count-eq n s (length view.search_super_blocks) (ground arith) c.enough c.tight,
        )
  ]

  -- The blocks are an index of the view, whatever else the header says.
  make_index :
      view.header.search_block_packages ≡ b
      → view.header.search_super_block_packages ≡ s
      → view.header.package_count ≡ n
      → view.header.search_block_count ≡ block_count n b
      → view.header.search_super_block_count ≡ (if s == 0 then 0 else block_count n s)
      → IsIndexed view
  unfolding search_text
  make_index fine_is coarse_is total_is fine_count coarse_count = record {
    block_pos = omega (arith, accepted.block_pos);
    fine = rw (fine_is, total_is) (level b view.search_blocks wrote.fine_covers);
    fine_count = fine_count ∙ sym fine_number;
    coarse = λ some_super.
        rw (coarse_is, total_is)
          (level s view.search_super_blocks (wrote.coarse_covers (has_super some_super)));
    coarse_count = coarse_count ∙ sym coarse_number;
    multiple = λ some_super. (
      s / b,
      omega (
        arith,
        coarse_is,
        fine_is,
        div-add-mod' s b,
        accepted.super_multiple (has_super some_super),
        ap (λ (x : ℕ). s / b * x) fine_is,
      ),
    );
  }
    where
      has_super : view.header.search_super_block_count ≢ 0 → s ≢ 0
      has_super some_super = ground arith

  -- The reader's full check of the blocks accepts them.
  make_checked :
      view.header.search_block_packages ≡ b
      → view.header.search_super_block_packages ≡ s
      → view.header.package_count ≡ n
      → check_search view ≡ ok tt
  unfolding check_search
  make_checked fine_is coarse_is total_is =
      let fine =
        check_blocks-Covered (search_text view) b n accepted.block_pos invalid_block
          view.search_blocks (level b view.search_blocks wrote.fine_covers) in
      elim (ℕ_discrete s 0) [
        | yes e ↦
            let none = wrote.coarse_empty e in
            rw (fine_is, coarse_is, total_is, fine, ==_same n, none, e)
              (unfold check_blocks in refl)
        | no ne ↦
            let coarse =
              check_blocks-Covered (search_text view) s n (ground arith) invalid_super_block
                view.search_super_blocks
                (level s view.search_super_blocks (wrote.coarse_covers ne)) in
            let given : (s == 0) ≡ false = ground arith in
            rw (fine_is, coarse_is, total_is, fine, ==_same n, coarse, ==_same n, given) refl
      ]

require-Ensures : (e : WriteError) (o : Option Bytes) → Ensures (λ _. Unit {0}) (require e o)
unfolding require
require-Ensures e none = throws
require-Ensures e (some a) = returns tt

make_view-IsWritten :
    (input : SnapshotInput) (tables : Tables) (packages_gz : Bytes) (now : ℤ)
    (fine coarse : List SearchBlock)
    → IsAccepted input
    → TablesRead input (strings_of input) (searches_of input) tables
    → Wrote input.search_block_packages input.search_super_block_packages
        (map (λ q. q.search) input.packages)
        fine
        coarse
    → IsWritten input (
        make_view input tables packages_gz
          (make_header input tables.sizes (length packages_gz) now)
          fine
          coarse)
unfolding make_view make_header
make_view-IsWritten input tables packages_gz now fine coarse accepted read wrote =
    let header = make_header input tables.sizes (length packages_gz) now in
    let view = make_view input tables packages_gz header fine coarse in
    record {
      tables_read = record {
        branches_read = read.branches_read;
        packages_read = read.packages_read;
        shadows_read = read.shadows_read;
        strings_end = read.strings_end;
        searches_end = read.searches_end;
      };
      counts_packages = refl;
      counts_shadows = refl;
      counts_branches = refl;
      indexed =
          make_index input view accepted
            (λ p.
              unfold search_text package_record in
              search_text-read (strings_of input) (searches_of input) (length input.branches)
                tables.records input.packages p read.packages_read)
            wrote refl refl refl refl refl;
      checked =
          make_checked input view accepted
            (λ p.
              unfold search_text package_record in
              search_text-read (strings_of input) (searches_of input) (length input.branches)
                tables.records input.packages p read.packages_read)
            wrote refl refl refl;
    }

-- If the writer returns, the tables of the file read back the branches and the packages that were
-- given, in order, and its blocks are an index of the search texts.
pub write_snapshot-IsWritten :
    (gzip : Bytes → Option Bytes) (now : ℤ) (input : SnapshotInput)
    → AllBytes (map (λ q. q.search) input.packages)
    → Ensures (IsWritten input) (write_snapshot gzip now input)
unfolding write_snapshot
write_snapshot-IsWritten gzip now input bytes =
    let n = length input.packages in
    Ensures-bind (check_input-IsAccepted input) (λ _ accepted.
      Ensures-bind (make_tables-read input) (λ tables read.
        Ensures-bind (require-Ensures gzip_failed (gzip (gzip_input input.packages)))
          (λ packages_gz _.
            let header = make_header input tables.sizes (length packages_gz) now in
            Ensures-guard (ltb off_t_max (header.packages_gz_offset + header.packages_gz_size))
              file_too_large _
              (λ small.
                Ensures-bind
                  (unfold make_header in
                    write_blocks-Wrote input.search_block_packages input.search_super_block_packages
                      n (map (λ q. q.search) input.packages) block_count_changed
                      (sym (length-map input.packages (λ q. q.search))) accepted.block_pos
                      accepted.block_small accepted.super_small accepted.few bytes)
                  (λ blocks wrote. returns (
                    make_view-IsWritten input tables packages_gz now blocks.0 blocks.1 accepted read
                      wrote))))))
