-- ===== src/Snapshot/Writer/Slices.antt =====
-- The slices of `assign_slice` in src/snapshot.cpp, and what they read.
use aurhub.Base.{
  ℕ, ◌+◌, ◌-◌, ◌^◌, ◌%◌, ◌<◌, ◌≡◌, refl, sym, ap, ◌∙◌, Bool, ◌||◌, List, [], ◌∷◌, ◌++◌,
  append_assoc, append-nil, length, drop, length-append, take_full, ltb, leb, arith,
}
use aurhub.Base.Result.{ok, Ensures, returns, Ensures-bind, Ensures-guard}
use aurhub.Bytes.{Bytes}
use aurhub.Model.{BranchInfo, CompiledPackageView}
use aurhub.Snapshot.Format.{Slice32, PackageRecord, BranchRecord, slice_of}
use aurhub.Snapshot.Writer.{
  WriteError, section_too_large, u32_max, assign_slice, branch_records, Sizes, make_record,
  package_records, branch_strings, package_strings, package_searches,
}

pub drop_prefix : (xs ys : Bytes) → drop (length xs) (xs ++ ys) ≡ ys
unfolding drop
drop_prefix [] ys = refl
drop_prefix (x ∷ xs) ys = drop_prefix xs ys

-- A slice that lies behind `before` and is as long as `value` reads `value`.
pub slice_of-middle :
    (slice : Slice32) (before value after : Bytes)
    → slice.offset ≡ length before
    → slice.size ≡ length value
    → slice_of (before ++ (value ++ after)) slice ≡ value
unfolding slice_of
slice_of-middle slice before value after p q =
    rw (p, q, drop_prefix before (value ++ after)) (take_full (length value) value after refl)

-- `assign_slice` gives the next free place of the section.
pub record Assigned (section_size : ℕ) (value : Bytes) (slice : Slice32) (last : ℕ) : Type 0 where
  pub offset_is : slice.offset ≡ section_size
  pub size_is : slice.size ≡ length value
  pub last_is : last ≡ section_size + length value

pub assign_slice-Assigned :
    (section_size : ℕ) (value : Bytes)
    → Ensures (λ r. Assigned section_size value r.0 r.1) (assign_slice section_size value)
unfolding assign_slice
assign_slice-Assigned section_size value =
    let test : Bool =
      ltb u32_max section_size
      || ltb u32_max (length value)
      || ltb (u32_max - section_size) (length value) in
    let slice : Slice32 = record { offset = section_size % 2 ^ 32; size = length value % 2 ^ 32 } in
    Ensures-guard test section_too_large (ok (slice, section_size + length value)) (λ small.
      returns {a = (slice, section_size + length value)}
        (record { offset_is = ground arith; size_is = ground arith; last_is = refl }))

-- the section around a value, and around what stands behind it
module _ {section : Bytes} (before value rest after : Bytes)
    (e : section ≡ before ++ (value ++ rest ++ after)) where
  around_value : section ≡ before ++ (value ++ (rest ++ after))
  around_value = e ∙ ap (◌++◌ before) (append_assoc value rest after)

  around_rest : section ≡ (before ++ value) ++ (rest ++ after)
  around_rest = around_value ∙ sym (append_assoc before value (rest ++ after))

  reads_value :
      (start : ℕ) (slice : Slice32) (last : ℕ)
      → start ≡ length before
      → Assigned start value slice last
      → (slice_of section slice ≡ value) × (last ≡ length (before ++ value))
  reads_value start slice last p a = (
    rw around_value
        (slice_of-middle slice before value (rest ++ after) (a.offset_is ∙ p) a.size_is),
    omega (arith, a.last_is, p, length-append before value),
  )

-- Record by record: the name slices read the branches' names, and the rest is copied.
abbrev pub BranchesRead : Bytes → List BranchRecord → List BranchInfo → Type 0
BranchesRead strings [] [] = Unit
BranchesRead strings (r ∷ records) (b ∷ branches) =
    (slice_of strings r.name ≡ b.name)
    × (r.oid ≡ b.oid)
    × (r.updated_at ≡ b.updated_at)
    × BranchesRead strings records branches
BranchesRead strings _ _ = ⊥

pub branch_records-read :
    (strings : Bytes) (branches : List BranchInfo) (before after : Bytes) (start : ℕ)
    → start ≡ length before
    → strings ≡ before ++ (branch_strings branches ++ after)
    → Ensures
        (λ r.
          BranchesRead strings r.0 branches × (r.1 ≡ length (before ++ branch_strings branches)))
        (branch_records start branches)
unfolding branch_records branch_strings
branch_records-read strings [] before after start p e = returns (tt, rw append-nil p)
branch_records-read strings (b ∷ branches) before after start p e =
    Ensures-bind (assign_slice-Assigned start b.name) (λ (slice, next) a.
      let (value, at) =
        reads_value before b.name (branch_strings branches) after e start slice next p a in
      Ensures-bind
        (branch_records-read strings branches (before ++ b.name) after next at
          (around_rest before b.name (branch_strings branches) after e))
        (λ (records, last) r. returns (
          (value, refl, refl, r.0),
          r.1 ∙ ap length (append_assoc before b.name (branch_strings branches)),
        )))

-- Record by record: the three slices read the package's strings, and the rest is copied from a
-- package whose branch exists.
abbrev pub RecordReads : Bytes → Bytes → ℕ → PackageRecord → CompiledPackageView → Type 0
RecordReads strings searches branch_count r p =
    (slice_of strings r.name ≡ p.name)
    × (slice_of strings r.json ≡ p.json)
    × (slice_of searches r.search ≡ p.search)
    × (r.branch_index ≡ p.branch_index)
    × (r.updated_at ≡ p.updated_at)
    × (p.branch_index < branch_count)

abbrev pub PackagesRead : Bytes → Bytes → ℕ → List PackageRecord → List CompiledPackageView → Type 0
PackagesRead strings searches branch_count [] [] = Unit
PackagesRead strings searches branch_count (r ∷ records) (p ∷ packages) =
    RecordReads strings searches branch_count r p
    × PackagesRead strings searches branch_count records packages
PackagesRead strings searches branch_count _ _ = ⊥

-- The sizes are those of what stands before.
abbrev pub AreAt : Sizes → Bytes → Bytes → Type 0
AreAt sizes strings searches =
    (sizes.strings_size ≡ length strings) × (sizes.search_texts_size ≡ length searches)

module _ (strings searches : Bytes) (invalid : WriteError) (branch_count : ℕ) where
  make_record-read :
      (p : CompiledPackageView) (before rest after before' rest' after' : Bytes) (sizes : Sizes)
      → AreAt sizes before before'
      → strings ≡ before ++ ((p.name ++ p.json ++ rest) ++ after)
      → searches ≡ before' ++ ((p.search ++ rest') ++ after')
      → Ensures
          (λ r.
            RecordReads strings searches branch_count r.0 p
            × AreAt r.1 (before ++ p.name ++ p.json) (before' ++ p.search))
          (make_record invalid branch_count sizes p)
  unfolding make_record
  make_record-read p before rest after before' rest' after' sizes (s, t) e e' =
      let at_name : strings ≡ before ++ (p.name ++ (p.json ++ rest) ++ after) =
        e ∙ ap (λ x. before ++ (x ++ after)) (append_assoc p.name p.json rest) in
      let at_json = around_rest before p.name (p.json ++ rest) after at_name in
      Ensures-guard (leb branch_count p.branch_index) invalid _ (λ branch.
        Ensures-bind (assign_slice-Assigned sizes.strings_size p.name) (λ (name, after_name) a.
          Ensures-bind (assign_slice-Assigned sizes.search_texts_size p.search)
            (λ (search, after_search) b.
              Ensures-bind (assign_slice-Assigned after_name p.json) (λ (json, after_json) c.
                let (name_reads, name_ends) =
                  reads_value before p.name (p.json ++ rest) after at_name sizes.strings_size name
                    after_name s a in
                let (search_reads, search_ends) =
                  reads_value before' p.search rest' after' e' sizes.search_texts_size search
                    after_search t b in
                let (json_reads, json_ends) =
                  reads_value (before ++ p.name) p.json rest after at_json after_name json
                    after_json name_ends c in
                returns (
                  (name_reads, json_reads, search_reads, refl, refl, ground arith),
                  (json_ends, search_ends),
                )))))

  pub package_records-read :
      (packages : List CompiledPackageView) (before after before' after' : Bytes) (sizes : Sizes)
      → AreAt sizes before before'
      → strings ≡ before ++ (package_strings packages ++ after)
      → searches ≡ before' ++ (package_searches packages ++ after')
      → Ensures
          (λ r.
            PackagesRead strings searches branch_count r.0 packages
            × AreAt r.1 (before ++ package_strings packages) (before' ++ package_searches packages))
          (package_records invalid branch_count sizes packages)
  unfolding package_records package_strings package_searches
  package_records-read [] before after before' after' sizes (s, t) e e' =
      returns (tt, (rw append-nil s, rw append-nil t))
  package_records-read (p ∷ packages) before after before' after' sizes at e e' =
      let rest = package_strings packages in
      let rest' = package_searches packages in
      let regroup : before ++ p.name ++ p.json ++ rest ≡ before ++ (p.name ++ p.json ++ rest) =
        simp append_assoc in
      Ensures-bind (make_record-read p before rest after before' rest' after' sizes at e e')
        (λ (r, sizes') (reads, at').
          Ensures-bind
            (package_records-read packages (before ++ p.name ++ p.json) after (before' ++ p.search)
              after' sizes' at' (e ∙ simp append_assoc) (e' ∙ simp append_assoc))
            (λ (records, last) (others, at''). returns (
              (reads, others),
              (
                at''.0 ∙ ap length regroup,
                at''.1 ∙ ap length (append_assoc before' p.search rest'),
              ),
            )))
