-- ===== src/Snapshot/Reader/Accepts.antt =====
-- What the reader's checks in src/snapshot.cpp mean for the records and for the blocks.
use native.Mathlib.Nat.{mul-le-mul_right, zero-mul}
use aurhub.Base.{
  ℕ, zero, suc, ◌+◌, ◌-◌, ◌*◌, ◌≤◌, ◌<◌, min, ◌≡◌, ap, false, not, ◌||◌, List, [], ◌∷◌, length,
  get_or, ltb, ◌==◌, arith,
}
use aurhub.Base.Result.{ok, >>-eq-ok}
use aurhub.Bytes.{Bytes}
use aurhub.Snapshot.Block.{SearchBlock, empty_block}
use aurhub.Snapshot.Builder.Fill.{Summary}
use aurhub.Snapshot.Builder.Loop.{Covered}
use aurhub.Snapshot.Format.{Slice32, SnapshotHeader, PackageRecord, no_record}
use aurhub.Snapshot.Reader.{ReadError, check_records, check_blocks}

-- The slice lies in its section.
abbrev pub Within : Slice32 → ℕ → Type 0
Within slice size = slice.offset + slice.size ≤ size

-- A record whose strings and whose branch can be read.
pub record IsReadable (h : SnapshotHeader) (r : PackageRecord) : Type 0 where
  pub name_within : Within r.name h.strings_size
  pub json_within : Within r.json h.strings_size
  pub search_within : Within r.search h.search_texts_size
  pub branch_exists : r.branch_index < h.branch_count

-- When the reader's loop over the records accepts them, the record at every index below their number
-- has its name and JSON inside the string section, its search text inside the search text section,
-- and a branch that exists.
pub check_records-IsReadable :
    (h : SnapshotHeader) (e : ReadError) (records : List PackageRecord) (i : ℕ)
    → check_records h e records ≡ ok tt
    → i < length records
    → IsReadable h (get_or records i no_record)
unfolding check_records get_or
check_records-IsReadable h e [] i c l = elim l [ ]
check_records-IsReadable h e (r ∷ records) zero c l =
    let (t, rest) = >>-eq-ok _ e (check_records h e records) c in
    record {
      name_within = ground arith;
      json_within = ground arith;
      search_within = ground arith;
      branch_exists = ground arith;
    }
check_records-IsReadable h e (r ∷ records) (suc i) c l =
    let (t, rest) = >>-eq-ok _ e (check_records h e records) c in
    check_records-IsReadable h e records i rest (omega arith)

module _ (text : ℕ → Bytes) (limit total : ℕ) (pos : 0 < limit) (e : ReadError) where
  check_blocks-from :
      (blocks : List SearchBlock) (k : ℕ)
      → ((j : ℕ)
          → j < length blocks
          → Summary text
              ((k + j) * limit)
              (min ((k + j) * limit + limit) total)
              (get_or blocks j empty_block))
      → (k + length blocks) * limit < total + limit
      → check_blocks total limit e (min (k * limit) total) blocks
        ≡ ok (min ((k + length blocks) * limit) total)
  unfolding check_blocks get_or
  check_blocks-from [] k s tight = ap (λ x. ok (min (x * limit) total)) (omega arith)
  check_blocks-from (block ∷ blocks) k s tight =
      let here = s 0 (omega arith) in
      let k_is : k + 0 ≡ k = omega arith in
      let first : block.first_package ≡ k * limit = rw k_is at here.first_is in
      let ends : k * limit + block.package_count ≡ min (k * limit + limit) total =
        omega (arith, here.counts, ap (λ (x : ℕ). x * limit) k_is) in
      let all : suc k * limit ≤ (k + suc (length blocks)) * limit =
        mul-le-mul_right limit (omega arith) in
      let shift : k + suc (length blocks) ≡ suc k + length blocks = omega arith in
      let next : min (k * limit) total + block.package_count ≡ min (suc k * limit) total =
        omega arith in
      let passes : (not (block.first_package == min (k * limit) total)
            || ltb total (min (k * limit) total)
            || block.package_count == 0
            || ltb limit block.package_count
            || ltb (total - min (k * limit) total) block.package_count)
          ≡ false =
        ground arith in
      rw (passes, next, shift)
        (check_blocks-from blocks (suc k) (λ j l. rw (suc-add k j) (s (suc j) (omega arith)))
          (omega arith))
    where
      suc-add : (a b : ℕ) → suc a + b ≡ a + suc b
      suc-add a b = omega arith

  pub check_blocks-Covered :
      (blocks : List SearchBlock)
      → Covered text limit total blocks
      → check_blocks total limit e 0 blocks ≡ ok total
  check_blocks-Covered blocks c =
      let start : min (0 * limit) total ≡ 0 = omega (arith, zero-mul limit) in
      let zero-add' : (j : ℕ) → 0 + j ≡ j = λ j. omega arith in
      let end : min ((0 + length blocks) * limit) total ≡ total =
        omega (arith, c.enough, ap (λ (x : ℕ). x * limit) (zero-add' (length blocks))) in
      rw (start, end) at
        (check_blocks-from blocks 0 (λ j l. rw (zero-add' j) (c.parts.summary j l))
          (rw (zero-add' (length blocks)) c.tight))
