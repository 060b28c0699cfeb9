-- ===== src/Tests/Blocks.antt =====
-- Single blocks, records and levels.
use aurhub.Base.{
  ℕ, ◌≡◌, refl, sym, ap, Bool, true, false, List, [], ◌∷◌, length, get_or, some, arith,
  if◌then◌else◌, ◌==◌,
}
use aurhub.Base.Result.{Result, ok, err, is_ok}
use aurhub.Bytes.{Bytes, AreBytes, contains, starts_with}
use aurhub.Snapshot.Bitmap.{set_bit, has_bit, has_bit-set_bit}
use aurhub.Snapshot.Block.{SearchBlock, empty_block, add_search_text}
use aurhub.Snapshot.Block.Grows.{
  IsSized, BlockExtends, empty_block-IsSized, add_search_text-IsSized, add_search_text-BlockExtends,
}
use aurhub.Snapshot.Builder.{block_count, write_search_blocks}
use aurhub.Snapshot.Builder.Count.{Wrote, write_search_blocks-Wrote}
use aurhub.Snapshot.Format.{SnapshotView, no_record}
use aurhub.Snapshot.Reader.{ReadError, invalid_slice, check_records}
use aurhub.Snapshot.Reader.Accepts.{IsReadable, check_records-IsReadable}
use aurhub.Snapshot.Writer.{WriteError, write_snapshot}
use aurhub.Search.Query.{bitmap_contains}
use aurhub.Search.Query.Complete.{bitmap_contains-add_search_text}
use aurhub.Srcinfo.Text.{codes}
use aurhub.Tests.Three.{three_run, bc_asks}

abc_bytes : AreBytes (codes "abc")
abc_bytes = (omega arith, (omega arith, (omega arith, tt)))

abbrev one_text : SearchBlock
one_text = add_search_text empty_block (codes "abc")

one_text-IsSized : IsSized one_text
one_text-IsSized = add_search_text-IsSized empty_block (codes "abc") empty_block-IsSized

add_search_text-BlockExtends_example :
    BlockExtends one_text (add_search_text one_text (codes "abc"))
add_search_text-BlockExtends_example =
    add_search_text-BlockExtends one_text (codes "abc") one_text-IsSized abc_bytes

abc_contains : contains (codes "abc") (codes "bc") ≡ true
unfolding contains starts_with
abc_contains = refl

bitmap_contains-add_search_text_example : bitmap_contains one_text (codes "bc") ≡ true
bitmap_contains-add_search_text_example =
    bitmap_contains-add_search_text empty_block (codes "abc") (codes "bc") empty_block-IsSized
      abc_bytes bc_asks abc_contains

has_bit-set_bit_example : has_bit (set_bit (0 ∷ 0 ∷ []) 70) 70 ≡ true
has_bit-set_bit_example = has_bit-set_bit (0 ∷ 0 ∷ []) 70 (omega arith)

abbrev texts : List Bytes
texts = codes "abc" ∷ codes "abc" ∷ codes "abc" ∷ []

write_search_blocks-Wrote_example :
    (fine coarse : List SearchBlock) × (write_search_blocks 1 2
        (block_count (length texts) 1)
        (if 2 == 0 then 0 else block_count (length texts) 2)
        texts
      ≡ some (fine, coarse))
    × Wrote 1 2 texts fine coarse
write_search_blocks-Wrote_example =
    write_search_blocks-Wrote 1 2 texts (omega arith) (omega arith) (omega arith) (omega arith)
      (abc_bytes, (abc_bytes, (abc_bytes, tt)))

-- the records of the snapshot pass the check, and there are three
abbrev checked_of : Result WriteError SnapshotView → Bool × ℕ
checked_of (ok view) =
    (is_ok (check_records view.header invalid_slice view.records), length view.records)
checked_of (err e) = (false, 0)

three_checked : checked_of (ok three_run.0) ≡ (true, 3)
unfolding write_snapshot empty_block check_records
three_checked = ap checked_of (sym three_run.1)

unit_ok : (r : Result ReadError (Unit {0})) → is_ok r ≡ true → r ≡ ok tt
unit_ok (ok tt) h = refl
unit_ok (err e) h = cc

check_records-IsReadable_example :
    IsReadable three_run.0.header (get_or three_run.0.records 2 no_record)
check_records-IsReadable_example =
    check_records-IsReadable three_run.0.header invalid_slice three_run.0.records 2
      (unit_ok _ (ap (λ t. t.0) three_checked)) (omega (arith, ap (λ t. t.1) three_checked))
