-- ===== src/Tests/Writing.antt =====
-- An overlay is written: two packages of the base and a new one.
use aurhub.Base.{
  ℕ, ◌-◌, ◌^◌, ◌≤◌, ◌≡◌, refl, sym, ap, Bool, true, false, [], ◌∷◌, length, get_or, ltb, arith,
}
use aurhub.Base.Result.{Result, ok, err}
use aurhub.Bytes.{Bytes}
use aurhub.Model.{pos}
use aurhub.Snapshot.Block.{empty_block}
use aurhub.Snapshot.Format.{SnapshotView}
use aurhub.Snapshot.Writer.{WriteError, write_snapshot}
use aurhub.Generation.Format.{GenerationSource, GenerationPackageInput, Overlay}
use aurhub.Generation.Ref.{Get}
use aurhub.Generation.Writer.{GenerationInput, write_generation_overlay}
use aurhub.Generation.Writer.Stored.{AreStored}
use aurhub.Generation.Writer.Written.{write_generation_overlay-AreStored}
use aurhub.Srcinfo.Text.{codes}
use aurhub.Tests.Three.{stored, three_run}

abbrev kept_package : Bytes → ℕ → GenerationPackageInput
kept_package text index = record {
  name = text;
  location = record { source = GenerationSource.base_active; index = index };
  branch_index = 0;
  details_index = 2 ^ 32 - 1;
}

abbrev renewed : GenerationInput
renewed = record {
  branches = record { name = codes "main"; oid = codes "0"; updated_at = pos 4 } ∷ [];
  branch_locations = record { source = GenerationSource.base_branch; index = 0 } ∷ [];
  packages =
      kept_package (codes "abc") 0
      ∷ record {
        name = codes "abf";
        location = record { source = GenerationSource.inline_record; index = 0 };
        branch_index = 0;
        details_index = 0;
      }
      ∷ kept_package (codes "xbc") 2
      ∷ [];
  shadow_packages = [];
  package_details = record { search = codes "bcf"; json = codes "{}"; updated_at = pos 8 } ∷ [];
}

-- the number of records of its own
abbrev few_records : Get Overlay → Bool
few_records (ok o) = ltb (length o.inline_packages) 2
few_records (err e) = false

abbrev written_over : Result WriteError SnapshotView → Bool
written_over (ok base) = few_records (write_generation_overlay stored (pos 9) base 100000 renewed)
written_over (err e) = false

few_records-value :
    (r : Get Overlay)
    → few_records r ≡ true
    → (o : Overlay) × (r ≡ ok o) × (length o.inline_packages ≤ 2 ^ 32 - 1)
few_records-value (ok o) h = (o, refl, ground arith)
few_records-value (err e) h = cc

written_run :
    (o : Overlay) × (write_generation_overlay stored (pos 9) three_run.0 100000 renewed ≡ ok o)
    × (length o.inline_packages ≤ 2 ^ 32 - 1)
unfolding write_snapshot empty_block write_generation_overlay get_or
written_run =
    few_records-value (write_generation_overlay stored (pos 9) three_run.0 100000 renewed)
      (ap written_over (sym three_run.1))

write_generation_overlay-AreStored_example :
    (length written_run.0.package_refs ≡ written_run.0.header.package_count)
    × (length written_run.0.shadow_package_refs ≡ written_run.0.header.shadow_package_count)
    × AreStored three_run.0 renewed.package_details written_run.0 written_run.0.package_refs
        renewed.packages
    × AreStored three_run.0 renewed.package_details written_run.0 written_run.0.shadow_package_refs
        []
write_generation_overlay-AreStored_example =
    write_generation_overlay-AreStored stored (pos 9) three_run.0 100000 renewed written_run.0
      written_run.1 written_run.2
