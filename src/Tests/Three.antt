-- ===== src/Tests/Three.antt =====
-- A snapshot of three packages.
use aurhub.Base.{ℕ, ◌≡◌, ◌≢◌, refl, sym, ap, true, [], ◌∷◌, map, Option, some, arith}
use aurhub.Base.Result.{Result, ok, err, is_ok, is_ok-value, Ensures-value}
use aurhub.Bytes.{Bytes, AreBytes}
use aurhub.Model.{pos, CompiledPackageView}
use aurhub.Snapshot.Block.{empty_block}
use aurhub.Snapshot.Builder.Count.{AllBytes}
use aurhub.Snapshot.Format.{SnapshotView}
use aurhub.Snapshot.Writer.{SnapshotInput, WriteError, write_snapshot}
use aurhub.Snapshot.Writer.File.{IsWritten, write_snapshot-IsWritten}
use aurhub.Srcinfo.Text.{codes}

abbrev package_of : Bytes → CompiledPackageView
package_of text = record {
  name = text;
  search = text;
  json = codes "{}";
  branch_index = 0;
  updated_at = pos 5;
}

abbrev pub three : SnapshotInput
three = record {
  packages = package_of (codes "abc") ∷ package_of (codes "abd") ∷ package_of (codes "xbc") ∷ [];
  shadow_packages = [];
  branches = record { name = codes "main"; oid = codes "0"; updated_at = pos 4 } ∷ [];
  search_block_packages = 1;
  search_super_block_packages = 2;
}

abbrev pub stored : Bytes → Option Bytes
stored bytes = some bytes

three_returns : is_ok (write_snapshot stored (pos 7) three) ≡ true
unfolding write_snapshot empty_block
three_returns = refl

pub three_run : (view : SnapshotView) × (write_snapshot stored (pos 7) three ≡ ok view)
three_run = is_ok-value (write_snapshot stored (pos 7) three) three_returns

pub three_bytes : AllBytes (map (λ (q : CompiledPackageView). q.search) three.packages)
three_bytes =
    let a : AreBytes (codes "abc") = (omega arith, (omega arith, (omega arith, tt))) in
    let b : AreBytes (codes "abd") = (omega arith, (omega arith, (omega arith, tt))) in
    let c : AreBytes (codes "xbc") = (omega arith, (omega arith, (omega arith, tt))) in
    (a, (b, (c, tt)))

pub bc_asks : codes "bc" ≢ []
bc_asks e = cc

pub three_is : IsWritten three three_run.0
three_is = Ensures-value (write_snapshot-IsWritten stored (pos 7) three three_bytes) three_run.1

abbrev pub shape_of : Result WriteError SnapshotView → ℕ × ℕ × ℕ
shape_of (ok view) =
    (view.header.search_block_packages, view.header.package_count, view.header.search_block_count)
shape_of (err e) = (0, 0, 0)

pub three_shape : shape_of (ok three_run.0) ≡ (1, 3, 3)
unfolding write_snapshot empty_block
three_shape = ap shape_of (sym three_run.1)
