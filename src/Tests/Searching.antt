-- ===== src/Tests/Searching.antt =====
-- The snapshot of three packages is written, checked and searched.
use aurhub.Base.{
  ℕ, ◌≡◌, ◌*◌, ◌<◌, zero, suc, refl, ap, true, false, List, [], ◌∷◌, take, get_or, arith,
}
use aurhub.Base.Result.{ok}
use aurhub.Bytes.{contains, starts_with}
use aurhub.Model.{pos}
use aurhub.Snapshot.Format.{SnapshotView, search_text}
use aurhub.Snapshot.Reader.{check_search}
use aurhub.Search.Exact.{fits, keeps, AreFlags}
use aurhub.Search.Exact.Written.{write_snapshot-search_packages, write_snapshot-check_search}
use aurhub.Search.Exact.Answer.{search_packages-exact, search_packages_kept-exact}
use aurhub.Search.Hits.{hits}
use aurhub.Search.Scan.{is_dirty, wrong_size, search_packages, search_packages_kept}
use aurhub.Srcinfo.Text.{codes}
use aurhub.Snapshot.Writer.{
  gzip_input, branch_strings, package_strings, package_searches, make_header, align_up,
  write_snapshot,
}
use aurhub.Snapshot.Writer.File.{IsWritten}
use aurhub.Snapshot.Writer.Returns.{IsSuitable, write_snapshot-IsSuitable}
use aurhub.Tests.Three.{three, stored, three_run, three_bytes, bc_asks, three_is, three_shape}

three-IsSuitable : IsSuitable (pos 7) (gzip_input three.packages) three
unfolding make_header gzip_input branch_strings package_strings package_searches align_up
three-IsSuitable = record {
  accepted = record {
    block_pos = omega arith;
    block_small = omega arith;
    super_small = omega arith;
    super_multiple = λ given. refl;
    few = omega arith;
  };
  branches_exist = (omega arith, (omega arith, (omega arith, tt)));
  shadow_branches_exist = tt;
  strings_fit = omega arith;
  searches_fit = omega arith;
  file_fits = omega arith;
}

write_snapshot-IsSuitable_example :
    (view : SnapshotView) × (write_snapshot stored (pos 7) three ≡ ok view) × IsWritten three view
write_snapshot-IsSuitable_example =
    write_snapshot-IsSuitable stored (pos 7) three (gzip_input three.packages) three_bytes refl
      three-IsSuitable

write_snapshot-search_packages_example :
    (search_packages three_run.0 (codes "bc") 5 true).results ≡ 0 ∷ 2 ∷ []
unfolding hits take get_or contains starts_with
write_snapshot-search_packages_example =
    write_snapshot-search_packages stored (pos 7) three three_run.0 (codes "bc") 5 true three_bytes
      three_run.1 bc_asks

write_snapshot-check_search_example : check_search three_run.0 ≡ ok tt
write_snapshot-check_search_example =
    write_snapshot-check_search stored (pos 7) three three_run.0 three_bytes three_run.1

search_packages-exact_example :
    (search_packages three_run.0 (codes "bc") 1 false).results
    ≡ take 1 (
        hits
          (λ p. contains (search_text three_run.0 p) (codes "bc"))
          0
          three_run.0.header.package_count)
search_packages-exact_example =
    search_packages-exact three_run.0 (codes "bc") 1 false three_is.indexed bc_asks

-- the second package is dropped, and its block is dirty
abbrev some_kept : List ℕ
some_kept = 1 ∷ 0 ∷ 1 ∷ []

abbrev some_dirty : List ℕ
some_dirty = 0 ∷ 1 ∷ 0 ∷ []

flags_clean : (k p : ℕ) → k ≡ p → p < 3 → is_dirty some_dirty k ≡ false → keeps some_kept p ≡ true
unfolding is_dirty keeps get_or
flags_clean k zero e l d = refl
flags_clean zero (suc zero) e l d = absurd (omega arith)
flags_clean (suc zero) (suc zero) e l d = cc
flags_clean (suc (suc k)) (suc zero) e l d = absurd (omega arith)
flags_clean k (suc (suc zero)) e l d = refl
flags_clean k (suc (suc (suc p))) e l d = absurd (omega arith)

some_flags : AreFlags three_run.0 some_kept some_dirty
some_flags =
    let size : three_run.0.header.search_block_packages ≡ 1 = ap (λ t. t.0) three_shape in
    record {
      clean = λ k p l u b d.
          flags_clean k p (omega (arith, ap (λ (x : ℕ). k * x) size))
            (omega (arith, three_is.counts_packages)) d;
      given = λ k d e. cc;
    }

kept_size : wrong_size some_kept three_run.0.header.package_count ≡ false
unfolding wrong_size
kept_size = rw (ap (λ t. t.1) three_shape) refl

dirty_size : wrong_size some_dirty three_run.0.header.search_block_count ≡ false
unfolding wrong_size
dirty_size = rw (ap (λ t. t.2) three_shape) refl

search_packages_kept-exact_example :
    (search_packages_kept three_run.0 (codes "bc") 5 some_kept some_dirty true).results
    ≡ take 5 (hits (fits three_run.0 (codes "bc") some_kept) 0 three_run.0.header.package_count)
search_packages_kept-exact_example =
    search_packages_kept-exact three_run.0 (codes "bc") 5 some_kept some_dirty true three_is.indexed
      some_flags bc_asks kept_size dirty_size
