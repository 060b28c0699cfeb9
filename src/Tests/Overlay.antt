-- ===== src/Tests/Overlay.antt =====
-- An overlay over the snapshot of three packages: the first and the last stand in it, and there is
-- a new one between them.
use aurhub.Base.{
  ℕ, zero, suc, ◌≡◌, ◌<◌, ◌-◌, ◌^◌, ◌↔◌, refl, sym, ap, ◌∙◌, Bool, true, false, [], ◌∷◌, Option,
  none, some, take, get_or, drop, replicate, set, arith,
}
use aurhub.Base.Result.{Result, ok, err, is_ok, is_ok-value}
use aurhub.Bytes.{Bytes, bytes_eq, bytes_lt, contains}
use aurhub.Model.{pos}
use aurhub.Snapshot.Block.{empty_block, add_search_text}
use aurhub.Snapshot.Format.{SnapshotView, name}
use aurhub.Snapshot.Reader.{full}
use aurhub.Snapshot.Writer.{WriteError, write_snapshot}
use aurhub.Generation.Format.{Overlay, GenerationView, generation_magic}
use aurhub.Generation.Check.{check_package_refs}
use aurhub.Generation.Check.Refs.{IsNamed}
use aurhub.Generation.Find.{search_base, find_package}
use aurhub.Generation.Find.Binary.{Parts, search_base-Parts}
use aurhub.Generation.Find.Exact.{find_package-base}
use aurhub.Generation.Ref.{Get}
use aurhub.Generation.Open.{open_generation}
use aurhub.Generation.Open.Exact.{open_generation-search, open_generation-find_package}
use aurhub.Generation.Search.{search}
use aurhub.Generation.Table.{name_at, text_at}
use aurhub.Search.Hits.{hits}
use aurhub.Search.Scan.{Scan}
use aurhub.Srcinfo.Text.{codes}
use aurhub.Tests.Three.{three, stored, three_run, three_is, three_shape, bc_asks}

abbrev overlay : Overlay
overlay = record {
  header = record {
    magic = generation_magic;
    version = 1;
    header_size = 192;
    base_created_at = 7;
    base_file_size = 100000;
    branch_count = 1;
    package_count = 3;
    shadow_package_count = 0;
    branch_refs_offset = 192;
    package_refs_offset = 200;
    shadow_package_refs_offset = 248;
    inline_branches_offset = 248;
    inline_branch_count = 0;
    inline_packages_offset = 248;
    inline_package_count = 1;
    strings_offset = 280;
    strings_size = 5;
    search_texts_offset = 288;
    search_texts_size = 3;
    packages_gz_offset = 296;
    packages_gz_size = 0;
    created_at = pos 9;
  };
  branch_refs = record { source = 2; index = 0 } ∷ [];
  package_refs =
      record { source = 0; index = 0; branch_index = 0 }
      ∷ record { source = 3; index = 0; branch_index = 0 }
      ∷ record { source = 0; index = 2; branch_index = 0 }
      ∷ [];
  shadow_package_refs = [];
  inline_branches = [];
  inline_packages =
      record {
        name = record { offset = 0; size = 3 };
        search = record { offset = 0; size = 3 };
        json = record { offset = 3; size = 2 };
        updated_at = pos 8;
      }
      ∷ [];
  strings = codes "abf{}";
  search_texts = codes "bcf";
  packages_gz = [];
}

abbrev opened_over : Result WriteError SnapshotView → Bool
opened_over (ok base) = is_ok (open_generation (some overlay) base 296 100000 full)
opened_over (err e) = false

overlay_accepted : opened_over (write_snapshot stored (pos 7) three) ≡ true
unfolding write_snapshot empty_block open_generation bytes_eq add_search_text bytes_lt name take
    get_or drop replicate set
overlay_accepted = refl

overlay_run :
    (view : GenerationView) × (open_generation (some overlay) three_run.0 296 100000 full ≡ ok view)
overlay_run =
    is_ok-value (open_generation (some overlay) three_run.0 296 100000 full)
      (ap opened_over (sym three_run.1) ∙ overlay_accepted)

abbrev names_of : Result WriteError SnapshotView → Bytes × Bytes × Bytes
names_of (ok view) = (name view 0, name view 1, name view 2)
names_of (err e) = ([], [], [])

three_names : names_of (ok three_run.0) ≡ (codes "abc", codes "abd", codes "xbc")
unfolding write_snapshot empty_block name take get_or drop
three_names = ap names_of (sym three_run.1)

three_count : three_run.0.header.package_count ≡ 3
three_count = ap (λ t. t.1) three_shape

three-IsNamed : IsNamed three_run.0
unfolding bytes_lt
three-IsNamed i zero l u = absurd (omega arith)
three-IsNamed zero (suc zero) l u = rw (ap (λ t. t.0) three_names, ap (λ t. t.1) three_names) refl
three-IsNamed (suc i) (suc zero) l u = absurd (omega arith)
three-IsNamed zero (suc (suc zero)) l u =
    rw (ap (λ t. t.0) three_names, ap (λ t. t.2) three_names) refl
three-IsNamed (suc zero) (suc (suc zero)) l u =
    rw (ap (λ t. t.1) three_names, ap (λ t. t.2) three_names) refl
three-IsNamed (suc (suc i)) (suc (suc zero)) l u = absurd (omega arith)
three-IsNamed i (suc (suc (suc j))) l u = absurd (omega (arith, three_count))

overlay_few : 3 < 2 ^ 32 - 1
overlay_few = omega arith

open_generation-search_example :
    (s : Scan) × (search overlay_run.0 (codes "bc") 2 true ≡ ok s)
    × (s.results ≡ take 2 (hits (λ i. contains (text_at three_run.0 overlay i) (codes "bc")) 0 3))
open_generation-search_example =
    open_generation-search three_run.0 overlay 296 100000 full overlay_run.0 three_is.indexed
      three-IsNamed refl overlay_few overlay_run.1 (codes "bc") 2 true bc_asks

open_generation-find_package_example :
    (result : Option ℕ) × (find_package overlay_run.0 (codes "abf") ≡ ok result)
    × ((i : ℕ) → (result ≡ some i) ↔ ((i < 3) × (name_at three_run.0 overlay i ≡ codes "abf")))
open_generation-find_package_example =
    open_generation-find_package three_run.0 overlay 296 100000 full overlay_run.0 three_is.indexed
      three-IsNamed refl overlay_few overlay_run.1 (codes "abf")

abbrev refs_over : Result WriteError SnapshotView → Get (Unit {0})
refs_over (ok base) = check_package_refs base overlay none none overlay.package_refs
refs_over (err e) = ok tt

search_base-Parts_example : Parts three_run.0 (codes "abd") (
    search_base three_run.0
      (codes "abd")
      three_run.0.header.package_count
      0
      three_run.0.header.package_count)
search_base-Parts_example = search_base-Parts three_run.0 (codes "abd") three-IsNamed

-- the snapshot itself
abbrev plain : GenerationView
plain = record {
  base = three_run.0;
  overlay = none;
  base_active_kept = [];
  base_dirty_search_blocks = [];
  base_to_current = [];
  extra_active = [];
}

find_package-base_example :
    (result : Option ℕ) × (find_package plain (codes "abd") ≡ ok result)
    × ((i : ℕ)
        → (result ≡ some i)
          ↔ ((i < three_run.0.header.package_count) × (name three_run.0 i ≡ codes "abd")))
find_package-base_example = find_package-base plain (codes "abd") three-IsNamed refl
