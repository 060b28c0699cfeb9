-- ===== src/Merge/Candidate.antt =====
-- The candidates of src/merge.cpp and their order, and the sorting of the changed packages.
use aurhub.Base.{
  ℕ, zero, suc, not, List, [], ◌∷◌, Option, none, some, get_or, ltb, length, ◌==◌, Bool,
  if◌then◌else◌,
}
use aurhub.Base.Result.{Result, ok, err, ◌>>=◌}
use aurhub.Bytes.{Bytes, bytes_eq, bytes_lt}
use aurhub.Model.{pos, CompiledPackage}
use aurhub.Generation.Format.{GenerationError, GenerationView, u32_max}
use aurhub.Generation.View
use aurhub.Merge.Names.{PackageNameTable, table_name}

pub data MergeError : Type 0 where
  view_failed : GenerationError → MergeError
  too_many_details : MergeError

pub data MergeSource : Type 0 where
  previous_shadow previous_active changed : MergeSource

pub record MergeCandidate : Type 0 where
  pub name : Bytes
  pub branch_index : ℕ
  pub index : ℕ
  pub source : MergeSource

-- `static_cast<std::uint8_t>(source)`
unfoldable pub rank_of : MergeSource → ℕ
rank_of MergeSource.previous_shadow = 0
rank_of MergeSource.previous_active = 1
rank_of MergeSource.changed = 2

unfoldable pub merge_candidate_less : MergeCandidate → MergeCandidate → Bool
unfolding rank_of
merge_candidate_less left right =
    if not (bytes_eq left.name right.name)
    then bytes_lt left.name right.name
    else if not (left.branch_index == right.branch_index)
    then ltb left.branch_index right.branch_index
    else ltb (rank_of left.source) (rank_of right.source)

-- the comparison that `std::stable_sort` is given
unfoldable pub changed_less : CompiledPackage → CompiledPackage → Bool
changed_less left right =
    if not (bytes_eq left.name right.name)
    then bytes_lt left.name right.name
    else ltb left.branch_index right.branch_index

-- What `std::stable_sort` documents: equal elements keep their order.
unfoldable pub insert_stable : CompiledPackage → List CompiledPackage → List CompiledPackage
unfolding changed_less
insert_stable p [] = p ∷ []
insert_stable p (q ∷ qs) =
    let rest = insert_stable p qs in if changed_less q p then q ∷ rest else p ∷ q ∷ qs

unfoldable pub stable_sort : List CompiledPackage → List CompiledPackage
unfolding insert_stable
stable_sort [] = []
stable_sort (p ∷ ps) = insert_stable p (stable_sort ps)

-- an exception of the view that is passed on
abbrev pub lifted : {A : Type 0} → Result GenerationError A → Result MergeError A
lifted (ok a) = ok a
lifted (err e) = err (view_failed e)

abbrev pub no_branch : ℕ
no_branch = u32_max

-- A stream: where it stands, and its candidate.
pub record Stream : Type 0 where
  pub index : ℕ
  pub front : Option MergeCandidate

module _ (previous : GenerationView) (old_to_new : List ℕ) where
  -- `old_to_new[index]`; the callers give an entry for every branch of the previous generation.
  abbrev new_branch : ℕ → ℕ
  new_branch index = get_or old_to_new index no_branch

  -- `left` is how many packages there are from `index` on.
  unfoldable pub next_shadow : ℕ → ℕ → Result MergeError Stream
  unfolding View.shadow_branch_index View.shadow_name
  next_shadow zero index = ok (record { index = index; front = none })
  next_shadow (suc left) index =
      let branch = new_branch (View.shadow_branch_index previous index) in
      let later = next_shadow left (suc index) in
      if not (branch == no_branch)
      then (lifted (View.shadow_name previous index) >>= λ name. ok (record {
        index = index;
        front = some (record {
          name = name;
          branch_index = branch;
          index = index;
          source = MergeSource.previous_shadow;
        });
      }))
      else later

  unfoldable pub next_active : PackageNameTable → ℕ → ℕ → Stream
  unfolding View.package_branch_index table_name
  next_active names zero index = record { index = index; front = none }
  next_active names (suc left) index =
      let branch = new_branch (View.package_branch_index previous index) in
      let later = next_active names left (suc index) in
      if not (branch == no_branch)
      then record {
        index = index;
        front = some (record {
          name = table_name names index;
          branch_index = branch;
          index = index;
          source = MergeSource.previous_active;
        });
      }
      else later

abbrev pub no_package : CompiledPackage
no_package = record { name = []; search = []; json = []; branch_index = 0; updated_at = pos 0 }

unfoldable pub next_changed : List CompiledPackage → ℕ → Stream
next_changed changed_packages index =
    if index == length changed_packages
    then record { index = index; front = none }
    else (let p = get_or changed_packages index no_package in
        record {
          index = index;
          front = some (record {
            name = p.name;
            branch_index = p.branch_index;
            index = index;
            source = MergeSource.changed;
          });
        })

-- one turn of the loop that looks for the least candidate
unfoldable pub better : Option MergeCandidate → Option MergeCandidate → Option MergeCandidate
unfolding merge_candidate_less
better candidate none = candidate
better none (some current) = some current
better (some candidate) (some current) =
    if merge_candidate_less current candidate then some current else some candidate

unfoldable pub least :
    Option MergeCandidate → Option MergeCandidate → Option MergeCandidate → Option MergeCandidate
unfolding better
least shadow active new = better (better (better none shadow) active) new
