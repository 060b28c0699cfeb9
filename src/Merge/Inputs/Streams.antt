-- ===== src/Merge/Inputs/Streams.antt =====
-- The streams of src/merge.cpp: what their candidates are.
use aurhub.Base.{
  ℕ, zero, suc, ◌+◌, ◌≤◌, ◌<◌, ◌≡◌, refl, subst, List, none, some, get_or, length, inl, inr,
  Bool-cases, ◌==◌, arith,
}
use aurhub.Base.Result.{ok, ok-injective}
use aurhub.Bytes.{Bytes}
use aurhub.Model.{CompiledPackage}
use aurhub.Generation.Format.{GenerationView}
use aurhub.Generation.View
use aurhub.Merge.Names.{PackageNameTable, table_name}
use aurhub.Merge.Candidate.{
  MergeSource, MergeCandidate, Stream, no_branch, next_shadow, next_active, next_changed,
  no_package,
}

-- The stream stands at an index from the given one on, and its candidate is the package there.
pub record At (name : ℕ → Bytes) (count : ℕ) (source : MergeSource) (from : ℕ) (stream : Stream)
    : Type 0 where
  pub later : from ≤ stream.index
  pub front :
      (c : MergeCandidate)
      → stream.front ≡ some c
      → (c.source ≡ source)
        × (stream.index < count)
        × (c.index ≡ stream.index)
        × (c.name ≡ name stream.index)

At-none :
    (name : ℕ → Bytes) (count : ℕ) (source : MergeSource) (from index : ℕ)
    → from ≤ index
    → At name count source from (record { index = index; front = none })
At-none name count source from index h = record { later = h; front = λ c e. cc }

At-some :
    (name : ℕ → Bytes) (count : ℕ) (from : ℕ) (d : MergeCandidate)
    → from ≤ d.index
    → d.index < count
    → d.name ≡ name d.index
    → At name count d.source from (record { index = d.index; front = some d })
At-some name count from d h l e = record {
  later = h;
  front = λ c q.
      let same : d ≡ c = cc in
      subst
        (λ x.
          (x.source ≡ d.source) × (d.index < count) × (x.index ≡ d.index) × (x.name ≡ name d.index))
        same (refl, l, refl, e);
}

At-earlier :
    {name : ℕ → Bytes} {count : ℕ} {source : MergeSource} {from : ℕ} {stream : Stream} (start : ℕ)
    → start ≤ from
    → At name count source from stream
    → At name count source start stream
At-earlier start h at = record { later = omega (arith, at.later); front = at.front }

module _ (previous : GenerationView) (old_to_new : List ℕ) where
  pub next_shadow-At :
      (name : ℕ → Bytes)
      → ((i : ℕ)
          → i < View.shadow_package_count previous
          → View.shadow_name previous i ≡ ok (name i))
      → (left index : ℕ) (stream : Stream) → index + left ≡ View.shadow_package_count previous
      → next_shadow previous old_to_new left index ≡ ok stream
      → At name (View.shadow_package_count previous) MergeSource.previous_shadow index stream
  unfolding next_shadow
  next_shadow-At name named zero index stream total h =
      subst (At name (View.shadow_package_count previous) MergeSource.previous_shadow index)
        (ok-injective h) (At-none name _ _ index index (omega arith))
  next_shadow-At name named (suc left) index stream total h =
      elim (Bool-cases
        (get_or old_to_new (View.shadow_branch_index previous index) no_branch == no_branch)) [
          | inl gone ↦
              let h' = rw gone at h in
              At-earlier index (omega arith)
                (next_shadow-At name named left (suc index) stream (omega arith) h')
          | inr here ↦
              let h' = rw (here, named index (omega arith)) at h in
              subst (At name (View.shadow_package_count previous) MergeSource.previous_shadow index)
                (ok-injective h')
                (At-some name (View.shadow_package_count previous) index _ (omega arith)
                  (omega arith) refl)
        ]

  pub next_active-At :
      (names : PackageNameTable) (left index : ℕ)
      → index + left ≡ View.package_count previous
      → At
          (table_name names)
          (View.package_count previous)
          MergeSource.previous_active
          index
          (next_active previous old_to_new names left index)
  unfolding next_active
  next_active-At names zero index total = At-none (table_name names) _ _ index index (omega arith)
  next_active-At names (suc left) index total =
      elim (Bool-cases
        (get_or old_to_new (View.package_branch_index previous index) no_branch == no_branch)) [
          | inl gone ↦
              rw gone (
                At-earlier index (omega arith)
                  (next_active-At names left (suc index) (omega arith)))
          | inr here ↦ rw here (
              At-some (table_name names) (View.package_count previous) index _ (omega arith)
                (omega arith) refl)
        ]

pub next_changed-At :
    (changed_packages : List CompiledPackage) (index : ℕ)
    → index ≤ length changed_packages
    → At
        (λ i. (get_or changed_packages i no_package).name)
        (length changed_packages)
        MergeSource.changed
        index
        (next_changed changed_packages index)
unfolding next_changed
next_changed-At changed_packages index h = elim (Bool-cases (index == length changed_packages)) [
  | inl e ↦ rw e (At-none _ _ _ index index (omega arith))
  | inr e ↦ rw e (At-some _ (length changed_packages) index _ (omega arith) (ground arith) refl)
]
