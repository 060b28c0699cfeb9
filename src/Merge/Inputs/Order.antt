-- ===== src/Merge/Inputs/Order.antt =====
-- One step of the streams of src/merge.cpp: nothing that follows has a name below what was taken.
pub mod Lists
use aurhub.Base.{
  ℕ, zero, suc, ◌+◌, ◌-◌, ◌≤◌, ◌<◌, ◌≡◌, refl, sym, ap, subst, ◌∙◌, Bool, true, false, not, List,
  [], ◌∷◌, ◌++◌, Option, none, some, get_or, length, inl, inr, ◌⊎◌, Bool-cases, ◌==◌, arith,
  if◌then◌else◌, Option-cases,
}
use aurhub.Base.Result.{Result, ok, err, ◌>>=◌, ◌>>◌, bind_ok, ok-injective}
use aurhub.Bytes.{Bytes, bytes_eq, bytes_lt}
use aurhub.Bytes.Laws.{bytes_eq_sound, bytes_eq_refl, bytes_lt_connex}
use aurhub.Model.{CompiledPackage, package_view}
use aurhub.Generation.Format.{
  GenerationView, GenerationLocation, GenerationPackageInput, GenerationPackageDetails,
}
use aurhub.Generation.View
use aurhub.Merge.Names.{PackageNameTable, table_name}
use aurhub.Merge.Candidate.{
  MergeError, MergeSource, MergeCandidate, Stream, lifted, least, no_package,
}
use aurhub.Merge.Inputs.{
  Merging, Merged, located_input, add_details, no_package_details, stands_in_base, make_input,
  shadow_from, active_from, next_changed, consume, settle, merge_step, merge_loop, finish_merge,
}
use aurhub.Merge.Inputs.Least.{Le, Le-refl, Le-trans, Leads, least-one, least-Leads}
use aurhub.Merge.Inputs.Streams.{At, next_shadow-At, next_active-At, next_changed-At}
use aurhub.Merge.Inputs.Order.Lists.{
  Ascends, Rises, Ascends-snoc, Rises-snoc, Rises-up, AreAscending, AreRising, Ascends-all,
  Rises-all,
}

abbrev pub AtLeast : Bytes → Option MergeCandidate → Type 0
AtLeast n front = (d : MergeCandidate) → front ≡ some d → Le n d.name

-- The names of a stream rise.
abbrev pub IsRising : (ℕ → Bytes) → ℕ → Type 0
IsRising name count = (i j : ℕ) → i < j → j < count → Le (name i) (name j)

At-AtLeast :
    (name : ℕ → Bytes) (count : ℕ) (source : MergeSource) (index : ℕ) (stream : Stream) (n : Bytes)
    → IsRising name count
    → n ≡ name index
    → At name count source (index + 1) stream
    → AtLeast n stream.front
At-AtLeast name count source index stream n rising e at d h =
    let (_, below, _, named) = at.front d h in
    rw (e, named) (rising index stream.index (omega (arith, at.later)) below)

located_input-name :
    (c : MergeCandidate) (location : GenerationLocation)
    (described : Result MergeError GenerationPackageDetails)
    (details more : List GenerationPackageDetails) (input : GenerationPackageInput)
    → located_input c location described details ≡ ok (input, more)
    → input.name ≡ c.name
unfolding located_input
located_input-name c location described details more input h =
    elim (Bool-cases (stands_in_base location)) [
      | inl e ↦
          let h' = rw e at h in
          ap (λ (x : GenerationPackageInput × List GenerationPackageDetails). x.0.name)
            (sym (ok-injective h'))
      | inr e ↦
          let h' = rw e at h in
          let (d, h1, _) = bind_ok described h' in
          let ((index, longer), h2, _) = bind_ok (add_details d details) h1 in
          ap (λ (x : GenerationPackageInput × List GenerationPackageDetails). x.0.name)
            (sym (ok-injective h2))
    ]

module _ (previous : GenerationView) (names : PackageNameTable) (old_to_new : List ℕ)
    (changed_packages : List CompiledPackage) where
  abbrev pub changed_name : ℕ → Bytes
  changed_name i = (get_or changed_packages i no_package).name

  pub make_input-name :
      (source : MergeSource) (c : MergeCandidate) (details more : List GenerationPackageDetails)
      (input : GenerationPackageInput)
      → c.source ≡ source
      → (c.source ≡ MergeSource.changed → c.name ≡ changed_name c.index)
      → make_input previous names old_to_new changed_packages c details ≡ ok (input, more)
      → input.name ≡ c.name
  unfolding make_input package_view
  make_input-name MergeSource.previous_shadow c details more input e own h =
      let h' = rw e at h in
      let (location, h1, _) = bind_ok (lifted (View.shadow_location previous c.index)) h' in
      located_input-name c location _ details more input h1
  make_input-name MergeSource.previous_active c details more input e own h =
      let h' = rw e at h in
      let (location, h1, _) = bind_ok (lifted (View.location previous c.index)) h' in
      located_input-name c location _ details more input h1
  make_input-name MergeSource.changed c details more input e own h =
      let h' = rw e at h in
      let p = get_or changed_packages c.index no_package in
      let ((index, longer), h1, _) =
        bind_ok
          (add_details (record { search = p.search; json = p.json; updated_at = p.updated_at })
            details)
          h' in
      ap (λ (x : GenerationPackageInput × List GenerationPackageDetails). x.0.name)
        (sym (ok-injective h1))
      ∙ sym (own e)

  module _ (shadow_name : ℕ → Bytes)
      (shadows_named : (i : ℕ)
        → i < View.shadow_package_count previous
        → View.shadow_name previous i ≡ ok (shadow_name i))
      (shadows_rise : IsRising shadow_name (View.shadow_package_count previous))
      (actives_rise : IsRising (table_name names) (View.package_count previous))
      (changed_rise : IsRising changed_name (length changed_packages)) where
    -- The streams stand at packages of their arrays.
    pub record Streams (s : Merging) : Type 0 where
      pub shadow_at :
          At shadow_name (View.shadow_package_count previous) MergeSource.previous_shadow 0 s.shadow
      pub active_at :
          At (table_name names) (View.package_count previous) MergeSource.previous_active 0 s.active
      pub changed_at : At changed_name (length changed_packages) MergeSource.changed 0 s.changed

    -- No candidate is below a name.
    abbrev pub Above : Bytes → Merging → Type 0
    Above n s = AtLeast n s.shadow.front × AtLeast n s.active.front × AtLeast n s.changed.front

    -- how many packages the streams have still to pass
    abbrev pub remaining : Merging → ℕ
    remaining s =
        (View.shadow_package_count previous - s.shadow.index)
        + (View.package_count previous - s.active.index)
        + (length changed_packages - s.changed.index)

    -- `consume` leaves the lists, and no candidate is below the one consumed.
    pub record Consumed (n : Bytes) (s next : Merging) : Type 0 where
      pub streams : Streams next
      pub above : Above n next
      pub packages_are : next.packages ≡ s.packages
      pub shadows_are : next.shadow_packages ≡ s.shadow_packages
      pub winner_is : next.winner ≡ s.winner
      pub fewer : remaining next < remaining s

    pub consume-Consumed :
        (c : MergeCandidate) (s next : Merging)
        → Streams s
        → Above c.name s
        → (s.shadow.front ≡ some c) ⊎ (s.active.front ≡ some c) ⊎ (s.changed.front ≡ some c)
        → consume previous names old_to_new changed_packages c.source s ≡ ok next
        → Consumed c.name s next
    unfolding consume shadow_from active_from
    consume-Consumed c s next at (f, a, n) (inl e) h =
        let (source, below, _, named) = at.shadow_at.front c e in
        let h' = rw source at h in
        let (stream, h1, moved) =
          bind_ok (shadow_from previous names old_to_new changed_packages (s.shadow.index + 1))
            h' in
        let new =
          next_shadow-At previous old_to_new shadow_name shadows_named
            (View.shadow_package_count previous - (s.shadow.index + 1)) (s.shadow.index + 1) stream
            (omega arith) moved in
        subst (Consumed c.name s) (ok-injective h1) (record {
          streams = record {
            shadow_at = record { later = omega arith; front = new.front };
            active_at = at.active_at;
            changed_at = at.changed_at;
          };
          above = (
            At-AtLeast shadow_name _ _ s.shadow.index stream c.name shadows_rise named new,
            a,
            n,
          );
          packages_are = refl;
          shadows_are = refl;
          winner_is = refl;
          fewer = omega (arith, new.later);
        })
    consume-Consumed c s next at (f, a, n) (inr (inl e)) h =
        let (source, below, _, named) = at.active_at.front c e in
        let h' = rw source at h in
        let new =
          next_active-At previous old_to_new names
            (View.package_count previous - (s.active.index + 1)) (s.active.index + 1)
            (omega arith) in
        subst (Consumed c.name s) (ok-injective h') (record {
          streams = record {
            shadow_at = at.shadow_at;
            active_at = record { later = omega arith; front = new.front };
            changed_at = at.changed_at;
          };
          above = (
            f,
            At-AtLeast (table_name names) _ _ s.active.index _ c.name actives_rise named new,
            n,
          );
          packages_are = refl;
          shadows_are = refl;
          winner_is = refl;
          fewer = omega (arith, new.later);
        })
    consume-Consumed c s next at (f, a, n) (inr (inr e)) h =
        let (source, below, _, named) = at.changed_at.front c e in
        let h' = rw source at h in
        let new = next_changed-At changed_packages (s.changed.index + 1) (omega arith) in
        subst (Consumed c.name s) (ok-injective h') (record {
          streams = record {
            shadow_at = at.shadow_at;
            active_at = at.active_at;
            changed_at = record { later = omega arith; front = new.front };
          };
          above =
              (f, a, At-AtLeast changed_name _ _ s.changed.index _ c.name changed_rise named new);
          packages_are = refl;
          shadows_are = refl;
          winner_is = refl;
          fewer = omega (arith, new.later);
        })
