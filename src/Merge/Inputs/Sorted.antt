-- ===== src/Merge/Inputs/Sorted.antt =====
-- The order of what `merge_generation_inputs` of src/merge.cpp returns.
use aurhub.Base.{
  ℕ, zero, suc, ◌<◌, ◌≡◌, refl, subst, true, List, [], Option, none, some, length, inl, inr, ◌⊎◌,
  Bool-cases, arith, Option-cases,
}
use aurhub.Base.Result.{ok, bind_ok, ok-injective}
use aurhub.Bytes.{Bytes, bytes_eq, bytes_lt}
use aurhub.Bytes.Laws.{bytes_eq_sound, bytes_eq_refl, bytes_lt_connex}
use aurhub.Model.{CompiledPackage}
use aurhub.Generation.Format.{GenerationView, GenerationPackageInput}
use aurhub.Generation.View
use aurhub.Merge.Names.{PackageNameTable, table_name}
use aurhub.Merge.Candidate.{MergeSource, MergeCandidate, least}
use aurhub.Merge.Inputs.{Merging, make_input, consume, settle, merge_step, merge_loop, finish_merge}
use aurhub.Merge.Inputs.Least.{Le, least-one, least-Leads}
use aurhub.Merge.Inputs.Order.{
  AtLeast, IsRising, changed_name, make_input-name, Streams, remaining, consume-Consumed,
}
use aurhub.Merge.Inputs.Order.Lists.{
  Ascends, Rises, Ascends-snoc, Rises-snoc, Rises-up, AreAscending, AreRising, Ascends-all,
  Rises-all,
}

-- What has been put away lies below the package that leads, if there is one.
abbrev Led :
    Option GenerationPackageInput
    → List GenerationPackageInput
    → List GenerationPackageInput
    → Type 0
Led none packages shadows = (packages ≡ []) × (shadows ≡ [])
Led (some w) packages shadows = Ascends packages w.name × Rises shadows w.name

abbrev NotAbove : Option GenerationPackageInput → Bytes → Type 0
NotAbove none n = Unit
NotAbove (some w) n = Le w.name n

module _ (previous : GenerationView) (names : PackageNameTable) (old_to_new : List ℕ)
    (changed_packages : List CompiledPackage) where
  settle-Led :
      (input : GenerationPackageInput) (s : Merging) (winner : Option GenerationPackageInput)
      → s.winner ≡ winner
      → Led winner s.packages s.shadow_packages
      → NotAbove winner input.name
      → let t = settle previous names old_to_new changed_packages input s in
        (t.winner ≡ some input) × Led (some input) t.packages t.shadow_packages
  unfolding settle
  settle-Led input s none e (p, q) h = rw (e, p, q) (refl, (tt, tt))
  settle-Led input s (some w) e (ascends, rises) h =
      elim (Bool-cases (bytes_eq w.name input.name)) [
        | inl y ↦
            let same = bytes_eq_sound w.name input.name y in
            let ascends' = rw same at ascends in
            rw (e, y) (refl, (ascends', Rises-snoc s.shadow_packages w input.name rises h))
        | inr n ↦
            let less : bytes_lt w.name input.name ≡ true =
              elim (Bool-cases (bytes_lt w.name input.name)) [
                | inl l ↦ l
                | inr m ↦
                    let same : w.name ≡ input.name = bytes_lt_connex w.name input.name m h in
                    let n' = rw same at n in let equal = bytes_eq_refl input.name in cc
              ] in
            rw (e, n)
              (
                refl,
                (
                  Ascends-snoc s.packages w input.name ascends less,
                  Rises-up s.shadow_packages w.name input.name rises h,
                ),
              )
      ]

  settle-streams :
      (input : GenerationPackageInput) (s : Merging)
      → let t = settle previous names old_to_new changed_packages input s in
        (t.shadow ≡ s.shadow) × (t.active ≡ s.active) × (t.changed ≡ s.changed)
  unfolding settle
  settle-streams input s = elim (Option-cases s.winner) [
    | inl e ↦ rw e (refl, refl, refl)
    | inr (w, e) ↦ elim (Bool-cases (bytes_eq w.name input.name)) [
      | inl y ↦ rw (e, y) (refl, refl, refl)
      | inr n ↦ rw (e, n) (refl, refl, refl)
    ]
  ]

  module _ (shadow_name : ℕ → Bytes)
      (shadows_named : (i : ℕ)
        → i < View.shadow_package_count previous
        → View.shadow_name previous i ≡ ok (shadow_name i))
      (shadows_rise : IsRising shadow_name (View.shadow_package_count previous))
      (actives_rise : IsRising (table_name names) (View.package_count previous))
      (changed_rise : IsRising
        (changed_name previous names old_to_new changed_packages)
        (length changed_packages)) where
    abbrev StandsInArrays : Merging → Type 0
    StandsInArrays =
        Streams previous names old_to_new changed_packages shadow_name shadows_named shadows_rise
          actives_rise changed_rise

    abbrev Follow : Bytes → Merging → Type 0
    Follow n s = AtLeast n s.shadow.front × AtLeast n s.active.front × AtLeast n s.changed.front

    abbrev FollowWinner : Option GenerationPackageInput → Merging → Type 0
    FollowWinner none s = Unit
    FollowWinner (some w) s = Follow w.name s

    pub record Sorted (s : Merging) : Type 0 where
      pub streams : StandsInArrays s
      pub led : Led s.winner s.packages s.shadow_packages
      pub follow : FollowWinner s.winner s

    -- the winner so far is not above the least candidate
    follow-least :
        (c : MergeCandidate) (s : Merging) (winner : Option GenerationPackageInput)
        → FollowWinner winner s
        → (s.shadow.front ≡ some c) ⊎ (s.active.front ≡ some c) ⊎ (s.changed.front ≡ some c)
        → NotAbove winner c.name
    follow-least c s none f one = tt
    follow-least c s (some w) (f, a, n) (inl e) = f c e
    follow-least c s (some w) (f, a, n) (inr (inl e)) = a c e
    follow-least c s (some w) (f, a, n) (inr (inr e)) = n c e

    candidate_name :
        (c : MergeCandidate) (s : Merging)
        → StandsInArrays s
        → (s.shadow.front ≡ some c) ⊎ (s.active.front ≡ some c) ⊎ (s.changed.front ≡ some c)
        → (source : MergeSource) × (c.source ≡ source)
          × (c.source ≡ MergeSource.changed
              → c.name ≡ changed_name previous names old_to_new changed_packages c.index)
    candidate_name c s at (inl e) =
        let (source, _, _, _) = at.shadow_at.front c e in
        (MergeSource.previous_shadow, source, λ h. cc)
    candidate_name c s at (inr (inl e)) =
        let (source, _, _, _) = at.active_at.front c e in
        (MergeSource.previous_active, source, λ h. cc)
    candidate_name c s at (inr (inr e)) =
        let (source, _, place, named) = at.changed_at.front c e in
        (MergeSource.changed, source, λ h. rw place named)

    -- the state after a package has been settled
    settled :
        (input : GenerationPackageInput) (next : Merging) (winner : Option GenerationPackageInput)
        → StandsInArrays next
        → Follow input.name next
        → next.winner ≡ winner
        → Led winner next.packages next.shadow_packages
        → NotAbove winner input.name
        → Sorted (settle previous names old_to_new changed_packages input next)
    settled input next winner at follow e led above =
        let (won, after) = settle-Led input next winner e led above in
        let (p, q, r) = settle-streams input next in
        record {
          streams = record {
            shadow_at = rw p at.shadow_at;
            active_at = rw q at.active_at;
            changed_at = rw r at.changed_at;
          };
          led = rw won after;
          follow = rw (won, p, q, r) follow;
        }

    abbrev left_over : Merging → ℕ
    left_over =
        remaining previous names old_to_new changed_packages shadow_name shadows_named shadows_rise
          actives_rise changed_rise

    merge_step-Sorted :
        (c : MergeCandidate) (s t : Merging)
        → Sorted s
        → least s.shadow.front s.active.front s.changed.front ≡ some c
        → merge_step previous names old_to_new changed_packages c s ≡ ok t
        → Sorted t × (left_over t < left_over s)
    unfolding merge_step
    merge_step-Sorted c s t sorted chosen h =
        let one = least-one c s.shadow.front s.active.front s.changed.front chosen in
        let ((input, details), h1, made) =
          bind_ok (make_input previous names old_to_new changed_packages c s.package_details) h in
        let start : Merging = record s { package_details = details } in
        let (next, h2, consumed) =
          bind_ok (consume previous names old_to_new changed_packages c.source start) h1 in
        let at = sorted.streams in
        let (source, source_is, own) = candidate_name c s at one in
        let named : input.name ≡ c.name =
          make_input-name previous names old_to_new changed_packages source c s.package_details
            details input source_is own made in
        let cons =
          consume-Consumed previous names old_to_new changed_packages shadow_name shadows_named
            shadows_rise actives_rise changed_rise c start next
            (record {
              shadow_at = at.shadow_at;
              active_at = at.active_at;
              changed_at = at.changed_at;
            })
            (least-Leads c s.shadow.front s.active.front s.changed.front chosen) one consumed in
        let led : Led s.winner next.packages next.shadow_packages =
          rw (cons.packages_are, cons.shadows_are) sorted.led in
        let above : NotAbove s.winner input.name =
          rw named (follow-least c s s.winner sorted.follow one) in
        let (p, q, r) = settle-streams input next in
        subst (λ u. Sorted u × (left_over u < left_over s)) (ok-injective h2)
          (
            settled input next s.winner cons.streams (rw named cons.above) cons.winner_is led above,
            rw (p, q, r) cons.fewer,
          )

    -- Enough fuel ends all streams.
    pub merge_loop-Sorted :
        (fuel : ℕ) (s t : Merging)
        → Sorted s
        → merge_loop previous names old_to_new changed_packages fuel s ≡ ok t
        → Sorted t
          × (left_over s < fuel → least t.shadow.front t.active.front t.changed.front ≡ none)
    unfolding merge_loop
    merge_loop-Sorted zero s t sorted h =
        (subst Sorted (ok-injective h) sorted, λ l. absurd (omega arith))
    merge_loop-Sorted (suc fuel) s t sorted h =
        elim (Option-cases (least s.shadow.front s.active.front s.changed.front)) [
          | inl e ↦
              let h' = rw (e, merge_loop) at h in
              let same : s ≡ t = ok-injective h' in
              (
                subst Sorted same sorted,
                λ l.
                    subst
                      (λ (u : Merging). least u.shadow.front u.active.front u.changed.front ≡ none)
                      same e,
              )
          | inr (c, e) ↦
              let h' = rw (e, merge_loop) at h in
              let (next, more, stepped) =
                bind_ok (merge_step previous names old_to_new changed_packages c s) h' in
              let (after, fewer) = merge_step-Sorted c s next sorted e stepped in
              let (result, ends) = merge_loop-Sorted fuel next t after more in
              (result, λ l. ends (omega arith))
        ]

    pub finish_merge-AreAscending :
        (s : Merging)
        → Sorted s
        → AreAscending (finish_merge s).packages × AreRising (finish_merge s).shadow_packages
    unfolding finish_merge
    finish_merge-AreAscending s sorted = elim (Option-cases s.winner) [
      | inl e ↦ let led = rw e at sorted.led in rw (e, led.0, led.1) (tt, tt)
      | inr (w, e) ↦
          let led = rw e at sorted.led in
          rw e (Ascends-all s.packages w led.0, Rises-all s.shadow_packages w.name led.1)
    ]
