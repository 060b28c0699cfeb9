-- ===== src/Generation/Writer/Written.antt =====
-- An overlay that `write_generation_overlay` of src/generation.cpp returns.
use aurhub.Base.{
  ℕ, suc, ◌≤◌, ◌≡◌, refl, sym, ap, subst, ◌∙◌, not, List, [], ◌∷◌, Option, append-nil, length, ltb,
  ◌==◌,
}
use aurhub.Base.Result.{ok, bind_ok, ok-injective, >>-eq-ok}
use aurhub.Bytes.{Bytes}
use aurhub.Model.{ℤ}
use aurhub.Snapshot.Format.{SnapshotView}
use aurhub.Generation.Format
use aurhub.Generation.Format.{
  GenerationBranchRef, GenerationPackageRef, GenerationHeader, Overlay, GenerationPackageInput,
  GenerationPackageDetails, u32_max,
}
use aurhub.Generation.Check.{byte_size}
use aurhub.Generation.Writer.{
  Tables, no_tables, Counts, counts_of, GenerationInput, finish_overlay, append_branches,
  append_packages, gzip_names, make_header, write_generation_overlay,
}
use aurhub.Generation.Writer.Stored.{Within, AreStored, append_packages-AreStored}

length-AreStored :
    (base : SnapshotView) (details : List GenerationPackageDetails) (o : Overlay)
    (refs : List GenerationPackageRef) (inputs : List GenerationPackageInput)
    → AreStored base details o refs inputs
    → length refs ≡ length inputs
length-AreStored base details o [] [] s = refl
length-AreStored base details o [] (input ∷ inputs) s = absurd s
length-AreStored base details o (ref ∷ refs) [] s = absurd s
length-AreStored base details o (ref ∷ refs) (input ∷ inputs) (one, s) =
    ap suc (length-AreStored base details o refs inputs s)

make_header-package_count :
    (base : SnapshotView) (base_size : ℕ) (now : ℤ) (n : Counts) (t : Tables) (gz : Bytes)
    (h : GenerationHeader)
    → make_header base base_size now n t gz ≡ ok h
    → (h.package_count ≡ n.packages) × (h.shadow_package_count ≡ n.shadow_packages)
unfolding make_header
make_header-package_count base base_size now n t gz h e =
    let (_, h1, _) = bind_ok (byte_size 8 n.branches) e in
    let (_, h2, _) = bind_ok (byte_size 16 n.packages) h1 in
    let (_, h3, _) = bind_ok (byte_size 16 n.shadow_packages) h2 in
    let (_, h4, _) = bind_ok (byte_size 40 (length t.inline_branches)) h3 in
    let (_, h5, _) = bind_ok (byte_size 32 (length t.inline_packages)) h4 in
    let same = ok-injective h5 in
    (
      sym (ap (λ (x : GenerationHeader). x.package_count) same),
      sym (ap (λ (x : GenerationHeader). x.shadow_package_count) same),
    )

-- What the file holds of the tables.
record Holds (input : GenerationInput) (package_refs shadow_refs : List GenerationPackageRef)
    (t : Tables) (o : Overlay) : Type 0 where
  packages_are : package_refs ≡ o.package_refs
  shadows_are : shadow_refs ≡ o.shadow_package_refs
  within : Within t o
  package_count : o.header.package_count ≡ length input.packages
  shadow_count : o.header.shadow_package_count ≡ length input.shadow_packages

finish_overlay-Holds :
    (gzip : Bytes → Option Bytes) (now : ℤ) (base : SnapshotView) (base_size : ℕ)
    (input : GenerationInput) (branch_refs : List GenerationBranchRef)
    (package_refs shadow_refs : List GenerationPackageRef) (t : Tables) (o : Overlay)
    → finish_overlay gzip now base base_size input branch_refs package_refs shadow_refs t ≡ ok o
    → Holds input package_refs shadow_refs t o
unfolding finish_overlay
finish_overlay-Holds gzip now base base_size input branch_refs package_refs shadow_refs t o h =
    let (gz, h1, _) = bind_ok (gzip_names gzip input.packages) h in
    let (header, last, headed) =
      bind_ok (make_header base base_size now (counts_of input) t gz) h1 in
    let made = ok-injective last in
    let header_is : header ≡ o.header = ap (λ (x : Overlay). x.header) made in
    let counts =
      make_header-package_count base base_size now (counts_of input) t gz header headed in
    record {
      packages_are = ap (λ (x : Overlay). x.package_refs) made;
      shadows_are = ap (λ (x : Overlay). x.shadow_package_refs) made;
      within = subst (Within t) made (record {
        more_strings = [];
        strings_are = sym (append-nil t.strings);
        more_search_texts = [];
        search_texts_are = sym (append-nil t.search_texts);
        more_packages = [];
        packages_are = sym (append-nil t.inline_packages);
      });
      package_count = sym (ap (λ (x : GenerationHeader). x.package_count) header_is) ∙ counts.0;
      shadow_count =
          sym (ap (λ (x : GenerationHeader). x.shadow_package_count) header_is) ∙ counts.1;
    }

-- When `write_generation_overlay` returns a file with at most 2 ^ 32 - 1 records of its own, the
-- file has as many package references as its header counts, and every reference stands for its
-- input: a package that the base still has keeps its place there, and of every other one the
-- accessors of the view read the name, the search text, the JSON and the time that were given; the
-- branch is the one that was given.
pub write_generation_overlay-AreStored :
    (gzip : Bytes → Option Bytes) (now : ℤ) (base : SnapshotView) (base_size : ℕ)
    (input : GenerationInput) (o : Overlay)
    → write_generation_overlay gzip now base base_size input ≡ ok o
    → length o.inline_packages ≤ u32_max
    → (length o.package_refs ≡ o.header.package_count)
      × (length o.shadow_package_refs ≡ o.header.shadow_package_count)
      × AreStored base input.package_details o o.package_refs input.packages
      × AreStored base input.package_details o o.shadow_package_refs input.shadow_packages
unfolding write_generation_overlay
write_generation_overlay-AreStored gzip now base base_size input o h few =
    let details = input.package_details in
    let count = length input.branches in
    let (_, h1) =
      >>-eq-ok (not (length input.branches == length input.branch_locations))
        Format.branch_locations_differ _ h in
    let (_, h2) = >>-eq-ok (ltb u32_max (length input.branches)) Format.too_many_branches _ h1 in
    let ((branch_refs, t1), h3, _) =
      bind_ok (append_branches base input.branches input.branch_locations no_tables) h2 in
    let ((package_refs, t2), h4, packed) =
      bind_ok (append_packages base count details input.packages t1) h3 in
    let ((shadow_refs, t3), h5, shadowed) =
      bind_ok (append_packages base count details input.shadow_packages t2) h4 in
    let holds =
      finish_overlay-Holds gzip now base base_size input branch_refs package_refs shadow_refs t3 o
        h5 in
    let (middle, shadows) =
      append_packages-AreStored base details o few count input.shadow_packages t2 shadow_refs t3
        shadowed holds.within in
    let (_, packages) =
      append_packages-AreStored base details o few count input.packages t1 package_refs t2 packed
        middle in
    let stored =
      subst (λ r. AreStored base details o r input.packages) holds.packages_are packages in
    let shadows_stored =
      subst (λ r. AreStored base details o r input.shadow_packages) holds.shadows_are shadows in
    (
      length-AreStored base details o o.package_refs input.packages stored
          ∙ sym holds.package_count,
      length-AreStored base details o o.shadow_package_refs input.shadow_packages shadows_stored
          ∙ sym holds.shadow_count,
      stored,
      shadows_stored,
    )
