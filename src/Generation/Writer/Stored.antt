-- ===== src/Generation/Writer/Stored.antt =====
-- What `write_generation_overlay` of src/generation.cpp stores is what the accessors of the view
-- read.
use native.Mathlib.Nat.{mod-eq_of_lt}
use aurhub.Base.{
  ℕ, ◌-◌, ◌%◌, ◌^◌, ◌≤◌, ◌≡◌, refl, sym, ap, subst, ◌∙◌, Bool, true, false, ◌||◌, List, [], ◌∷◌,
  ◌++◌, get_or, get_or-append_left, get_or-append_end, length, length-append, append_assoc, ltb,
  leb, arith, inl, inr, ◌⊎◌, Bool-cases,
}
use aurhub.Base.Result.{ok, bind_ok, >>-eq-ok}
use aurhub.Bytes.{Bytes}
use aurhub.Snapshot.Format.{Slice32, SnapshotView, slice_of}
use aurhub.Snapshot.Writer.Slices.{slice_of-middle}
use aurhub.Generation.Format
use aurhub.Generation.Format.{
  InlinePackageRecord, GenerationPackageRef, Overlay, GenerationPackageInput,
  GenerationPackageDetails, source_value, checked_source, u32_max, no_inline_package,
}
use aurhub.Generation.Ref.{
  inline_package, package_name, package_search, package_json, package_updated_at,
}
use aurhub.Generation.Writer.{
  append_slice, Tables, reusable, no_details, append_inline, append_package, append_packages,
}

-- The slice lies behind the section and reads the value, however much stands behind it.
abbrev Reads : Bytes → Bytes → Slice32 → Type 0
Reads section value slice = (rest : Bytes) → slice_of (section ++ (value ++ rest)) slice ≡ value

append_slice-Reads :
    (blob value : Bytes) (slice : Slice32) (next : Bytes)
    → append_slice blob value ≡ ok (slice, next)
    → (next ≡ blob ++ value) × Reads blob value slice
unfolding append_slice
append_slice-Reads blob value slice next h =
    let test : Bool =
      ltb u32_max (length blob)
      || ltb u32_max (length value)
      || ltb (u32_max - length blob) (length value) in
    let made : Slice32 × Bytes =
      (record { offset = length blob % 2 ^ 32; size = length value % 2 ^ 32 }, blob ++ value) in
    let (small, last) = >>-eq-ok test Format.section_too_large (ok made) h in
    let slice_is : slice ≡ record { offset = length blob % 2 ^ 32; size = length value % 2 ^ 32 } =
      cc in
    let next_is : next ≡ blob ++ value = cc in
    (
      next_is,
      λ rest.
          slice_of-middle slice blob value rest
            (ap (λ (s : Slice32). s.offset) slice_is ∙ mod-eq_of_lt (ground arith))
            (ap (λ (s : Slice32). s.size) slice_is ∙ mod-eq_of_lt (ground arith)),
    )

-- What is added for a package that is not in the base.
record Added (input : GenerationPackageInput) (d : GenerationPackageDetails) (t : Tables)
    (ref : GenerationPackageRef) (next : Tables) : Type 0 where
  name : Slice32
  search : Slice32
  json : Slice32
  name_reads : Reads t.strings input.name name
  search_reads : Reads t.search_texts d.search search
  json_reads : Reads (t.strings ++ input.name) d.json json
  ref_is : ref ≡ record {
    source = 3;
    index = length t.inline_packages % 2 ^ 32;
    branch_index = input.branch_index;
  }
  next_is : next ≡ record t {
    inline_packages =
        t.inline_packages
        ++ record { name = name; search = search; json = json; updated_at = d.updated_at } ∷ [];
    strings = t.strings ++ input.name ++ d.json;
    search_texts = t.search_texts ++ d.search;
  }

append_inline-Added :
    (input : GenerationPackageInput) (d : GenerationPackageDetails) (t : Tables)
    (ref : GenerationPackageRef) (next : Tables)
    → append_inline input d t ≡ ok (ref, next)
    → Added input d t ref next
unfolding append_inline source_value
append_inline-Added input d t ref next h =
    let ((name, after_name), h1, named) = bind_ok (append_slice t.strings input.name) h in
    let ((search, search_texts), h2, searched) =
      bind_ok (append_slice t.search_texts d.search) h1 in
    let ((json, strings), last, jsoned) = bind_ok (append_slice after_name d.json) h2 in
    let (name_is, name_reads) = append_slice-Reads t.strings input.name name after_name named in
    let (search_is, search_reads) =
      append_slice-Reads t.search_texts d.search search search_texts searched in
    let (json_is, json_reads) = append_slice-Reads after_name d.json json strings jsoned in
    record {
      name = name;
      search = search;
      json = json;
      name_reads = name_reads;
      search_reads = search_reads;
      json_reads = subst (λ b. Reads b d.json json) name_is json_reads;
      ref_is = cc;
      next_is = cc;
    }

-- The file holds the tables, and what was put behind them.
pub record Within (t : Tables) (o : Overlay) : Type 0 where
  pub more_strings : Bytes
  pub strings_are : o.strings ≡ t.strings ++ more_strings
  pub more_search_texts : Bytes
  pub search_texts_are : o.search_texts ≡ t.search_texts ++ more_search_texts
  pub more_packages : List InlinePackageRecord
  pub packages_are : o.inline_packages ≡ t.inline_packages ++ more_packages

module _ (base : SnapshotView) (details : List GenerationPackageDetails) (o : Overlay) where
  abbrev details_of : GenerationPackageInput → GenerationPackageDetails
  details_of input = get_or details input.details_index no_details

  -- A package of the base keeps its place, and of another one the accessors read what was given.
  abbrev pub IsStored : GenerationPackageRef → GenerationPackageInput → Type 0
  IsStored ref input =
      (ref.branch_index ≡ input.branch_index)
      × ((reusable base input.location ≡ true)
            × (ref.source ≡ source_value input.location.source)
            × (ref.index ≡ input.location.index)
          ⊎ (reusable base input.location ≡ false)
            × (package_name base o ref ≡ ok input.name)
            × (package_search base o ref ≡ ok (details_of input).search)
            × (package_json base o ref ≡ ok (details_of input).json)
            × (package_updated_at base o ref ≡ ok (details_of input).updated_at))

  abbrev pub AreStored : List GenerationPackageRef → List GenerationPackageInput → Type 0
  AreStored [] [] = Unit
  AreStored (ref ∷ refs) (input ∷ inputs) = IsStored ref input × AreStored refs inputs
  AreStored refs inputs = ⊥

  module _ (few : length o.inline_packages ≤ u32_max) where
    module _ (input : GenerationPackageInput) (t : Tables) (ref : GenerationPackageRef)
        (next : Tables) (added : Added input (details_of input) t ref next)
        (within' : Within next o) where
      abbrev d : GenerationPackageDetails
      d = details_of input

      abbrev r : InlinePackageRecord
      r = record {
        name = added.name;
        search = added.search;
        json = added.json;
        updated_at = d.updated_at;
      }

      abbrev within :
          Within
            (record t {
              inline_packages = t.inline_packages ++ r ∷ [];
              strings = t.strings ++ input.name ++ d.json;
              search_texts = t.search_texts ++ d.search;
            })
            o
      within = subst (λ n. Within n o) added.next_is within'

      before_strings : o.strings ≡ t.strings ++ (input.name ++ (d.json ++ within.more_strings))
      before_strings =
          within.strings_are
          ∙ append_assoc (t.strings ++ input.name) d.json within.more_strings
          ∙ append_assoc t.strings input.name (d.json ++ within.more_strings)

      before_json : o.strings ≡ (t.strings ++ input.name) ++ (d.json ++ within.more_strings)
      before_json =
          within.strings_are ∙ append_assoc (t.strings ++ input.name) d.json within.more_strings

      before_search : o.search_texts ≡ t.search_texts ++ (d.search ++ within.more_search_texts)
      before_search =
          within.search_texts_are ∙ append_assoc t.search_texts d.search within.more_search_texts

      before_packages : o.inline_packages ≡ t.inline_packages ++ (r ∷ within.more_packages)
      before_packages =
          within.packages_are ∙ append_assoc t.inline_packages (r ∷ []) within.more_packages

      tables_Within : Within t o
      tables_Within = record {
        more_strings = input.name ++ (d.json ++ within.more_strings);
        strings_are = before_strings;
        more_search_texts = d.search ++ within.more_search_texts;
        search_texts_are = before_search;
        more_packages = r ∷ within.more_packages;
        packages_are = before_packages;
      }

      whole : length t.inline_packages % 2 ^ 32 ≡ length t.inline_packages
      whole =
          let size =
            ap length before_packages
            ∙ length-append t.inline_packages (r ∷ within.more_packages) in
          mod-eq_of_lt (omega arith)

      record_at : inline_package o (length t.inline_packages) ≡ r
      unfolding inline_package
      record_at = rw within.packages_are (
          get_or-append_left (t.inline_packages ++ r ∷ []) within.more_packages
            (length t.inline_packages) no_inline_package
            (omega (arith, length-append t.inline_packages (r ∷ [])))
          ∙ get_or-append_end t.inline_packages r no_inline_package)

      ref_at : ref ≡ record {
        source = 3;
        index = length t.inline_packages;
        branch_index = input.branch_index;
      }
      ref_at = rw whole at added.ref_is

      ref_at-IsStored :
          reusable base input.location ≡ false
          → IsStored
              (record {
                source = 3;
                index = length t.inline_packages;
                branch_index = input.branch_index;
              })
              input
      unfolding package_name package_search package_json package_updated_at checked_source
      ref_at-IsStored other = rw record_at (
        refl,
        inr (
          other,
          ap ok (rw before_strings (added.name_reads _)),
          ap ok (rw before_search (added.search_reads _)),
          ap ok (rw before_json (added.json_reads _)),
          refl,
        ),
      )

      Added-IsStored : reusable base input.location ≡ false → IsStored ref input
      Added-IsStored other = subst (λ x. IsStored x input) (sym ref_at) (ref_at-IsStored other)

    append_package-IsStored :
        (branch_count : ℕ) (input : GenerationPackageInput) (t : Tables)
        (ref : GenerationPackageRef) (next : Tables)
        → append_package base branch_count details input t ≡ ok (ref, next)
        → Within next o
        → Within t o × IsStored ref input
    unfolding append_package
    append_package-IsStored branch_count input t ref next h within =
        let (_, h1) = >>-eq-ok (leb branch_count input.branch_index) Format.invalid_branch _ h in
        elim (Bool-cases (reusable base input.location)) [
          | inl e ↦
              let h2 = rw e at h1 in
              let ref_is : ref ≡ record {
                source = source_value input.location.source;
                index = input.location.index;
                branch_index = input.branch_index;
              } =
                cc in
              let same : next ≡ t = cc in
              (
                subst (λ n. Within n o) same within,
                subst (λ x. IsStored x input) (sym ref_is) (refl, inl (e, refl, refl)),
              )
          | inr e ↦
              let h2 = rw e at h1 in
              let (_, h3) =
                >>-eq-ok (leb (length details) input.details_index) Format.lacks_details
                  (append_inline input (details_of input) t) h2 in
              let added = append_inline-Added input (details_of input) t ref next h3 in
              (
                tables_Within input t ref next added within,
                Added-IsStored input t ref next added within e,
              )
        ]

    pub append_packages-AreStored :
        (branch_count : ℕ) (inputs : List GenerationPackageInput) (t : Tables)
        (refs : List GenerationPackageRef) (last : Tables)
        → append_packages base branch_count details inputs t ≡ ok (refs, last)
        → Within last o
        → Within t o × AreStored refs inputs
    unfolding append_packages
    append_packages-AreStored branch_count [] t refs last h within =
        let none : refs ≡ [] = cc in
        let same : last ≡ t = cc in (subst (λ n. Within n o) same within, rw none tt)
    append_packages-AreStored branch_count (input ∷ inputs) t refs last h within =
        let ((ref, next), h1, first) =
          bind_ok (append_package base branch_count details input t) h in
        let ((others, end), h2, rest) =
          bind_ok (append_packages base branch_count details inputs next) h1 in
        let refs_are : refs ≡ ref ∷ others = cc in
        let same : last ≡ end = cc in
        let (before, stored) =
          append_packages-AreStored branch_count inputs next others end rest
            (subst (λ n. Within n o) same within) in
        let (start, one) = append_package-IsStored branch_count input t ref next first before in
        (start, rw refs_are (one, stored))
