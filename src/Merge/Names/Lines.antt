-- ===== src/Merge/Names/Lines.antt =====
-- The table that `decode_package_names` of src/merge.cpp makes of the names that `gzip_names` of
-- src/generation.cpp joins.
use native.Mathlib.Nat.{mod-eq_of_lt}
use aurhub.Base.{
  ℕ, zero, suc, ◌+◌, ◌-◌, ◌%◌, ◌^◌, ◌≤◌, ◌<◌, ◌≡◌, refl, sym, ap, ◌∙◌, List, [], ◌∷◌, ◌++◌,
  append_assoc, Option, none, some, get_or, take, drop, length, length-append, take_full, true,
  false, ltb, ◌==◌, arith, inl, inr, Bool-cases, Option-cases,
}
use aurhub.Base.Result.{ok}
use aurhub.Bytes.{Bytes, find_byte}
use aurhub.Snapshot.Writer.Slices.{drop_prefix}
use aurhub.Generation.Format.{GenerationPackageInput, GenerationSource, u32_max}
use aurhub.Generation.Writer.{input_names}
use aurhub.Merge.Names.{PackageNameTable, table_name, line_starts, decode_package_names}

-- No name has the byte that ends a line.
abbrev pub AreLines : List GenerationPackageInput → Type 0
AreLines [] = Unit
AreLines (p ∷ ps) = (find_byte b'\n' p.name ≡ none) × AreLines ps

abbrev pub no_input : GenerationPackageInput
no_input = record {
  name = [];
  location = record { source = GenerationSource.inline_record; index = 0 };
  branch_index = 0;
  details_index = 0;
}

find_byte-line :
    (name rest : Bytes)
    → find_byte b'\n' name ≡ none
    → find_byte b'\n' (name ++ b'\n' ∷ rest) ≡ some (length name)
unfolding find_byte
find_byte-line [] rest h = refl
find_byte-line (x ∷ name) rest h = elim (Bool-cases (x == b'\n')) [
  | inl e ↦ let h' = rw e at h in cc
  | inr e ↦
      let h' = rw e at h in
      let none_here : find_byte b'\n' name ≡ none = elim (Option-cases (find_byte b'\n' name)) [
        | inl n ↦ n
        | inr (i, f) ↦ let h'' = rw f at h' in cc
      ] in
      rw (e, find_byte-line name rest none_here) refl
]

-- where the lines behind the first one start
abbrev starts_of : ℕ → List GenerationPackageInput → List ℕ
starts_of first [] = []
starts_of first (p ∷ ps) = (first + length p.name + 1) ∷ starts_of (first + length p.name + 1) ps

length-starts_of :
    (first : ℕ) (ps : List GenerationPackageInput) → length (starts_of first ps) ≡ length ps
length-starts_of first [] = refl
length-starts_of first (p ∷ ps) = ap suc (length-starts_of (first + length p.name + 1) ps)

-- the text before the second line
before :
    (pre : Bytes) (p : GenerationPackageInput) (ps : List GenerationPackageInput)
    → pre ++ input_names (p ∷ ps) ≡ (pre ++ (p.name ++ b'\n' ∷ [])) ++ input_names ps
unfolding input_names
before pre p ps =
    ap (λ t. pre ++ t) (sym (append_assoc p.name (b'\n' ∷ []) (input_names ps)))
    ∙ sym (append_assoc pre (p.name ++ b'\n' ∷ []) (input_names ps))

length-before :
    (pre : Bytes) (p : GenerationPackageInput)
    → length (pre ++ (p.name ++ b'\n' ∷ [])) ≡ length pre + length p.name + 1
length-before pre p =
    omega (arith, length-append pre (p.name ++ b'\n' ∷ []), length-append p.name (b'\n' ∷ []))

line_starts-input_names :
    (ps : List GenerationPackageInput) (pre storage : Bytes) (fuel : ℕ)
    → storage ≡ pre ++ input_names ps
    → AreLines ps
    → length storage ≤ u32_max
    → length storage ≤ length pre + fuel
    → line_starts storage fuel (length pre) ≡ ok (starts_of (length pre) ps)
unfolding line_starts input_names
line_starts-input_names [] pre storage zero e lines fits enough = refl
line_starts-input_names [] pre storage (suc fuel) e lines fits enough =
    let size = ap length e ∙ length-append pre [] in
    let done : ltb (length pre) (length storage) ≡ false = ground arith in rw done refl
line_starts-input_names (p ∷ ps) pre storage zero e (line, lines) fits enough =
    let size =
      ap length (e ∙ before pre p ps)
      ∙ length-append (pre ++ (p.name ++ b'\n' ∷ [])) (input_names ps) in
    let prefix = length-before pre p in absurd (omega arith)
line_starts-input_names (p ∷ ps) pre storage (suc fuel) e (line, lines) fits enough =
    let next = pre ++ (p.name ++ b'\n' ∷ []) in
    let size = ap length (e ∙ before pre p ps) ∙ length-append next (input_names ps) in
    let prefix = length-before pre p in
    let more : ltb (length pre) (length storage) ≡ true = ground arith in
    let found : find_byte b'\n' (drop (length pre) storage) ≡ some (length p.name) =
      ap (λ t. find_byte b'\n' (drop (length pre) t)) e
      ∙ ap (find_byte b'\n') (drop_prefix pre (p.name ++ b'\n' ∷ input_names ps))
      ∙ find_byte-line p.name (input_names ps) line in
    let whole : (length pre + length p.name + 1) % 2 ^ 32 ≡ length pre + length p.name + 1 =
      mod-eq_of_lt (omega arith) in
    let rest =
      line_starts-input_names ps next storage fuel (e ∙ before pre p ps) lines fits (omega arith) in
    let rest' = rw prefix at rest in rw (more, found, whole, rest') refl

-- the line at an index, where the table starts with the first line behind `pre`
line_at :
    (ps : List GenerationPackageInput) (pre storage : Bytes) (index : ℕ)
    → storage ≡ pre ++ input_names ps
    → index < length ps
    → let starts = length pre ∷ starts_of (length pre) ps in
      take
        (get_or starts (index + 1) 0 - get_or starts index 0 - 1)
        (drop (get_or starts index 0) storage)
      ≡ (get_or ps index no_input).name
unfolding get_or input_names
line_at [] pre storage index e l = absurd (omega arith)
line_at (p ∷ ps) pre storage zero e l =
    let size : length pre + length p.name + 1 - length pre - 1 ≡ length p.name = omega arith in
    rw (size, e, drop_prefix pre (p.name ++ b'\n' ∷ input_names ps))
      (take_full (length p.name) p.name (b'\n' ∷ input_names ps) refl)
line_at (p ∷ ps) pre storage (suc index) e l =
    let rest =
      line_at ps (pre ++ (p.name ++ b'\n' ∷ [])) storage index (e ∙ before pre p ps)
        (omega arith) in
    let rest' = rw (length-before pre p) at rest in
    let step : suc index + 1 ≡ suc (index + 1) = omega arith in rw step rest'

-- When the inflation gives back the text that `gzip_names` compresses, of at most 2 ^ 32 - 1 bytes
-- and with no newline in a name, `decode_package_names` accepts it for that number of packages,
-- and the table has the name of each package at its index.
pub decode_package_names-input_names :
    (inflate : Bytes → Option Bytes) (gzip : Bytes) (packages : List GenerationPackageInput)
    → inflate gzip ≡ some (input_names packages)
    → AreLines packages
    → length (input_names packages) ≤ u32_max
    → (table : PackageNameTable) × (decode_package_names inflate gzip (length packages) ≡ ok table)
      × ((index : ℕ)
          → index < length packages
          → table_name table index ≡ (get_or packages index no_input).name)
unfolding decode_package_names table_name
decode_package_names-input_names inflate gzip packages inflated lines fits =
    let storage = input_names packages in
    let small : ltb u32_max (length storage) ≡ false = ground arith in
    let run =
      line_starts-input_names packages [] storage (length storage) refl lines fits (omega arith) in
    let same : (length (0 ∷ starts_of 0 packages) == length packages + 1) ≡ true =
      rw (length-starts_of 0 packages) (ground arith) in
    let table : PackageNameTable = record {
      storage = storage;
      starts = 0 ∷ starts_of 0 packages;
    } in
    rw (inflated, small, run, same)
      (table, refl, λ index l. line_at packages [] storage index refl l)
