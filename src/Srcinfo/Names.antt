-- ===== src/Srcinfo/Names.antt =====
-- The names in the result of `parse_srcinfo` in src/srcinfo.cpp, and when it has packages.
pub mod Loop
use aurhub.Base.{
  ℕ, ◌≡◌, ◌≢◌, ◌<◌, refl, sym, ap, subst, ◌∙◌, Bool, true, false, not, List, [], ◌∷◌, arith, inl,
  inr, Bool-cases, if◌then◌else◌, length, ◌==◌, map, length-map, length-reverse,
}
use mathlib.Core.Logic.Or
use mathlib.Core.HLevel.{⊥_prop}
use mathlib.Core.List.{
  reverse, reverse_aux, Pairwise, Nodup, Mem, not-mem-nil, eq-or-mem_of_mem-cons, mem-reverse,
  exists_of_mem-map,
}
use mathlib.Mathlib.Data.List.Nodup.{Nodup-reverse}
use aurhub.Bytes.{Bytes, bytes_eq}
use aurhub.Bytes.Laws.{bytes_eq_refl}
use aurhub.Model.{Package}
use aurhub.Srcinfo.Fields.{Fields, has_fatal}
use aurhub.Srcinfo.Parse.{PackageBlock, Parser, initial, is_member, on_lines}
use aurhub.Srcinfo.Output.{check_all, make_package, finish, parse_srcinfo}
use aurhub.Srcinfo.Fatal.{check_all-Keeps}
use aurhub.Srcinfo.Names.Loop.{AreNames, IsNamed, Good, Good-initial, on_lines-Good}
use aurhub.Srcinfo.Text.{split_lines}

not_member : (x y : Bytes) (xs : List Bytes) → is_member x xs ≡ false → Mem y xs → x ≢ y
unfolding is_member
not_member x y [] h m e = absurd (not-mem-nil m)
not_member x y (z ∷ xs) h m e =
    Or.elim ⊥_prop (eq-or-mem_of_mem-cons m)
      (λ same. ground (arith, bytes_eq_refl x, ap (λ t. bytes_eq t x) (e ∙ same)))
      (λ later. not_member x y xs (ground arith) later e)

AreNames-Nodup : (xs : List Bytes) → AreNames xs → Nodup xs
AreNames-Nodup [] h = Pairwise.nil
AreNames-Nodup (x ∷ xs) (_, fresh, rest) =
    Pairwise.cons (λ y m. not_member x y xs fresh m) (AreNames-Nodup xs rest)

AreNames-full : (xs : List Bytes) → AreNames xs → (name : Bytes) → Mem name xs → name ≢ []
AreNames-full [] h name m e = absurd (not-mem-nil m)
AreNames-full (x ∷ xs) (full, _, rest) name m e =
    Or.elim ⊥_prop (eq-or-mem_of_mem-cons m) (λ same. full (sym same ∙ e))
      (λ later. AreNames-full xs rest name later e)

-- the names of the packages are those of the blocks
names-reverse :
    (base_name : Bytes) (base : Fields) (blocks : List PackageBlock)
    → map (λ (q : Package). q.name) (map (make_package base_name base) (reverse blocks))
      ≡ reverse (map (λ (b : PackageBlock). b.name) blocks)
unfolding make_package
names-reverse base_name base blocks = go blocks []
  where
    go :
        (xs ys : List PackageBlock)
        → map (λ (q : Package). q.name) (map (make_package base_name base) (reverse_aux xs ys))
          ≡ reverse_aux
              (map (λ (b : PackageBlock). b.name) xs)
              (map (λ (q : Package). q.name) (map (make_package base_name base) ys))
    go [] ys = refl
    go (x ∷ xs) ys = go xs (x ∷ ys)

loop_of : Bytes → Parser
loop_of input = on_lines (split_lines input) initial

loop_of-IsNamed :
    (input : Bytes) → has_fatal (check_all (loop_of input)) ≡ false → IsNamed (loop_of input)
unfolding loop_of
loop_of-IsNamed input h =
    on_lines-Good (split_lines input) initial Good-initial (check_all-Keeps (loop_of input) h).0

-- No two packages of a result of `parse_srcinfo` have the same name.
pub parse_srcinfo-Nodup :
    (input : Bytes) → Nodup (map (λ (q : Package). q.name) (parse_srcinfo input).packages)
unfolding parse_srcinfo finish loop_of
parse_srcinfo-Nodup input = elim (Bool-cases (has_fatal (check_all (loop_of input)))) [
  | inl e ↦ rw e Pairwise.nil
  | inr e ↦
      let p = loop_of input in
      let named = loop_of-IsNamed input e in
      rw (e, names-reverse p.base_name p.base_fields p.blocks, named.names_of)
        (Nodup-reverse.1 (AreNames-Nodup p.package_names named.apart))
]

full-reverse : (xs : List Bytes) → AreNames xs → ¬ Mem [] (reverse xs)
full-reverse xs named m = AreNames-full xs named [] (mem-reverse.0 m) refl

-- No package of a result of `parse_srcinfo` has an empty name.
pub parse_srcinfo-names :
    (input : Bytes) → ¬ Mem [] (map (λ (q : Package). q.name) (parse_srcinfo input).packages)
unfolding parse_srcinfo finish loop_of
parse_srcinfo-names input = elim (Bool-cases (has_fatal (check_all (loop_of input)))) [
  | inl e ↦ rw e not-mem-nil
  | inr e ↦
      let p = loop_of input in
      let named = loop_of-IsNamed input e in
      rw (e, names-reverse p.base_name p.base_fields p.blocks, named.names_of)
        (full-reverse p.package_names named.apart)
]

bases_full :
    (base_name : Bytes) (base : Fields) (blocks : List PackageBlock)
    → base_name ≢ []
    → ¬ Mem [] (map (λ (q : Package). q.base) (map (make_package base_name base) blocks))
unfolding make_package
bases_full base_name base [] full m = not-mem-nil m
bases_full base_name base (b ∷ blocks) full m =
    Or.elim ⊥_prop (eq-or-mem_of_mem-cons m) (λ same. full (sym same))
      (λ later. bases_full base_name base blocks full later)

-- No package of a result of `parse_srcinfo` has an empty package base.
pub parse_srcinfo-bases :
    (input : Bytes) → ¬ Mem [] (map (λ (q : Package). q.base) (parse_srcinfo input).packages)
unfolding parse_srcinfo finish loop_of
parse_srcinfo-bases input = elim (Bool-cases (has_fatal (check_all (loop_of input)))) [
  | inl e ↦ rw e not-mem-nil
  | inr e ↦
      let p = loop_of input in
      let (_, some_base, _) = check_all-Keeps p e in
      rw e (
        bases_full p.base_name p.base_fields (reverse p.blocks)
          ((loop_of-IsNamed input e).based some_base))
]

-- A result of `parse_srcinfo` has no package if and only if it has a fatal diagnostic.
pub parse_srcinfo-has_fatal :
    (input : Bytes)
    → has_fatal (parse_srcinfo input).diagnostics ≡ (length (parse_srcinfo input).packages == 0)
unfolding parse_srcinfo finish loop_of
parse_srcinfo-has_fatal input = elim (Bool-cases (has_fatal (check_all (loop_of input)))) [
  | inl e ↦ rw e refl
  | inr e ↦
      let p = loop_of input in
      let (_, _, some_block) = check_all-Keeps p e in
      rw (e, length-map (reverse p.blocks) (make_package p.base_name p.base_fields))
        (ground (arith, length-reverse p.blocks))
]
