-- ===== src/Merge/Inputs/Stable.antt =====
-- The sorted packages of src/merge.cpp.
use aurhub.Base.{
  ℕ, zero, suc, ◌<◌, ◌≡◌, true, false, List, [], ◌∷◌, get_or, length, Bool-cases, inl, inr, arith,
}
use aurhub.Bytes.{Bytes, bytes_eq}
use aurhub.Bytes.Laws.{bytes_eq_sound}
use aurhub.Model.{CompiledPackage}
use aurhub.Merge.Candidate.{changed_less, insert_stable, stable_sort, no_package}
use aurhub.Merge.Inputs.Least.{Le, Le-refl, Le-trans, lt-Le}
use aurhub.Merge.Inputs.Order.{IsRising}

-- No package of the list has a name below.
abbrev NotBelow : Bytes → List CompiledPackage → Type 0
NotBelow n [] = Unit
NotBelow n (p ∷ ps) = Le n p.name × NotBelow n ps

abbrev AreSorted : List CompiledPackage → Type 0
AreSorted [] = Unit
AreSorted (p ∷ ps) = NotBelow p.name ps × AreSorted ps

NotBelow-trans : (a b : Bytes) (ps : List CompiledPackage) → Le a b → NotBelow b ps → NotBelow a ps
NotBelow-trans a b [] h n = tt
NotBelow-trans a b (p ∷ ps) h (l, n) = (Le-trans a b p.name h l, NotBelow-trans a b ps h n)

changed_less-Le :
    (p q : CompiledPackage)
    → (changed_less p q ≡ true → Le p.name q.name) × (changed_less p q ≡ false → Le q.name p.name)
unfolding changed_less
changed_less-Le p q = elim (Bool-cases (bytes_eq p.name q.name)) [
  | inl e ↦
      let same = bytes_eq_sound p.name q.name e in
      (λ h. rw same (Le-refl q.name), λ h. rw same (Le-refl q.name))
  | inr e ↦ (λ h. lt-Le p.name q.name (rw e at h), λ h. rw e at h)
]

insert_stable-NotBelow :
    (n : Bytes) (p : CompiledPackage) (qs : List CompiledPackage)
    → Le n p.name
    → NotBelow n qs
    → NotBelow n (insert_stable p qs)
unfolding insert_stable
insert_stable-NotBelow n p [] h k = (h, tt)
insert_stable-NotBelow n p (q ∷ qs) h (l, k) = elim (Bool-cases (changed_less q p)) [
  | inl e ↦ rw e (l, insert_stable-NotBelow n p qs h k)
  | inr e ↦ rw e (h, (l, k))
]

insert_stable-AreSorted :
    (p : CompiledPackage) (qs : List CompiledPackage)
    → AreSorted qs
    → AreSorted (insert_stable p qs)
unfolding insert_stable
insert_stable-AreSorted p [] s = (tt, tt)
insert_stable-AreSorted p (q ∷ qs) (n, s) = elim (Bool-cases (changed_less q p)) [
  | inl e ↦ rw e (
    insert_stable-NotBelow q.name p qs ((changed_less-Le q p).0 e) n,
    insert_stable-AreSorted p qs s,
  )
  | inr e ↦
      let first = (changed_less-Le q p).1 e in
      rw e ((first, NotBelow-trans p.name q.name qs first n), (n, s))
]

stable_sort-AreSorted : (ps : List CompiledPackage) → AreSorted (stable_sort ps)
unfolding stable_sort
stable_sort-AreSorted [] = tt
stable_sort-AreSorted (p ∷ ps) =
    insert_stable-AreSorted p (stable_sort ps) (stable_sort-AreSorted ps)

NotBelow-get_or :
    (n : Bytes) (ps : List CompiledPackage) (j : ℕ)
    → NotBelow n ps
    → j < length ps
    → Le n (get_or ps j no_package).name
unfolding get_or
NotBelow-get_or n [] j k l = absurd (omega arith)
NotBelow-get_or n (p ∷ ps) zero (h, k) l = h
NotBelow-get_or n (p ∷ ps) (suc j) (h, k) l = NotBelow-get_or n ps j k (omega arith)

AreSorted-IsRising :
    (ps : List CompiledPackage)
    → AreSorted ps
    → IsRising (λ i. (get_or ps i no_package).name) (length ps)
unfolding get_or
AreSorted-IsRising [] s i j l u = absurd (omega arith)
AreSorted-IsRising (p ∷ ps) s i zero l u = absurd (omega arith)
AreSorted-IsRising (p ∷ ps) (n, s) zero (suc j) l u = NotBelow-get_or p.name ps j n (omega arith)
AreSorted-IsRising (p ∷ ps) (n, s) (suc i) (suc j) l u =
    AreSorted-IsRising ps s i j (omega arith) (omega arith)

pub stable_sort-IsRising :
    (ps : List CompiledPackage)
    → IsRising (λ i. (get_or (stable_sort ps) i no_package).name) (length (stable_sort ps))
stable_sort-IsRising ps = AreSorted-IsRising (stable_sort ps) (stable_sort-AreSorted ps)
