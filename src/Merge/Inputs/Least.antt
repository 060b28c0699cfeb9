-- ===== src/Merge/Inputs/Least.antt =====
-- The least candidate of src/merge.cpp.
use aurhub.Base.{◌≡◌, refl, subst, true, false, Option, none, some, inl, inr, ◌⊎◌, Bool-cases}
use aurhub.Bytes.{Bytes, bytes_eq, bytes_lt}
use aurhub.Bytes.Laws.{bytes_eq_sound, bytes_lt_irrefl, bytes_lt_trans, bytes_lt_connex}
use aurhub.Merge.Candidate.{MergeCandidate, merge_candidate_less, better, least}

-- The first is not above the second.
abbrev pub Le : Bytes → Bytes → Type 0
Le a b = bytes_lt b a ≡ false

pub Le-refl : (a : Bytes) → Le a a
Le-refl a = bytes_lt_irrefl a

pub Le-lt_trans : (a b c : Bytes) → Le a b → bytes_lt b c ≡ true → bytes_lt a c ≡ true
Le-lt_trans a b c h l = elim (Bool-cases (bytes_lt a b)) [
  | inl e ↦ bytes_lt_trans a b c e l
  | inr e ↦ let same : a ≡ b = bytes_lt_connex a b e h in rw same l
]

pub Le-trans : (a b c : Bytes) → Le a b → Le b c → Le a c
Le-trans a b c h k = elim (Bool-cases (bytes_lt c a)) [
  | inr e ↦ e
  | inl e ↦ let less = Le-lt_trans b c a k e in cc
]

pub lt-Le : (a b : Bytes) → bytes_lt a b ≡ true → Le a b
lt-Le a b h = elim (Bool-cases (bytes_lt b a)) [
  | inr e ↦ e
  | inl e ↦ let loop = bytes_lt_trans a b a h e in let none = bytes_lt_irrefl a in cc
]

-- The order of the candidates goes by the names first.
less-Le :
    (a b : MergeCandidate)
    → (merge_candidate_less a b ≡ true → Le a.name b.name)
      × (merge_candidate_less a b ≡ false → Le b.name a.name)
unfolding merge_candidate_less
less-Le a b = elim (Bool-cases (bytes_eq a.name b.name)) [
  | inl e ↦
      let same = bytes_eq_sound a.name b.name e in
      (λ h. rw same (Le-refl b.name), λ h. rw same (Le-refl b.name))
  | inr e ↦ (λ h. lt-Le a.name b.name (rw e at h), λ h. rw e at h)
]

-- The candidate is one of those looked at, and none of them has a name below its own.
abbrev pub Leads : MergeCandidate → Option MergeCandidate → Type 0
Leads c current = (d : MergeCandidate) → current ≡ some d → Le c.name d.name

Leads-some : (c a : MergeCandidate) → Le c.name a.name → Leads c (some a)
Leads-some c a h d e = let same : a ≡ d = cc in subst (λ x. Le c.name x.name) same h

better-Leads :
    (c : MergeCandidate) (a b : Option MergeCandidate)
    → Leads c (better a b)
    → Leads c a × Leads c b
unfolding better
better-Leads c a none h = (h, λ d e. cc)
better-Leads c none (some b) h = (λ d e. cc, h)
better-Leads c (some a) (some b) h = elim (Bool-cases (merge_candidate_less b a)) [
  | inl e ↦
      let h' = rw e at h in
      let first = h' b refl in
      (
        Leads-some c a (Le-trans c.name b.name a.name first ((less-Le b a).0 e)),
        Leads-some c b first,
      )
  | inr e ↦
      let h' = rw e at h in
      let first = h' a refl in
      (
        Leads-some c a first,
        Leads-some c b (Le-trans c.name a.name b.name first ((less-Le b a).1 e)),
      )
]

better-one :
    (c : MergeCandidate) (a b : Option MergeCandidate)
    → better a b ≡ some c
    → (a ≡ some c) ⊎ (b ≡ some c)
unfolding better
better-one c a none h = inl h
better-one c none (some b) h = inr h
better-one c (some a) (some b) h = elim (Bool-cases (merge_candidate_less b a)) [
  | inl e ↦ inr (rw e at h)
  | inr e ↦ inl (rw e at h)
]

pub least-one :
    (c : MergeCandidate) (shadow active new : Option MergeCandidate)
    → least shadow active new ≡ some c
    → (shadow ≡ some c) ⊎ (active ≡ some c) ⊎ (new ≡ some c)
unfolding least
least-one c shadow active new h = elim (better-one c (better (better none shadow) active) new h) [
  | inr e ↦ inr (inr e)
  | inl e ↦ elim (better-one c (better none shadow) active e) [
    | inr f ↦ inr (inl f)
    | inl f ↦ elim (better-one c none shadow f) [ inl n ↦ cc | inr s ↦ inl s ]
  ]
]

pub least-Leads :
    (c : MergeCandidate) (shadow active new : Option MergeCandidate)
    → least shadow active new ≡ some c
    → Leads c shadow × Leads c active × Leads c new
unfolding least
least-Leads c shadow active new h =
    let whole : Leads c (better (better (better none shadow) active) new) =
      λ d e. let same : c ≡ d = cc in subst (λ x. Le c.name x.name) same (Le-refl c.name) in
    let (rest, third) = better-Leads c (better (better none shadow) active) new whole in
    let (first, second) = better-Leads c (better none shadow) active rest in
    ((better-Leads c none shadow first).1, second, third)

better-none : (a b : Option MergeCandidate) → better a b ≡ none → (a ≡ none) × (b ≡ none)
unfolding better
better-none a none h = (h, refl)
better-none none (some b) h = cc
better-none (some a) (some b) h = elim (Bool-cases (merge_candidate_less b a)) [
  | inl e ↦ let h' = rw e at h in cc
  | inr e ↦ let h' = rw e at h in cc
]

-- There is no least candidate only where there is none.
pub least-none :
    (shadow active new : Option MergeCandidate)
    → least shadow active new ≡ none
    → (shadow ≡ none) × (active ≡ none) × (new ≡ none)
unfolding least
least-none shadow active new h =
    let (rest, third) = better-none (better (better none shadow) active) new h in
    let (first, second) = better-none (better none shadow) active rest in
    ((better-none none shadow first).1, second, third)
