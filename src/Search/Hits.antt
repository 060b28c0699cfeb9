-- ===== src/Search/Hits.antt =====
-- What a search is to return: the indices of the packages that fit, in order, at most so many.
-- The specification scans every package and knows nothing of blocks.
use aurhub.Base.{
  ℕ, zero, suc, ◌+◌, ◌-◌, ◌≤◌, ◌<◌, ◌≡◌, refl, sym, ap, ◌∙◌, Bool, false, List, [], ◌∷◌, ◌++◌,
  append-nil, append_assoc, Bool-cases, inl, inr, length, take, length-take, take_all, take_full,
  arith, if◌then◌else◌,
}
use mathlib.Core.Path.{ap₂}

-- the indices from `index` on that fit, among `left` of them
unfoldable pub hits : (ℕ → Bool) → ℕ → ℕ → List ℕ
hits fits index zero = []
hits fits index (suc left) =
    let rest = hits fits (suc index) left in if fits index then index ∷ rest else rest

-- the indices that fit in `first ..< end`
abbrev pub range_hits : (ℕ → Bool) → ℕ → ℕ → List ℕ
range_hits fits first end = hits fits first (end - first)

pub hits-add :
    (fits : ℕ → Bool) (index a b : ℕ)
    → hits fits index (a + b) ≡ hits fits index a ++ hits fits (index + a) b
unfolding hits
hits-add fits index zero b = ap₂ (hits fits) (omega arith) (omega arith)
hits-add fits index (suc a) b =
    let e : suc a + b ≡ suc (a + b) = omega arith in
    let e' : index + suc a ≡ suc index + a = omega arith in
    rw (e, e', hits-add fits (suc index) a b)
      (elim (Bool-cases (fits index)) [ inl y ↦ rw y | inr n ↦ rw n ])

pub hits-none :
    (fits : ℕ → Bool) (index left : ℕ)
    → ((p : ℕ) → index ≤ p → p < index + left → fits p ≡ false)
    → hits fits index left ≡ []
unfolding hits
hits-none fits index zero h = refl
hits-none fits index (suc left) h =
    rw (h index (omega arith) (omega arith))
      (hits-none fits (suc index) left (λ p l u. h p (omega arith) (omega arith)))

pub hits_congr :
    (f g : ℕ → Bool) (index left : ℕ)
    → ((p : ℕ) → index ≤ p → p < index + left → f p ≡ g p)
    → hits f index left ≡ hits g index left
unfolding hits
hits_congr f g index zero h = refl
hits_congr f g index (suc left) h = rw (
  h index (omega arith) (omega arith),
  hits_congr f g (suc index) left (λ p l u. h p (omega arith) (omega arith)),
)

pub range_hits-split :
    (fits : ℕ → Bool) (first middle end : ℕ)
    → first ≤ middle
    → middle ≤ end
    → range_hits fits first end ≡ range_hits fits first middle ++ range_hits fits middle end
range_hits-split fits first middle end p q =
    ap (hits fits first) (omega arith)
    ∙ hits-add fits first (middle - first) (end - middle)
    ∙ ap (λ m. range_hits fits first middle ++ hits fits m (end - middle)) (omega arith)

-- a limit may be applied early
pub take-take-append : (n : ℕ) (xs ys : List ℕ) → take n (take n xs ++ ys) ≡ take n (xs ++ ys)
unfolding take
take-take-append zero xs ys = refl
take-take-append (suc n) [] ys = refl
take-take-append (suc n) (x ∷ xs) ys = ap (◌∷◌ x) (take-take-append n xs ys)

-- `new` is `old` with `found` put behind it, as far as the limit lets.
abbrev pub Adds : ℕ → List ℕ → List ℕ → List ℕ → Type 0
Adds limit found old new = new ≡ take limit (old ++ found)

pub Adds-nothing : (limit : ℕ) (old : List ℕ) → length old ≤ limit → Adds limit [] old old
Adds-nothing limit old h = rw append-nil (sym (take_all limit old h))

pub Adds-full : (limit : ℕ) (found old : List ℕ) → limit ≡ length old → Adds limit found old old
Adds-full limit found old h = sym (take_full limit old found h)

pub Adds-trans :
    (limit : ℕ) (f g a b c : List ℕ) → Adds limit f a b → Adds limit g b c → Adds limit (f ++ g) a c
Adds-trans limit f g a b c p q =
    q
    ∙ ap (λ x. take limit (x ++ g)) p
    ∙ take-take-append limit (a ++ f) g
    ∙ ap (take limit) (append_assoc a f g)

pub Adds-bounded :
    (limit : ℕ) (found old new : List ℕ) → Adds limit found old new → length new ≤ limit
Adds-bounded limit found old new h = rw h (omega (arith, length-take limit (old ++ found)))
