-- ===== src/Merge/Inputs/Order/Lists.antt =====
-- Lists of packages whose names ascend, up to a bound.
use aurhub.Base.{◌≡◌, refl, true, List, [], ◌∷◌, ◌++◌}
use aurhub.Bytes.{Bytes, bytes_lt}
use aurhub.Generation.Format.{GenerationPackageInput}
use aurhub.Merge.Inputs.Least.{Le, Le-trans}

-- the first name, or the bound
abbrev first_name : List GenerationPackageInput → Bytes → Bytes
first_name [] bound = bound
first_name (p ∷ ps) bound = p.name

-- Each name is strictly below the next, and the last one below the bound.
abbrev pub Ascends : List GenerationPackageInput → Bytes → Type 0
Ascends [] bound = Unit
Ascends (p ∷ ps) bound = (bytes_lt p.name (first_name ps bound) ≡ true) × Ascends ps bound

-- No name is above the next, and the last one not above the bound.
abbrev pub Rises : List GenerationPackageInput → Bytes → Type 0
Rises [] bound = Unit
Rises (p ∷ ps) bound = Le p.name (first_name ps bound) × Rises ps bound

first_name-snoc :
    (ps : List GenerationPackageInput) (w : GenerationPackageInput) (bound : Bytes)
    → first_name (ps ++ w ∷ []) bound ≡ first_name ps w.name
first_name-snoc [] w bound = refl
first_name-snoc (p ∷ ps) w bound = refl

pub Ascends-snoc :
    (ps : List GenerationPackageInput) (w : GenerationPackageInput) (bound : Bytes)
    → Ascends ps w.name
    → bytes_lt w.name bound ≡ true
    → Ascends (ps ++ w ∷ []) bound
Ascends-snoc [] w bound a h = (h, tt)
Ascends-snoc (p ∷ ps) w bound (l, a) h =
    (rw (first_name-snoc ps w bound) l, Ascends-snoc ps w bound a h)

pub Rises-snoc :
    (ps : List GenerationPackageInput) (w : GenerationPackageInput) (bound : Bytes)
    → Rises ps w.name
    → Le w.name bound
    → Rises (ps ++ w ∷ []) bound
Rises-snoc [] w bound a h = (h, tt)
Rises-snoc (p ∷ ps) w bound (l, a) h =
    (rw (first_name-snoc ps w bound) l, Rises-snoc ps w bound a h)

pub Rises-up : (ps : List GenerationPackageInput) (a b : Bytes) → Rises ps a → Le a b → Rises ps b
Rises-up [] a b r h = tt
Rises-up (p ∷ []) a b (l, r) h = (Le-trans p.name a b l h, tt)
Rises-up (p ∷ q ∷ ps) a b (l, r) h = (l, Rises-up (q ∷ ps) a b r h)

-- Each name is strictly below the next.
abbrev pub AreAscending : List GenerationPackageInput → Type 0
AreAscending [] = Unit
AreAscending (p ∷ []) = Unit
AreAscending (p ∷ q ∷ ps) = (bytes_lt p.name q.name ≡ true) × AreAscending (q ∷ ps)

-- No name is above the next.
abbrev pub AreRising : List GenerationPackageInput → Type 0
AreRising [] = Unit
AreRising (p ∷ []) = Unit
AreRising (p ∷ q ∷ ps) = Le p.name q.name × AreRising (q ∷ ps)

pub Ascends-all :
    (ps : List GenerationPackageInput) (w : GenerationPackageInput)
    → Ascends ps w.name
    → AreAscending (ps ++ w ∷ [])
Ascends-all [] w a = tt
Ascends-all (p ∷ []) w (l, a) = (l, tt)
Ascends-all (p ∷ q ∷ ps) w (l, a) = (l, Ascends-all (q ∷ ps) w a)

pub Rises-all : (ps : List GenerationPackageInput) (bound : Bytes) → Rises ps bound → AreRising ps
Rises-all [] bound r = tt
Rises-all (p ∷ []) bound r = tt
Rises-all (p ∷ q ∷ ps) bound (l, r) = (l, Rises-all (q ∷ ps) bound r)
