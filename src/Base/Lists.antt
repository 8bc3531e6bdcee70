-- ===== src/Base/Lists.antt =====
-- Lists measured, indexed and searched by native numbers.
use Prim.Native.Nat.{ℕ, zero, suc, ◌+◌, ◌<◌}
use mathlib.Core.Path.{◌≡◌, refl, ap}
use mathlib.Core.Logic.{◌≢◌}
use mathlib.Core.Bool.{Bool, true, false, ◌||◌}
use mathlib.Core.List.{List, [], ◌∷◌, ◌++◌}
use mathlib.Core.Option.{Option, none, some}
use native.Mathlib.Omega.{arith}
use green_threads.Base.Tests.{◌==◌}

module _ {ℓ} {A : Type ℓ} where
  abbrev pub length : List A → ℕ
  length [] = 0
  length (x ∷ xs) = suc (length xs)

  abbrev pub get_elem? : List A → ℕ → Option A
  get_elem? [] i = none
  get_elem? (x ∷ xs) zero = some x
  get_elem? (x ∷ xs) (suc i) = get_elem? xs i

  abbrev pub get_or : List A → ℕ → A → A
  get_or [] i d = d
  get_or (x ∷ xs) zero d = x
  get_or (x ∷ xs) (suc i) d = get_or xs i d

  abbrev pub set : List A → ℕ → A → List A
  set [] i v = []
  set (x ∷ xs) zero v = v ∷ xs
  set (x ∷ xs) (suc i) v = x ∷ set xs i v

  abbrev pub replicate : ℕ → A → List A
  replicate zero a = []
  replicate (suc n) a = a ∷ replicate n a

  pub length-append : (xs ys : List A) → length (xs ++ ys) ≡ length xs + length ys
  length-append [] ys = omega arith
  length-append (x ∷ xs) ys = omega (arith, length-append xs ys)

  pub length-set : (xs : List A) (i : ℕ) (v : A) → length (set xs i v) ≡ length xs
  length-set [] i v = refl
  length-set (x ∷ xs) zero v = refl
  length-set (x ∷ xs) (suc i) v = ap suc (length-set xs i v)

  pub length-replicate : (n : ℕ) (a : A) → length (replicate n a) ≡ n
  length-replicate zero a = refl
  length-replicate (suc n) a = ap suc (length-replicate n a)

  pub get_or-replicate : (n i : ℕ) (a : A) → get_or (replicate n a) i a ≡ a
  get_or-replicate zero i a = refl
  get_or-replicate (suc n) zero a = refl
  get_or-replicate (suc n) (suc i) a = get_or-replicate n i a

  pub get_or-set_self :
      (xs : List A) (i : ℕ) (v d : A) → i < length xs → get_or (set xs i v) i d ≡ v
  get_or-set_self [] i v d h = absurd (omega arith)
  get_or-set_self (x ∷ xs) zero v d h = refl
  get_or-set_self (x ∷ xs) (suc i) v d h = get_or-set_self xs i v d (omega arith)

  pub get_or-set_ne :
      (xs : List A) (i j : ℕ) (v d : A) → i ≢ j → get_or (set xs i v) j d ≡ get_or xs j d
  get_or-set_ne [] i j v d ne = refl
  get_or-set_ne (x ∷ xs) zero zero v d ne = absurd (ne refl)
  get_or-set_ne (x ∷ xs) zero (suc j) v d ne = refl
  get_or-set_ne (x ∷ xs) (suc i) zero v d ne = refl
  get_or-set_ne (x ∷ xs) (suc i) (suc j) v d ne = get_or-set_ne xs i j v d (λ e. ne (ap suc e))

  pub get_elem?-eq-get_or :
      (xs : List A) (i : ℕ) (d : A) → i < length xs → get_elem? xs i ≡ some (get_or xs i d)
  get_elem?-eq-get_or [] i d h = absurd (omega arith)
  get_elem?-eq-get_or (x ∷ xs) zero d h = refl
  get_elem?-eq-get_or (x ∷ xs) (suc i) d h = get_elem?-eq-get_or xs i d (omega arith)

abbrev pub contains : List ℕ → ℕ → Bool
contains [] a = false
contains (x ∷ xs) a = (x == a) || contains xs a

-- No address stands twice in the list.
abbrev pub Distinct : List ℕ → Type 0
Distinct [] = Unit
Distinct (x ∷ xs) = (contains xs x ≡ false) × Distinct xs

abbrev pub last : ℕ → List ℕ → ℕ
last p [] = p
last p (x ∷ xs) = last x xs

abbrev pub first : List ℕ → ℕ → ℕ
first [] q = q
first (x ∷ xs) q = x

pub contains-append :
    (xs ys : List ℕ) (a : ℕ) → contains (xs ++ ys) a ≡ (contains xs a || contains ys a)
contains-append [] ys a = refl
contains-append (x ∷ xs) ys a = ground (arith, contains-append xs ys a)

pub contains-last : (p : ℕ) (xs : List ℕ) → contains (p ∷ xs) (last p xs) ≡ true
contains-last p [] = ground arith
contains-last p (x ∷ xs) = ground (arith, contains-last x xs)

pub Distinct-append :
    (xs ys : List ℕ)
    → Distinct (xs ++ ys)
    → Distinct xs × Distinct ys × ((a : ℕ) → contains xs a ≡ true → contains ys a ≡ false)
Distinct-append [] ys d = (tt, d, λ a i. cc)
Distinct-append (x ∷ xs) ys d =
    let (dx, dy, apart) = Distinct-append xs ys d.1 in
    (
      (ground (arith, contains-append xs ys x), dx),
      dy,
      λ a i. ground (arith, contains-append xs ys x, apart a),
    )

pub Distinct-insert :
    (xs ys : List ℕ) (n : ℕ)
    → Distinct (xs ++ ys)
    → contains (xs ++ ys) n ≡ false
    → Distinct (xs ++ n ∷ ys)
Distinct-insert [] ys n d new = (new, d)
Distinct-insert (x ∷ xs) ys n d new = (
  ground (arith, contains-append xs ys x, contains-append xs (n ∷ ys) x),
  Distinct-insert xs ys n d.1 (ground arith),
)

pub Distinct-remove :
    (xs ys : List ℕ) (n : ℕ)
    → Distinct (xs ++ n ∷ ys)
    → Distinct (xs ++ ys) × (contains (xs ++ ys) n ≡ false)
Distinct-remove [] ys n d = (d.1, d.0)
Distinct-remove (x ∷ xs) ys n d =
    let (rest, out) = Distinct-remove xs ys n d.1 in
    (
      (ground (arith, contains-append xs ys x, contains-append xs (n ∷ ys) x), rest),
      ground (arith, contains-append xs (n ∷ ys) x),
    )
