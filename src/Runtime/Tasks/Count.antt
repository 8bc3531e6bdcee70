-- ===== src/Runtime/Tasks/Count.antt =====
-- About runtime_task.c: there are no more tasks than identifiers.
use green_threads.Base.{
  ℕ, zero, suc, ◌≤◌, ◌<◌, ◌≡◌, refl, inl, inr, false, Bool-cases, List, [], ◌∷◌, ◌++◌, map, arith,
  length, contains, contains-append, Distinct, Distinct-remove,
}
use green_threads.Links.Seg.{◌∈◌, ◌∉◌}
use green_threads.Runtime.Execution.Finish.{place}

length-cut : (xs ys : List ℕ) (c : ℕ) → length (xs ++ c ∷ ys) ≡ suc (length (xs ++ ys))
length-cut [] ys c = refl
length-cut (x ∷ xs) ys c = omega (arith, length-cut xs ys c)

-- Distinct numbers below `n` are at most `n` many.
length-le : (n : ℕ) (xs : List ℕ) → Distinct xs → ((a : ℕ) → a ∈ xs → a < n) → length xs ≤ n
length-le zero [] d below = omega arith
length-le zero (x ∷ xs) d below = absurd (ground (arith, below x))
length-le (suc n) xs d below = elim (Bool-cases (contains xs n)) [
  | inl i ↦
      let (os, os', eq) = place xs n i in
      let (rest, out) = Distinct-remove os os' n (rw eq at d) in
      let le = length-le n (os ++ os') rest (λ a j.
        ground
          (arith, rw eq at (below a), contains-append os os' a, contains-append os (n ∷ os') a)) in
      rw eq (omega (arith, length-cut os os' n))
  | inr out ↦ let le = length-le n xs d (λ a j. ground (arith, below a)) in omega arith
]

contains-images :
    (f : ℕ → ℕ) (xs : List ℕ) (t : ℕ)
    → t ∉ xs
    → ((u : ℕ) → u ∈ xs → f t ≡ f u → t ≡ u)
    → contains (map f xs) (f t) ≡ false
contains-images f [] t out apart = refl
contains-images f (x ∷ xs) t out apart =
    ground (arith, contains-images f xs t (ground arith) (λ u i. apart u (ground arith)), apart x)

Distinct-images :
    (f : ℕ → ℕ) (xs : List ℕ)
    → Distinct xs
    → ((t u : ℕ) → t ∈ xs → u ∈ xs → f t ≡ f u → t ≡ u)
    → Distinct (map f xs)
Distinct-images f [] d apart = tt
Distinct-images f (x ∷ xs) d apart = (
  contains-images f xs x d.0 (λ u i. apart x u (ground arith) (ground arith)),
  Distinct-images f xs d.1 (λ t u i j. apart t u (ground arith) (ground arith)),
)

images-below :
    (f : ℕ → ℕ) (n : ℕ) (xs : List ℕ)
    → ((t : ℕ) → t ∈ xs → f t < n)
    → (a : ℕ) → a ∈ map f xs
    → a < n
images-below f n [] all a i = absurd (ground (arith, i))
images-below f n (x ∷ xs) all a i =
    ground (arith, all x, images-below f n xs (λ t j. all t (ground arith)) a)

length-map : (f : ℕ → ℕ) (xs : List ℕ) → length (map f xs) ≡ length xs
length-map f [] = refl
length-map f (x ∷ xs) = omega (arith, length-map f xs)

-- Tasks with identifiers of their own below `n` are at most `n` many.
pub length-few :
    (f : ℕ → ℕ) (n : ℕ) (xs : List ℕ)
    → Distinct xs
    → ((t : ℕ) → t ∈ xs → f t < n)
    → ((t u : ℕ) → t ∈ xs → u ∈ xs → f t ≡ f u → t ≡ u)
    → length xs ≤ n
length-few f n xs d below apart = omega (
  arith,
  length-map f xs,
  length-le n (map f xs) (Distinct-images f xs d apart) (images-below f n xs below),
)
