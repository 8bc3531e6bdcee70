-- ===== src/IdPool/Fresh.antt =====
-- About id_pool.h: sequences of allocations and releases.
use green_threads.Base.{
  ℕ, zero, suc, ◌+◌, ◌≤◌, ◌<◌, ◌≡◌, ◌≢◌, refl, arith, ltb, ◌==◌, Bool, ◌↔◌, true, false, not, ◌&&◌,
  ◌||◌, ◌∙◌, List, [], ◌∷◌, get_or, length, Option, some, none, ◌/◌, ◌^◌,
}
use green_threads.Outcome.{Outcome, ok, ◌>>=◌}
use green_threads.Bitmap.Words.{bit_at}
use green_threads.Bitmap.Bulk.{init-Holds}
use green_threads.Bitmap.Search.{IsFirst}
use green_threads.Bitmap.Loops.{is_full_iff}
use green_threads.IdPool
use green_threads.IdPool.{IdPool}
use green_threads.IdPool.Laws.{Pools, with_id, allocate_lem, release_lem}

pub Pools-same :
    (total : ℕ) (taken taken' : ℕ → Bool) (p : IdPool)
    → Pools total taken p
    → ((j : ℕ) → j < total → taken j ≡ taken' j)
    → Pools total taken' p
Pools-same total taken taken' p h same = record {
  storage = h.storage;
  valid = h.valid;
  same_size = h.same_size;
  bits = λ j lt. h.bits j lt ∙ same j lt;
}

-- Allocating an identifier that the pool then takes back gives the same set of taken identifiers.
pub release-allocate :
    (p p' : IdPool) (total : ℕ) (taken : ℕ → Bool) (out id : ℕ)
    → Pools total taken p
    → out ≢ 0
    → IdPool.allocate (some p) out ≡ ok (some id, p')
    → (p'' : IdPool) × (IdPool.release (some p') id ≡ ok p'') × Pools total taken p''
release-allocate p p' total taken out id h given ran =
    let (r, q, ran', first, after, kept) = allocate_lem p total taken h out given in
    go r first q ran' after
  where
    go :
        (r : Option ℕ)
        → IsFirst (λ j. not (taken j)) 0 total r
        → (q : IdPool) → IdPool.allocate (some p) out ≡ ok (r, q)
        → Pools total (with_id r taken) q
        → (p'' : IdPool) × (IdPool.release (some p') id ≡ ok p'') × Pools total taken p''
    go none first q e after = absurd (cc)
    go (some k) first q e after =
        let same : q ≡ p' = cc in
        let same_id : k ≡ id = cc in
        let (p'', ran'', done) =
          release_lem q total (with_id (some k) taken) after k first.1 (ground arith) in
        (
          p'',
          ground (arith, same, same_id, ran''),
          Pools-same total (λ j. not (k == j) && ((k == j) || taken j)) taken p'' done
              (λ j lt. ground (arith, first)),
        )

-- On a well-formed pool gt_id_pool_is_full returns, and it returns true exactly when
-- gt_id_pool_allocate returns false and leaves the pool as it is.
pub is_full-allocate :
    (p : IdPool) (total : ℕ) (taken : ℕ → Bool) (out : ℕ)
    → Pools total taken p
    → out ≢ 0
    → (r : Bool) × (IdPool.is_full (some p) ≡ ok r)
      × ((r ≡ true) ↔ (IdPool.allocate (some p) out ≡ ok (none, p)))
unfolding IdPool.is_full
is_full-allocate p total taken out h given =
    let (full, ran, iff) = is_full_iff p.map h.storage h.valid in
    let (r, q, ran', first, after, kept) = allocate_lem p total taken h out given in
    (full, ran, go full r first q ran' kept iff)
  where
    go :
        (full : Bool) (r : Option ℕ)
        → IsFirst (λ j. not (taken j)) 0 total r
        → (q : IdPool) → IdPool.allocate (some p) out ≡ ok (r, q)
        → (r ≡ none → q ≡ p)
        → ((full ≡ true) ↔ ((j : ℕ) → j < p.map.total_bits → bit_at h.storage j ≡ true))
        → (full ≡ true) ↔ (IdPool.allocate (some p) out ≡ ok (none, p))
    go full none first q e kept iff = (
      (λ f. ground (arith, e, kept refl)),
      λ f. iff.1 (λ j lt. ground (arith, h.bits j, first j, h.same_size)),
    )
    go full (some k) first q e kept iff =
        ((λ f. absurd (ground (arith, iff.0 f k, h.bits k, first, h.same_size))), λ f. cc)

-- `n` allocations in a row: the identifiers, in order, and the pool after them.
pub allocate_many : ℕ → IdPool → ℕ → Outcome (List (Option ℕ) × IdPool)
allocate_many zero p out = ok ([], p)
allocate_many (suc n) p out = do
  (id, p) ← IdPool.allocate (some p) out
  (ids, p) ← allocate_many n p out
  ok (id ∷ ids, p)

abbrev pub ids_from : ℕ → ℕ → List (Option ℕ)
ids_from k zero = []
ids_from k (suc n) = some k ∷ ids_from (k + 1) n

first_fresh :
    (k total : ℕ) (r : Option ℕ) → IsFirst (λ j. not (ltb j k)) 0 total r → k < total → r ≡ some k
first_fresh k total none first lt = ground (arith, first k)
first_fresh k total (some j) first lt = ground (arith, first, first.3 k)

allocate_many-from :
    (n k total : ℕ) (p : IdPool) (out : ℕ)
    → Pools total (λ j. ltb j k) p
    → out ≢ 0
    → k + n ≤ total
    → (p' : IdPool) × (allocate_many n p out ≡ ok (ids_from k n, p'))
      × Pools total (λ j. ltb j (k + n)) p'
unfolding allocate_many
allocate_many-from zero k total p out h given fits =
    (p, refl, Pools-same total (λ j. ltb j k) (λ j. ltb j (k + 0)) p h (λ j lt. ground arith))
allocate_many-from (suc n) k total p out h given fits =
    let (r, q, ran, first, after, kept) = allocate_lem p total (λ j. ltb j k) h out given in
    let e = first_fresh k total r first (omega arith) in
    let after' =
      Pools-same total (with_id r (λ j. ltb j k)) (λ j. ltb j (k + 1)) q after
        (λ j lt. ground (arith, e)) in
    let (p', ran', done) = allocate_many-from n (k + 1) total q out after' given (omega arith) in
    (
      p',
      ground (arith, e, ran, ran'),
      Pools-same total (λ j. ltb j (k + 1 + n)) (λ j. ltb j (k + suc n)) p' done
          (λ j lt. ground arith),
    )

pub init_lem :
    (old : IdPool) (ws : List ℕ) (total : ℕ)
    → 0 < total
    → total + 63 < 2 ^ 64
    → (total + 63) / 64 ≤ length ws
    → ((k : ℕ) → get_or ws k 0 < 2 ^ 64)
    → (p : IdPool) × (IdPool.init (some old) (some ws) total ≡ ok p) × Pools total (λ _. false) p
unfolding IdPool.init
init_lem old ws total pos fits enough all =
    let (b, ran, fresh) = init-Holds old.map ws total pos fits enough all in
    (record { map = b }, ground (arith, ran), fresh)

-- gt_id_pool_init over enough storage, followed by n allocations, with n at most the number of
-- identifiers, hands out 0, 1, up to n - 1 in this order, and exactly these are taken then.
pub allocate_many-fresh :
    (old : IdPool) (ws : List ℕ) (total n out : ℕ)
    → 0 < total
    → total + 63 < 2 ^ 64
    → (total + 63) / 64 ≤ length ws
    → ((k : ℕ) → get_or ws k 0 < 2 ^ 64)
    → out ≢ 0
    → n ≤ total
    → (p : IdPool) × (p' : IdPool) × (IdPool.init (some old) (some ws) total ≡ ok p)
      × (allocate_many n p out ≡ ok (ids_from 0 n, p'))
      × Pools total (λ j. ltb j n) p'
allocate_many-fresh old ws total n out pos fits enough all given le =
    let (p, ran, fresh) = init_lem old ws total pos fits enough all in
    let fresh' : Pools total (λ j. ltb j 0) p =
      Pools-same total (λ _. false) (λ j. ltb j 0) p fresh (λ j lt. ground arith) in
    let (p', ran', done) = allocate_many-from n 0 total p out fresh' given (omega arith) in
    (
      p,
      p',
      ran,
      ran',
      Pools-same total (λ j. ltb j (0 + n)) (λ j. ltb j n) p' done (λ j lt. ground arith),
    )
