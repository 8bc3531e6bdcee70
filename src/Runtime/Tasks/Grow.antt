-- ===== src/Runtime/Tasks/Grow.antt =====
-- About runtime_task.c: what the runtime holds once it has a task more.
use green_threads.Base.{
  ℕ, suc, ◌+◌, ◌%◌, ◌^◌, ◌<◌, ◌≡◌, ◌≢◌, refl, ◌∙◌, sym, ◌⊎◌, inl, inr, false, Bool, Bool-cases,
  ◌||◌, ◌==◌, List, arith, length, contains, Distinct, if◌then◌else◌, some,
}
use green_threads.Links.Seg.{◌∈◌, ◌∉◌}
use green_threads.IdPool.Laws.{Pools, with_id}
use green_threads.Platform.Ledger.{mapping_at, block_at, ClearOf, SameAccess}
use green_threads.Stack.{Stack}
use green_threads.Stack.Region.{IsStack, IsGuarded, IsGuarded-same}
use green_threads.World.{World, task_size, task_max_capacity}
use green_threads.Runtime.Resources.{Backed, Apart}
use green_threads.Runtime.Tasks.Count.{length-few}

Apart-sym : (s s' : Stack) → Apart s s' → Apart s' s
Apart-sym s s' (inl a) = inr a
Apart-sym s s' (inr a) = inl a

-- The world `v` has the task `p` on top of the tasks `live` of `w`.
pub record OneMore (ps : ℕ) (w v : World) (live : List ℕ) (taken : ℕ → Bool) (p id : ℕ) (s : Stack)
    : Type 0 where
  pub page : v.machine.page ≡ w.machine.page
  pub is_new : mapping_at w.machine.events s.mapping.base ≡ 0
  pub clear : ClearOf w.machine.events s.mapping.base s.mapping.size
  pub stack : (v.tasks p).stack ≡ s
  pub is_stack : IsStack ps s
  pub guarded : IsGuarded s v.machine.events
  pub accesses : SameAccess w.machine.events v.machine.events
  pub mappings :
      (a : ℕ)
      → mapping_at v.machine.events a
        ≡ (if s.mapping.base == a then s.mapping.size else mapping_at w.machine.events a)
  pub blocks :
      (a : ℕ)
      → block_at v.machine.events a ≡ (if p == a then task_size else block_at w.machine.events a)
  pub others :
      (t : ℕ) → t ≢ p → ((v.tasks t).stack ≡ (w.tasks t).stack) × ((v.tasks t).id ≡ (w.tasks t).id)
  pub has_id : (v.tasks p).id ≡ id
  pub id_free : (id < task_max_capacity) × (taken id ≡ false)
  pub pools : Pools task_max_capacity (with_id (some id) taken) v.rt.task_ids
  pub counted : v.rt.task_count ≡ (w.rt.task_count + 1) % 2 ^ 64
  pub word : p + task_size < 2 ^ 64

module _ (ps : ℕ) (w v : World) (live live' : List ℕ) (taken : ℕ → Bool) (p id : ℕ) (s : Stack)
    (b : Backed ps w live taken) (m : OneMore ps w v live taken p id s) (d : Distinct live)
    (out : p ∉ live) (same : (a : ℕ) → contains live' a ≡ ((p == a) || contains live a))
    (len : length live' ≡ suc (length live)) where
  old : (t : ℕ) → t ∈ live' → t ≢ p → t ∈ live
  old t i ne = ground (arith, same t)

  -- The new task or one of the others.
  parts :
      (t : ℕ)
      → t ∈ live'
      → ((t ≡ p) × ((v.tasks t).stack.mapping.base ≡ s.mapping.base) × ((v.tasks t).id ≡ id))
        ⊎ ((t ∈ live)
            × ((v.tasks t).stack.mapping.base ≡ (w.tasks t).stack.mapping.base)
            × ((v.tasks t).id ≡ (w.tasks t).id)
            × ((w.tasks t).stack.mapping.base ≢ s.mapping.base)
            × ((w.tasks t).id ≢ id))
  parts t i = elim (Bool-cases (t == p)) [
    | inl e ↦ let e' : t ≡ p = ground arith in inl (e', rw (e', m.stack) refl, rw e' m.has_id)
    | inr e ↦
        let ne : t ≢ p = ground arith in
        let i' = old t i ne in
        inr (
          i',
          rw ((m.others t ne).0) refl,
          (m.others t ne).1,
          (λ eq. ground (arith, rw eq at (b.mappings t i'), m.is_new, (b.stacks t i').range.sized)),
          (λ eq. ground (arith, rw eq at (b.ids t i'), m.id_free)),
        )
  ]

  bases_apart :
      (t u : ℕ)
      → t ∈ live'
      → u ∈ live'
      → (v.tasks t).stack.mapping.base ≡ (v.tasks u).stack.mapping.base
      → t ≡ u
  bases_apart t u i j e = elim (parts t i) [
    | inl (e1, e2, e3) ↦ elim (parts u j) [
      | inl (f1, f2, f3) ↦ e1 ∙ sym f1
      | inr (f1, f2, f3, f4, f5) ↦ absurd (f4 (sym f2 ∙ sym e ∙ e2))
    ]
    | inr (e1, e2, e3, e4, e5) ↦ elim (parts u j) [
      | inl (f1, f2, f3) ↦ absurd (e4 (sym e2 ∙ e ∙ f2))
      | inr (f1, f2, f3, f4, f5) ↦ b.mappings_apart t u e1 f1 (sym e2 ∙ e ∙ f2)
    ]
  ]

  -- The stack of the new task overlaps none of the others.
  new_stack-Apart : (t : ℕ) → t ∈ live → Apart s (w.tasks t).stack
  new_stack-Apart t i =
      ground
        (arith, m.clear (w.tasks t).stack.mapping.base, b.mappings t i, (b.stacks t i).range.sized)

  ranges-Apart :
      (t u : ℕ) → t ∈ live' → u ∈ live' → (t ≡ u) ⊎ Apart (v.tasks t).stack (v.tasks u).stack
  ranges-Apart t u i j = elim (Bool-cases (t == p)) [
    | inl e ↦ elim (Bool-cases (u == p)) [
      | inl f ↦ inl (ground arith)
      | inr f ↦
          let e' : t ≡ p = ground arith in
          let nu : u ≢ p = ground arith in
          inr (rw (e', m.stack, (m.others u nu).0) (new_stack-Apart u (old u j nu)))
    ]
    | inr e ↦
        let nt : t ≢ p = ground arith in
        elim (Bool-cases (u == p)) [
          | inl f ↦
              let f' : u ≡ p = ground arith in
              inr (
                rw (f', m.stack, (m.others t nt).0)
                  (Apart-sym s (w.tasks t).stack (new_stack-Apart t (old t i nt))))
          | inr f ↦
              let nu : u ≢ p = ground arith in
              rw ((m.others t nt).0, (m.others u nu).0)
                (b.stacks_apart t u (old t i nt) (old u j nu))
        ]
  ]

  names_apart : (t u : ℕ) → t ∈ live' → u ∈ live' → (v.tasks t).id ≡ (v.tasks u).id → t ≡ u
  names_apart t u i j e = elim (parts t i) [
    | inl (e1, e2, e3) ↦ elim (parts u j) [
      | inl (f1, f2, f3) ↦ e1 ∙ sym f1
      | inr (f1, f2, f3, f4, f5) ↦ absurd (f5 (sym f3 ∙ sym e ∙ e3))
    ]
    | inr (e1, e2, e3, e4, e5) ↦ elim (parts u j) [
      | inl (f1, f2, f3) ↦ absurd (e5 (sym e3 ∙ e ∙ f3))
      | inr (f1, f2, f3, f4, f5) ↦ b.ids_apart t u e1 f1 (sym e3 ∙ e ∙ f3)
    ]
  ]

  pub Backed-new : Backed ps v live' (with_id (some id) taken)
  Backed-new = record {
    paged = rw m.page b.paged;
    pools = m.pools;
    stacks = λ t i. elim (Bool-cases (t == p)) [
      | inl e ↦ let e' : t ≡ p = ground arith in rw (e', m.stack) m.is_stack
      | inr e ↦ let ne : t ≢ p = ground arith in rw ((m.others t ne).0) (b.stacks t (old t i ne))
    ];
    mappings = λ t i. elim (Bool-cases (t == p)) [
      | inl e ↦
          let e' : t ≡ p = ground arith in
          rw (e', m.stack) (ground (arith, m.mappings s.mapping.base))
      | inr e ↦
          let ne : t ≢ p = ground arith in
          rw ((m.others t ne).0) (
            ground (
              arith,
              m.mappings (w.tasks t).stack.mapping.base,
              b.mappings t (old t i ne),
              m.is_new,
              (b.stacks t (old t i ne)).range.sized,
            ))
    ];
    guarded = λ t i. elim (Bool-cases (t == p)) [
      | inl e ↦ let e' : t ≡ p = ground arith in rw (e', m.stack) m.guarded
      | inr e ↦
          let ne : t ≢ p = ground arith in
          let i' = old t i ne in
          rw ((m.others t ne).0) (
            IsGuarded-same ps (w.tasks t).stack w.machine.events v.machine.events (b.stacks t i')
              (b.mappings t i') m.accesses (b.guarded t i'))
    ];
    blocks = λ t i. ground (arith, m.blocks t, b.blocks t, same t);
    ids = λ t i. elim (Bool-cases (t == p)) [
      | inl e ↦ let e' : t ≡ p = ground arith in rw (e', m.has_id) (ground (arith, m.id_free))
      | inr e ↦
          let ne : t ≢ p = ground arith in
          rw ((m.others t ne).1) (ground (arith, b.ids t (old t i ne)))
    ];
    mappings_apart = bases_apart;
    stacks_apart = ranges-Apart;
    ids_apart = names_apart;
    only_mappings = λ a ne. elim (Bool-cases (s.mapping.base == a)) [
      | inl e ↦ (p, ground (arith, same p), rw m.stack (ground arith))
      | inr e ↦
          let (t, i, f) = b.only_mappings a (ground (arith, m.mappings a)) in
          let np : t ≢ p = ground (arith, out) in
          (t, ground (arith, same t), rw ((m.others t np).0) f)
    ];
    only_blocks = λ a ne. ground (arith, b.only_blocks a, m.blocks a, same a);
    only_ids = λ j lt o. elim (Bool-cases (id == j)) [
      | inl e ↦ (p, ground (arith, same p), rw m.has_id (ground arith))
      | inr e ↦
          let (t, i, f) = b.only_ids j lt (ground arith) in
          let np : t ≢ p = ground (arith, out) in
          (t, ground (arith, same t), rw ((m.others t np).1) f)
    ];
    words = λ t i. ground (arith, b.words t, m.word, same t);
    counted =
        let few =
          length-few (λ t. (w.tasks t).id) task_max_capacity live d (λ t i. (b.ids t i).0)
            b.ids_apart in
        ground (arith, m.counted, b.counted, len, few);
  }
