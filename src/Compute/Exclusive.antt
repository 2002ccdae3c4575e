-- ===== src/Compute/Exclusive.antt =====
-- At most one operation works on an instance (acquireOp and release of
-- services/compute-agent/internal/vm/handler.go), whatever the order of the goroutines' steps.
use hybrid_cloud_with_claude.Prelude.{
  ℕ, ◌<◌, ◌≡◌, ◌≢◌, ◌⊎◌, inl, inr, refl, sym, ap, ◌∙◌, Bool, true, String, str_eq, str_eq_iff,
  Option, none, some, ℕ_discrete, Bool-cases, arith,
}
use hybrid_cloud_with_claude.Compute.Ops.{
  OpSlot, asking, dropped, finished, waiting, working, Op, Ops, set_flag, set_op, move, drops,
  claim, ask_at, spawn, ask, release, Step, spawns, asks, wakes, releases, start, Reach, starts,
  then_step,
}

-- A slot in the map belongs to the goroutine that works with it, no two work with one slot, and a slot
-- that is waited for is closed or still worked with.
pub record IsSafe (o : Ops) : Type 0 where
  pub held :
      (n t : ℕ)
      → (o.ops n).pc ≡ working t
      → o.in_flight (o.ops n).id ≡ some (record { token = t; kind = (o.ops n).kind })
  pub made : (n t : ℕ) → (o.ops n).pc ≡ working t → t < o.next
  pub distinct : (n m t : ℕ) → (o.ops n).pc ≡ working t → (o.ops m).pc ≡ working t → n ≡ m
  pub owned :
      (id : String) (s : OpSlot)
      → o.in_flight id ≡ some s
      → (n : ℕ) × ((o.ops n).pc ≡ working s.token) × ((o.ops n).id ≡ id)
  pub waits :
      (n t : ℕ)
      → (o.ops n).pc ≡ waiting t
      → (o.closed t ≡ true) ⊎ ((m : ℕ) × ((o.ops m).pc ≡ working t))

start-IsSafe : IsSafe start
start-IsSafe = record {
  held = λ n t h. ground arith;
  made = λ n t h. ground arith;
  distinct = λ n m t h k. ground arith;
  owned = λ id s h. ground arith;
  waits = λ n t h. ground arith;
}

cancel-IsSafe : (o : Ops) (f : ℕ → Bool) → IsSafe o → IsSafe (record o { cancelled = f })
cancel-IsSafe o f safe = record {
  held = safe.held;
  made = safe.made;
  distinct = safe.distinct;
  owned = safe.owned;
  waits = safe.waits;
}

set_op-other : (n m : ℕ) (op : Op) (f : ℕ → Op) → m ≢ n → set_op n op f m ≡ f m
set_op-other n m op f ne = ground arith

set_op-same : (n : ℕ) (op : Op) (f : ℕ → Op) → set_op n op f n ≡ op
set_op-same n op f = ground arith

-- Slot t is closed, or a goroutine works with it.
abbrev Awaited : Ops → ℕ → Type 0
Awaited o t = (o.closed t ≡ true) ⊎ ((m : ℕ) × ((o.ops m).pc ≡ working t))

module _ (n : ℕ) (o : Ops) (before : (t : ℕ) → (o.ops n).pc ≢ working t) where
  -- Who works goes on when goroutine n, which does not, is changed.
  unmoved : (op : Op) (m t : ℕ) → (o.ops m).pc ≡ working t → set_op n op o.ops m ≡ o.ops m
  unmoved op m t w = set_op-other n m op o.ops (λ e. before t (ap (λ k. (o.ops k).pc) (sym e) ∙ w))

  still-Awaited :
      (op : Op) (t : ℕ)
      → Awaited o t
      → (o.closed t ≡ true) ⊎ ((m : ℕ) × ((set_op n op o.ops m).pc ≡ working t))
  still-Awaited op t (inl e) = inl e
  still-Awaited op t (inr (m, w)) = inr (m, ap (λ x. x.pc) (unmoved op m t w) ∙ w)

  -- A goroutine that does not work, moved to a place where it does not.
  quiet-IsSafe :
      (op : Op)
      → ((t : ℕ) → op.pc ≢ working t)
      → ((t : ℕ) → op.pc ≡ waiting t → Awaited o t)
      → IsSafe o
      → IsSafe (record o { ops = set_op n op o.ops })
  quiet-IsSafe op after wait safe = record {
    held = λ m t h. ground (arith, safe.held m t, after t);
    made = λ m t h. ground (arith, safe.made m t, after t);
    distinct = λ m k t h h'. ground (arith, safe.distinct m k t, after t);
    owned = λ id s h.
        let (m, w, e) = safe.owned id s h in
        (
          m,
          ap (λ x. x.pc) (unmoved op m s.token w) ∙ w,
          ap (λ x. x.id) (unmoved op m s.token w) ∙ e,
        );
    waits = λ m t h. elim (ℕ_discrete m n) [
      | yes e ↦ still-Awaited op t (
          wait t (
            ap (λ x. x.pc) (sym (set_op-same n op o.ops))
            ∙ ap (λ k. (set_op n op o.ops k).pc) (sym e)
            ∙ h))
      | no ne ↦
          still-Awaited op t
            (safe.waits m t (ap (λ x. x.pc) (sym (set_op-other n m op o.ops ne)) ∙ h))
    ];
  }

  claim-IsSafe : o.in_flight (o.ops n).id ≡ none → IsSafe o → IsSafe (claim n o)
  claim-IsSafe free safe =
      let op : Op = record (o.ops n) { pc = working o.next } in
      record {
        held = λ m t h. ground (
          arith,
          safe.held m t,
          str_eq_iff (o.ops m).id (o.ops n).id,
          str_eq_iff (o.ops n).id (o.ops n).id,
        );
        made = λ m t h. ground (arith, safe.made m t);
        distinct = λ m k t h h'. ground (arith, safe.distinct m k t, safe.made m t, safe.made k t);
        owned = λ id s h. elim (Bool-cases (str_eq id (o.ops n).id)) [
          | inl y ↦
              let same : set_op n op o.ops n ≡ op = set_op-same n op o.ops in
              (
                n,
                ap (λ x. x.pc) same ∙ ground (arith, h),
                ap (λ x. x.id) same ∙ sym ((str_eq_iff id (o.ops n).id).0 y),
              )
          | inr no_match ↦
              let old : o.in_flight id ≡ some s = ground (arith, h) in
              let (m, w, e) = safe.owned id s old in
              (
                m,
                ap (λ x. x.pc) (unmoved op m s.token w) ∙ w,
                ap (λ x. x.id) (unmoved op m s.token w) ∙ e,
              )
        ];
        waits = λ m t h. still-Awaited op t (safe.waits m t (ground (arith, h)));
      }

  ask_at-IsSafe :
      (e : Option OpSlot) → o.in_flight (o.ops n).id ≡ e → IsSafe o → IsSafe (ask_at n e o)
  ask_at-IsSafe none free safe = claim-IsSafe free safe
  ask_at-IsSafe (some s) found safe = elim (Bool-cases (drops s (o.ops n).kind)) [
    | inl t ↦ rw t (
        quiet-IsSafe (record (o.ops n) { pc = dropped }) (λ t h. ground arith)
          (λ t h. absurd (ground arith)) safe)
    | inr f ↦
        let (m, w, e) = safe.owned (o.ops n).id s found in
        rw f (
          cancel-IsSafe (move n (waiting s.token) o) (set_flag s.token o.cancelled) (
            quiet-IsSafe (record (o.ops n) { pc = waiting s.token }) (λ t h. ground arith)
              (λ t h. inr (m, ground (arith, w, h))) safe))
  ]

closing-waits :
    (n t u : ℕ) (o : Ops)
    → (o.ops n).pc ≡ working t
    → Awaited o u
    → (set_flag t o.closed u ≡ true)
      ⊎ ((m : ℕ) × ((set_op n (record (o.ops n) { pc = finished }) o.ops m).pc ≡ working u))
closing-waits n t u o w (inl e) = inl (ground arith)
closing-waits n t u o w (inr (k, wk)) = elim (ℕ_discrete k n) [
  | yes e ↦ inl (ground arith)
  | no ne ↦
      inr (k, ap (λ x. x.pc) (set_op-other n k (record (o.ops n) { pc = finished }) o.ops ne) ∙ wk)
]

-- The slot of a goroutine that works is freed and closed.
release-IsSafe : (n t : ℕ) (o : Ops) → (o.ops n).pc ≡ working t → IsSafe o → IsSafe (release n t o)
unfolding release
release-IsSafe n t o w safe =
    let op : Op = record (o.ops n) { pc = finished } in
    record {
      held = λ m u h. ground (
        arith,
        safe.held m u,
        safe.held n t w,
        safe.distinct m n t,
        str_eq_iff (o.ops m).id (o.ops n).id,
      );
      made = λ m u h. ground (arith, safe.made m u);
      distinct = λ m k u h h'. ground (arith, safe.distinct m k u);
      owned = λ id s h. elim (Bool-cases (str_eq id (o.ops n).id)) [
        | inl y ↦ absurd (ground (arith, safe.held n t w))
        | inr no_match ↦
            let old : o.in_flight id ≡ some s = ground (arith, h) in
            let (m, w', e) = safe.owned id s old in
            let moved : set_op n op o.ops m ≡ o.ops m =
              set_op-other n m op o.ops (λ k. ground (arith, str_eq_iff id (o.ops n).id)) in
            (m, ap (λ x. x.pc) moved ∙ w', ap (λ x. x.id) moved ∙ e)
      ];
      waits = λ m u h. closing-waits n t u o w (safe.waits m u (ground (arith, h)));
    }

step-IsSafe : (o o' : Ops) → Step o o' → IsSafe o → IsSafe o'
unfolding ask spawn
step-IsSafe o _ (spawns n id kind e) safe =
    quiet-IsSafe n o (λ t h. ground arith) (record { id = id; kind = kind; pc = asking })
      (λ t h. ground arith) (λ t h. absurd (ground arith)) safe
step-IsSafe o _ (asks n e) safe =
    ask_at-IsSafe n o (λ t h. ground arith) (o.in_flight (o.ops n).id) refl safe
step-IsSafe o _ (wakes n t e closed) safe =
    quiet-IsSafe n o (λ t h. ground arith) (record (o.ops n) { pc = asking }) (λ t h. ground arith)
      (λ t h. absurd (ground arith)) safe
step-IsSafe o _ (releases n t e) safe = release-IsSafe n t o e safe

pub Reach-IsSafe : (o : Ops) → Reach o → IsSafe o
Reach-IsSafe _ starts = start-IsSafe
Reach-IsSafe _ (then_step {o = o} {o' = o'} r st) = step-IsSafe o o' st (Reach-IsSafe o r)

-- In every order of the goroutines' steps, two that work on one instance are the same one.
pub Reach-exclusive :
    (o : Ops) (n m t u : ℕ)
    → Reach o
    → (o.ops n).pc ≡ working t
    → (o.ops m).pc ≡ working u
    → (o.ops n).id ≡ (o.ops m).id
    → n ≡ m
Reach-exclusive o n m t u r w w' e =
    let safe = Reach-IsSafe o r in
    safe.distinct n m t w (ground (arith, safe.held n t w, safe.held m u w'))

-- A destroy that waits for a create waits for a slot that is closed already, or that a goroutine still
-- works with and will close.
pub Reach-awaited :
    (o : Ops) (n t : ℕ)
    → Reach o
    → (o.ops n).pc ≡ waiting t
    → (o.closed t ≡ true) ⊎ ((m : ℕ) × ((o.ops m).pc ≡ working t))
Reach-awaited o n t r w = (Reach-IsSafe o r).waits n t w
