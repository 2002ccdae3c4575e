-- ===== src/Agent/Reaping.antt =====
-- What the reaping of some instances does to the tables (reapInstancesForOfflineNode of
-- services/main-api/internal/grpc/agent_stream.go).
use hybrid_cloud_with_claude.Prelude.{
  ℕ, ◌==◌, ◌≡◌, refl, ap, ◌∙◌, subst, sym, inl, inr, Bool, true, ◌&&◌, ◌||◌, some, List, [], ◌∷◌,
  update_where, any_where, count_where, Bool-cases, Option-cases, if◌then◌else◌, arith,
}
use mathlib.Core.List.{Memᴰ}
use mathlib.Core.List.Memᴰ
use hybrid_cloud_with_claude.Schema.{
  InstanceState, pending, provisioning, running, failed, state_eq, Instance, GpuSlot, Db,
}
use hybrid_cloud_with_claude.Store.{World, ok, statement}
use hybrid_cloud_with_claude.Store.Laws.{>>=-of_ok}
use hybrid_cloud_with_claude.Instance.Machine.{can_transition, validate}
use hybrid_cloud_with_claude.Instance.Queries.{holds}
use hybrid_cloud_with_claude.Instance.Repo.{check_transition, params_of}
use hybrid_cloud_with_claude.Instance.Rows.{row_of, state_of, row_of-update}
use hybrid_cloud_with_claude.Instance.Audit.{transitioned}
use hybrid_cloud_with_claude.Instance.Works.{transition_allowed}
use hybrid_cloud_with_claude.Slot.Queries.{free_row, release_slots_for_instance}
use hybrid_cloud_with_claude.Slot.Repo.{release_for_instance}
use hybrid_cloud_with_claude.Agent.Sweeper.{offline_options, reap_one, reap_rows}
use hybrid_cloud_with_claude.Prelude.{ℕ, Option, none, false}
use hybrid_cloud_with_claude.Instance.Queries.{has_id, with_state, UpdateInstanceStateParams}

abbrev pub is_live : ℕ → Instance → Bool
is_live node_id i =
    i.node_id == node_id
    && (state_eq i.state pending || state_eq i.state provisioning || state_eq i.state running)

-- Each row is the one that its id finds: ids are a primary key.
abbrev pub Keyed : List Instance → Type 0
Keyed rows = (i : Instance) → Memᴰ i rows → row_of i.id rows ≡ some i

abbrev pub node_in : Option Instance → Option ℕ
node_in none = none
node_in (some i) = some i.node_id

abbrev pub CanFail : Db → ℕ → Type 0
CanFail db id =
    (s : InstanceState) × (state_of id db.instances ≡ some s) × (can_transition s failed ≡ true)

abbrev pub is_at : ℕ → Instance → Bool
is_at id i = i.id == id

-- The instances of the rows are failed and hold no slot; the others are as before.
abbrev pub Reaped : List Instance → Db → Db → Type 0
Reaped rows before after =
    (j : ℕ)
    → (state_of j after.instances
        ≡ (if any_where (is_at j) rows then some failed else state_of j before.instances))
      × (count_where (holds j) after.slots
          ≡ (if any_where (is_at j) rows then 0 else count_where (holds j) before.slots))

abbrev reaped_db : ℕ → Instance → World → Db
reaped_db id cur w = record (transitioned id failed offline_options cur w.now w.db) {
  slots = update_where (holds id) free_row w.db.slots;
}

reap_one_works :
    (row cur : Instance) (w : World)
    → w.faults ≡ []
    → row_of row.id w.db.instances ≡ some cur
    → can_transition cur.state failed ≡ true
    → reap_one row w ≡ (ok tt, record w { db = reaped_db row.id cur w })
unfolding check_transition validate
reap_one_works row cur w f found can =
    rw (transition_allowed row.id failed offline_options w cur f refl found (ground arith))
      (unfold release_for_instance release_slots_for_instance statement in ground arith)

count-freed :
    (id j : ℕ) (slots : List GpuSlot)
    → count_where (holds j) (update_where (holds id) free_row slots)
      ≡ (if id == j then 0 else count_where (holds j) slots)
count-freed id j [] = ground arith
count-freed id j (s ∷ slots) = ground (arith, count-freed id j slots)

reaped_db-Reaped :
    (row cur : Instance) (w : World)
    → row_of row.id w.db.instances ≡ some cur
    → Reaped (row ∷ []) w.db (reaped_db row.id cur w)
reaped_db-Reaped row cur w found j = (
  ground (arith, row_of-update w.now j (params_of row.id failed offline_options) w.db.instances),
  ground (arith, count-freed row.id j w.db.slots),
)

-- Each row is still the one that its id finds and on the node that it was on, and the nodes are the same.
pub record Kept (before after : Db) : Type 0 where
  pub keyed : Keyed before.instances → Keyed after.instances
  pub placed : (j : ℕ) → node_in (row_of j after.instances) ≡ node_in (row_of j before.instances)
  pub same_nodes : after.nodes ≡ before.nodes

Kept-trans : (a b c : Db) → Kept a b → Kept b c → Kept a c
Kept-trans a b c h k = record {
  keyed = λ x. k.keyed (h.keyed x);
  placed = λ j. k.placed j ∙ h.placed j;
  same_nodes = k.same_nodes ∙ h.same_nodes;
}

mem-update :
    (now : ℕ) (p : UpdateInstanceStateParams) (rows : List Instance) {i : Instance}
    → Memᴰ i (update_where (has_id p.id) (with_state now p) rows)
    → (j : Instance) × Memᴰ j rows × (i ≡ (if has_id p.id j then with_state now p j else j))
mem-update now p [] m = absurd (Memᴰ.not-nil m)
mem-update now p (x ∷ rows) m = elim (Bool-cases (has_id p.id x)) [
  | inl t ↦ elim (Memᴰ.cases_cons (rw t at m)) [
    | inl e ↦ (x, Memᴰ.head refl, rw t e)
    | inr m' ↦ let (j, mj, e) = mem-update now p rows m' in (j, Memᴰ.tail mj, e)
  ]
  | inr f ↦ elim (Memᴰ.cases_cons (rw f at m)) [
    | inl e ↦ (x, Memᴰ.head refl, rw f e)
    | inr m' ↦ let (j, mj, e) = mem-update now p rows m' in (j, Memᴰ.tail mj, e)
  ]
]

updated-id :
    (now : ℕ) (p : UpdateInstanceStateParams) (j : Instance) (b : Bool)
    → (if b then with_state now p j else j).id ≡ j.id
updated-id now p j true = refl
updated-id now p j false = refl

updated-same :
    (now : ℕ) (p : UpdateInstanceStateParams) (i j : Instance)
    → i.id ≡ j.id
    → (if p.id == i.id then with_state now p j else j)
      ≡ (if has_id p.id j then with_state now p j else j)
updated-same now p i j same = ap (λ b. if b then with_state now p j else j) (ground (arith, same))

update-Keyed :
    (now : ℕ) (p : UpdateInstanceStateParams) (rows : List Instance)
    → Keyed rows
    → Keyed (update_where (has_id p.id) (with_state now p) rows)
update-Keyed now p rows keyed i m =
    let (j, mj, e) = mem-update now p rows m in
    let same : i.id ≡ j.id = ap (λ (y : Instance). y.id) e ∙ updated-id now p j (has_id p.id j) in
    let found : row_of i.id rows ≡ some j =
      subst (λ n. row_of n rows ≡ some j) (sym same) (keyed j mj) in
    row_of-update now i.id p rows
    ∙ rw found (ap some (updated-same now p i j same) ∙ ap some (sym e))

reaped_db-Kept : (id : ℕ) (cur : Instance) (w : World) → Kept w.db (reaped_db id cur w)
reaped_db-Kept id cur w = record {
  keyed = update-Keyed w.now (params_of id failed offline_options) w.db.instances;
  placed = λ j.
      ground (arith, row_of-update w.now j (params_of id failed offline_options) w.db.instances);
  same_nodes = refl;
}

Reaped-CanFail :
    (rows : List Instance) (a b : Db) → Reaped rows a b → (j : ℕ) → CanFail a j → CanFail b j
unfolding can_transition
Reaped-CanFail rows a b h j (s, e, can) = elim (Bool-cases (any_where (is_at j) rows)) [
  | inl t ↦ (failed, ground (arith, h j), refl)
  | inr f ↦ (s, ground (arith, h j), can)
]

Reaped-trans :
    (row : Instance) (rest : List Instance) (a b c : Db)
    → Reaped (row ∷ []) a b
    → Reaped rest b c
    → Reaped (row ∷ rest) a c
Reaped-trans row rest a b c h k j = ground (arith, h j, k j)

pub row-of_state :
    (id : ℕ) (rows : List Instance) {s : InstanceState}
    → state_of id rows ≡ some s
    → (cur : Instance) × (row_of id rows ≡ some cur) × (cur.state ≡ s)
row-of_state id rows h = elim (Option-cases (row_of id rows)) [
  | inl e ↦ absurd (ground arith)
  | inr (cur, e) ↦ (cur, e, ground arith)
]

reap_one-Reaped :
    (row : Instance) (w : World)
    → w.faults ≡ []
    → CanFail w.db row.id
    → (db : Db) × (reap_one row w ≡ (ok tt, record w { db = db }))
      × Reaped (row ∷ []) w.db db
      × Kept w.db db
reap_one-Reaped row w f (s, e, can) =
    let (cur, found, same) = row-of_state row.id w.db.instances e in
    (
      reaped_db row.id cur w,
      reap_one_works row cur w f found (ap (λ x. can_transition x failed) same ∙ can),
      reaped_db-Reaped row cur w found,
      reaped_db-Kept row.id cur w,
    )

pub reap_rows-Reaped :
    (rows : List Instance) (w : World)
    → w.faults ≡ []
    → ((i : Instance) → Memᴰ i rows → CanFail w.db i.id)
    → (db : Db) × (reap_rows rows w ≡ (ok tt, record w { db = db }))
      × Reaped rows w.db db
      × Kept w.db db
unfolding reap_rows
reap_rows-Reaped [] w f can = (
  w.db,
  refl,
  (λ j. (refl, refl)),
  record { keyed = λ x. x; placed = λ j. refl; same_nodes = refl },
)
reap_rows-Reaped (row ∷ rest) w f can =
    let (mid, e, h, kept) = reap_one-Reaped row w f (can row (Memᴰ.head refl)) in
    let (last, e', k, kept') =
      reap_rows-Reaped rest (record w { db = mid }) f
        (λ i m. Reaped-CanFail (row ∷ []) w.db mid h i.id (can i (Memᴰ.tail m))) in
    (
      last,
      >>=-of_ok (reap_one row) (λ _. reap_rows rest) w {a = tt} (ap (λ r. r.0) e)
          ∙ ap (λ r. reap_rows rest r.1) e
          ∙ e',
      Reaped-trans row rest w.db mid last h k,
      Kept-trans w.db mid last kept kept',
    )
