-- ===== src/Instance/Audit.antt =====
-- The audit log of services/main-api/internal/instance/repo.go: `instance_events` is the history of
-- `instances.state`.
use hybrid_cloud_with_claude.Prelude.{
  ℕ, ◌==◌, ◌≡◌, ◌⊎◌, inl, inr, refl, Bool, true, false, ◌&&◌, Option, some, none, Option-cases,
  List, [], ◌∷◌, ◌++◌, update_where, delete_where, if◌then◌else◌, subst, sym, ap, str_eq_iff, ◌≢◌,
  ==_refl, ℕ_discrete, arith,
}
use hybrid_cloud_with_claude.Schema.{
  InstanceState, pending, unknown, state_eq, Instance, InstanceEvent, Db,
}
use hybrid_cloud_with_claude.Store.{World, Error, ok, err, Result-cases}
use hybrid_cloud_with_claude.Store.Laws.{in_tx-err}
use hybrid_cloud_with_claude.Instance.Machine.{can_transition, validate}
use hybrid_cloud_with_claude.Instance.Queries.{
  has_id, CreateInput, with_state, new_instance, delete_instance,
}
use hybrid_cloud_with_claude.Instance.Repo.{
  TransitionOptions, create, transition, delete, check_transition, create_body, created_event,
  transition_body, params_of, event_of,
}
use hybrid_cloud_with_claude.Instance.Rows.{
  row_of, state_of, row_of-append, row_of-update, row_of-delete, any-row_of,
}

-- The event fits the state that the history has reached: `none` before the row exists.
abbrev pub fits : Option InstanceState → InstanceEvent → Bool
fits none e = elim e.from_state [ none ↦ state_eq e.to_state pending | some _ ↦ false ]
fits (some s) e = elim e.from_state [
  | none ↦ false
  | some f ↦ state_eq f s && can_transition s e.to_state
]

-- The state that the events of one instance lead to, or `none` if some event does not fit.
unfoldable pub replay :
    ℕ → List InstanceEvent → Option InstanceState → Option (Option InstanceState)
replay id [] at = some at
replay id (e ∷ es) at =
    let next = replay id es (some e.to_state) in
    let skip = replay id es at in
    if e.instance_id == id then (if fits at e then next else none) else skip

abbrev pub Audited : Db → Type 0
Audited db = (id : ℕ) → replay id db.events none ≡ some (state_of id db.instances)

replay-append :
    (id : ℕ) (es : List InstanceEvent) (e : InstanceEvent) (at : Option InstanceState)
    {s : Option InstanceState}
    → replay id es at ≡ some s
    → replay id (es ++ e ∷ []) at ≡ (
        if e.instance_id == id then (if fits s e then some (some e.to_state) else none) else some s)
unfolding replay
replay-append id [] e at h = ground arith
replay-append id (x ∷ es) e at {s} h =
    ground
      (arith, replay-append id es e (some x.to_state) {s = s}, replay-append id es e at {s = s})

transition-err :
    (id : ℕ) (to : InstanceState) (opts : TransitionOptions) (w : World) {e : Error}
    → (transition id to opts w).0 ≡ err e
    → (transition id to opts w).1.db ≡ w.db
unfolding transition
transition-err id to opts w h = elim (Result-cases (validate to)) [
  | inl (u, v) ↦ ground (arith, in_tx-err (transition_body id to opts) w)
  | inr (x, v) ↦ ground arith
]

abbrev pub transitioned : ℕ → InstanceState → TransitionOptions → Instance → ℕ → Db → Db
transitioned id to opts cur now db = record db {
  instances = update_where (has_id id) (with_state now (params_of id to opts)) db.instances;
  events = db.events ++ event_of now id cur.state to opts ∷ [];
}

abbrev Done : ℕ → InstanceState → TransitionOptions → World → Db → Type 0
Done id to opts w db =
    (cur : Instance) × (row_of id w.db.instances ≡ some cur)
    × (check_transition cur.state to opts.skip_idempotent ≡ ok tt)
    × (db ≡ transitioned id to opts cur w.now w.db)

transition-Done :
    (id : ℕ) (to : InstanceState) (opts : TransitionOptions) (w : World) (inst : Instance)
    → (transition id to opts w).0 ≡ ok inst
    → Done id to opts w (transition id to opts w).1.db
unfolding transition
transition-Done id to opts w inst h = elim (Option-cases (row_of id w.db.instances)) [
  | inl missing ↦ absurd (ground arith)
  | inr (cur, found) ↦ (cur, found, ground arith, ground arith)
]

transition_cases :
    (id : ℕ) (to : InstanceState) (opts : TransitionOptions) (w : World)
    → ((transition id to opts w).1.db ≡ w.db) ⊎ Done id to opts w (transition id to opts w).1.db
transition_cases id to opts w = elim (Result-cases (transition id to opts w).0) [
  | inl (inst, h) ↦ inr (transition-Done id to opts w inst h)
  | inr (e, h) ↦ inl (transition-err id to opts w h)
]

state_eq_refl : (s : InstanceState) → state_eq s s ≡ true
unfolding state_eq
state_eq_refl (unknown t) = (str_eq_iff t t).1 refl
state_eq_refl s = ground arith

-- The row's new state is what its log, with the new event, leads to.
transitioned-Audited :
    (id : ℕ) (to : InstanceState) (opts : TransitionOptions) (cur : Instance) (now : ℕ) (db : Db)
    → row_of id db.instances ≡ some cur
    → check_transition cur.state to opts.skip_idempotent ≡ ok tt
    → Audited db
    → Audited (transitioned id to opts cur now db)
unfolding check_transition
transitioned-Audited id to opts cur now db found allowed a j = ground (
  arith,
  replay-append j db.events (event_of now id cur.state to opts) none (a j),
  row_of-update now j (params_of id to opts) db.instances,
  state_eq_refl cur.state,
)

-- Whatever the connection does, a transition keeps the audit log in step with the rows: the events of
-- each instance are steps of the state machine, one from the other, that lead to the state of its row.
pub transition-Audited :
    (id : ℕ) (to : InstanceState) (opts : TransitionOptions) (w : World)
    → Audited w.db
    → Audited (transition id to opts w).1.db
transition-Audited id to opts w a = elim (transition_cases id to opts w) [
  | inl same ↦ subst Audited (sym same) a
  | inr (cur, found, allowed, e) ↦
      subst Audited (sym e) (transitioned-Audited id to opts cur w.now w.db found allowed a)
]

abbrev created : ℕ → ℕ → CreateInput → Db → Db
created uuid now input db = record db {
  instances = db.instances ++ new_instance uuid now input ∷ [];
  events = db.events ++ created_event uuid now ∷ [];
}

create_cases :
    (input : CreateInput) (w : World)
    → ((create input w).1.db ≡ w.db)
      ⊎ ((row_of (w.uuids w.drawn) w.db.instances ≡ none)
          × ((create input w).1.db ≡ created (w.uuids w.drawn) w.now input w.db))
unfolding create
create_cases input w = elim (Result-cases (create input w).0) [
  | inl (inst, h) ↦ inr (ground (arith, any-row_of (w.uuids w.drawn) w.db.instances))
  | inr (e, h) ↦ inl (in_tx-err (create_body input) w h)
]

created-Audited :
    (uuid now : ℕ) (input : CreateInput) (db : Db)
    → row_of uuid db.instances ≡ none
    → Audited db
    → Audited (created uuid now input db)
unfolding state_eq
created-Audited uuid now input db fresh a j = ground (
  arith,
  replay-append j db.events (created_event uuid now) none (a j),
  row_of-append j db.instances (new_instance uuid now input),
)

-- Whatever the connection does, the creation of an instance keeps the audit log in step with the rows.
pub create-Audited :
    (input : CreateInput) (w : World) → Audited w.db → Audited (create input w).1.db
create-Audited input w a = elim (create_cases input w) [
  | inl same ↦ subst Audited (sym same) a
  | inr (fresh, e) ↦
      subst Audited (sym e) (created-Audited (w.uuids w.drawn) w.now input w.db fresh a)
]

replay-delete_self :
    (id : ℕ) (es : List InstanceEvent) (at : Option InstanceState)
    → replay id (delete_where (λ e. e.instance_id == id) es) at ≡ some at
unfolding replay
replay-delete_self id [] at = refl
replay-delete_self id (e ∷ es) at = ground (arith, replay-delete_self id es at)

replay-delete_ne :
    (id k : ℕ) (es : List InstanceEvent) (at : Option InstanceState)
    → k ≢ id
    → replay id (delete_where (λ e. e.instance_id == k) es) at ≡ replay id es at
unfolding replay
replay-delete_ne id k [] at h = refl
replay-delete_ne id k (e ∷ es) at h =
    ground (arith, replay-delete_ne id k es (some e.to_state) h, replay-delete_ne id k es at h)

deleted : ℕ → Db → Db
deleted id db = (delete_instance id db).1

deleted-Audited : (id : ℕ) (db : Db) → Audited db → Audited (deleted id db)
unfolding deleted delete_instance
deleted-Audited id db a j = elim (ℕ_discrete id j) [
  | yes e ↦ rw (← e) (rw row_of-delete (rw (==_refl id) (replay-delete_self id db.events none)))
  | no ne ↦
      ground (arith, a j, replay-delete_ne j id db.events none ne, row_of-delete j id db.instances)
]

delete_cases :
    (id : ℕ) (w : World) → ((delete id w).1.db ≡ w.db) ⊎ ((delete id w).1.db ≡ deleted id w.db)
unfolding delete deleted
delete_cases id w = elim (Result-cases (delete id w).0) [
  | inl (inst, h) ↦ inr (ground arith)
  | inr (e, h) ↦ inl (ground arith)
]

-- Whatever the connection does, the removal of an instance keeps the audit log in step with the rows.
pub delete-Audited : (id : ℕ) (w : World) → Audited w.db → Audited (delete id w).1.db
delete-Audited id w a = elim (delete_cases id w) [
  | inl same ↦ subst Audited (sym same) a
  | inr e ↦ subst Audited (sym e) (deleted-Audited id w.db a)
]

pub transition_slots :
    (id : ℕ) (to : InstanceState) (opts : TransitionOptions) (w : World)
    → (transition id to opts w).1.db.slots ≡ w.db.slots
transition_slots id to opts w = elim (transition_cases id to opts w) [
  | inl same ↦ ap (λ db. db.slots) same
  | inr (cur, found, allowed, e) ↦ ap (λ db. db.slots) e
]

pub create_slots : (input : CreateInput) (w : World) → (create input w).1.db.slots ≡ w.db.slots
create_slots input w = elim (create_cases input w) [
  | inl same ↦ ap (λ db. db.slots) same
  | inr (fresh, e) ↦ ap (λ db. db.slots) e
]
