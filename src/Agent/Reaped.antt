-- ===== src/Agent/Reaped.antt =====
-- What the sweep does to the instances of one node that went offline (reapInstancesForOfflineNode of
-- services/main-api/internal/grpc/agent_stream.go).
use hybrid_cloud_with_claude.Prelude.{
  ℕ, ◌==◌, ◌≡◌, refl, ap, ◌∙◌, subst, sym, inl, inr, Bool, true, some, List, [], ◌∷◌, select_where,
  any_where, count_where, Bool-cases, if◌then◌else◌, arith,
}
use mathlib.Core.List.{Memᴰ}
use mathlib.Core.List.Memᴰ
use hybrid_cloud_with_claude.Prelude.Members.{mem-select, select-mem}
use hybrid_cloud_with_claude.Schema.{failed, Instance, Db}
use hybrid_cloud_with_claude.Store.{World, Result, ok, statement}
use hybrid_cloud_with_claude.Instance.Machine.{can_transition}
use hybrid_cloud_with_claude.Instance.Queries.{holds, list_non_terminal_instances_for_node}
use hybrid_cloud_with_claude.Instance.Rows.{row_of, state_in, state_of}
use hybrid_cloud_with_claude.Agent.Sweeper.{reap_listed, reap_instances_for_offline_node}
use hybrid_cloud_with_claude.Agent.Reaping.{Keyed, Kept, is_live, is_at, reap_rows-Reaped}

any-mem :
    (j : ℕ) (rows : List Instance)
    → any_where (is_at j) rows ≡ true
    → (i : Instance) × Memᴰ i rows × (i.id ≡ j)
any-mem j [] h = absurd (ground arith)
any-mem j (x ∷ rows) h = elim (Bool-cases (x.id == j)) [
  | inl t ↦ (x, Memᴰ.head refl, ground arith)
  | inr f ↦ let (i, m, e) = any-mem j rows (ground arith) in (i, Memᴰ.tail m, e)
]

mem-any :
    (j : ℕ) (rows : List Instance) (i : Instance)
    → Memᴰ i rows
    → i.id ≡ j
    → any_where (is_at j) rows ≡ true
mem-any j [] i m e = absurd (Memᴰ.not-nil m)
mem-any j (x ∷ rows) i m e = elim (Memᴰ.cases_cons m) [
  | inl same ↦ let at : x.id ≡ j = ap (λ (y : Instance). y.id) (sym same) ∙ e in ground arith
  | inr m' ↦ ground (arith, mem-any j rows i m' e)
]

row-mem :
    (j : ℕ) (rows : List Instance) {i : Instance}
    → row_of j rows ≡ some i
    → Memᴰ i rows × (i.id ≡ j)
row-mem j [] h = absurd (ground arith)
row-mem j (x ∷ rows) {i} h = elim (Bool-cases (x.id == j)) [
  | inl t ↦ let e : i ≡ x = ground arith in (Memᴰ.head e, ground arith)
  | inr f ↦ let (m, e) = row-mem j rows {i = i} (ground arith) in (Memᴰ.tail m, e)
]

-- The listed rows, by the row that an id finds.
any-listed :
    (j : ℕ) (p : Instance → Bool) (rows : List Instance) (cur : Instance)
    → Keyed rows
    → row_of j rows ≡ some cur
    → any_where (is_at j) (select_where p rows) ≡ p cur
any-listed j p rows cur keyed found =
    let (m, at) = row-mem j rows {i = cur} found in
    elim (Bool-cases (p cur)) [
      | inl t ↦ mem-any j (select_where p rows) cur (select-mem p rows m t) at ∙ sym t
      | inr f ↦ elim (Bool-cases (any_where (is_at j) (select_where p rows))) [
        | inl t ↦
            let (i, inside, e) = any-mem j (select_where p rows) t in
            let (n, q) = mem-select p rows inside in
            let k : row_of j rows ≡ some i = subst (λ x. row_of x rows ≡ some i) e (keyed i n) in
            absurd (ground arith)
        | inr g ↦ g ∙ sym f
      ]
    ]

live-CanFail :
    (node_id : ℕ) (i : Instance) → is_live node_id i ≡ true → can_transition i.state failed ≡ true
unfolding can_transition
live-CanFail node_id i h = ground arith

list_live :
    (node_id : ℕ) (w : World)
    → w.faults ≡ []
    → statement (list_non_terminal_instances_for_node node_id) w
      ≡ (ok (select_where (is_live node_id) w.db.instances), w)
unfolding statement list_non_terminal_instances_for_node
list_live node_id w f = ground arith

-- The tables after the sweep of a node, for every row.
abbrev pub NodeReaped : ℕ → Db → Db → Type 0
NodeReaped node_id before after =
    (j : ℕ) (cur : Instance)
    → row_of j before.instances ≡ some cur
    → (state_of j after.instances ≡ some (if is_live node_id cur then failed else cur.state))
      × (count_where (holds j) after.slots
          ≡ (if is_live node_id cur then 0 else count_where (holds j) before.slots))

pub reap_node_works :
    (node_id : ℕ) (w : World)
    → w.faults ≡ []
    → Keyed w.db.instances
    → (db : Db) × (reap_instances_for_offline_node node_id w ≡ (ok tt, record w { db = db }))
      × NodeReaped node_id w.db db
      × Kept w.db db
unfolding reap_instances_for_offline_node
reap_node_works node_id w f keyed =
    let rows = select_where (is_live node_id) w.db.instances in
    let (db, e, h, kept) = reap_rows-Reaped rows w f λ i m.
      let (inside, live) = mem-select (is_live node_id) w.db.instances m in
      (i.state, ap state_in (keyed i inside), live-CanFail node_id i live) in
    let listed : statement (list_non_terminal_instances_for_node node_id) w ≡ (ok rows, w) =
      list_live node_id w f in
    (
      db,
      ap (λ (r : Result (List Instance) × World). reap_listed r.0 r.1) listed ∙ e,
      λ id cur found.
          let any = any-listed id (is_live node_id) w.db.instances cur keyed found in
          (
            (h id).0
                ∙ ap (λ b. if b then some failed else state_of id w.db.instances) any
                ∙ ground arith,
            (h id).1 ∙ ap (λ b. if b then 0 else count_where (holds id) w.db.slots) any,
          ),
      kept,
    )
