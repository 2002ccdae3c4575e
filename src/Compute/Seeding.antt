-- ===== src/Compute/Seeding.antt =====
-- From a profile to the rows of the slots: what Resolve accepts (compute-agent's profile.go), main-api
-- can store (SyncFromProfile of services/main-api/internal/slot/repo.go).
use hybrid_cloud_with_claude.Prelude.{
  ℕ, ◌+◌, ◌≤◌, ◌==◌, ◌≡◌, ◌≢◌, refl, sym, ap, subst, ◌∙◌, true, false, ◌&&◌, ◌||◌, String, str_eq,
  str_eq_iff, List, [], ◌∷◌, ◌++◌, any_where, find_where, count_where, delete_where, All, some,
  Bool-cases, inl, inr, arith,
}
use hybrid_cloud_with_claude.Prelude.Int.{ℤ, pos, ◌<ℤ◌, eq_ℤ}
use hybrid_cloud_with_claude.Schema.{GpuSlot, Node, Db}
use hybrid_cloud_with_claude.Store.{
  World, Result, Q, ok, err, draw, settle, begin_on, statement, in_tx, pure, ◌>>=◌,
}
use hybrid_cloud_with_claude.Store.Laws.{>>=-of_ok}
use hybrid_cloud_with_claude.Slot.Queries.{
  on_node, new_slot, insert_slot, delete_slots_for_node, update_node_profile_hash,
  count_non_free_slots_for_node, get_node,
}
use hybrid_cloud_with_claude.Slot.Repo.{
  insert_params, insert_all, replace_slots, sync_body, sync_from_profile, sync_replaced,
}
use hybrid_cloud_with_claude.Slot.Sync.{non_free_on, Inserted, sync-Outcome}
use hybrid_cloud_with_claude.Compute.Profile.{
  SlotYaml, ProfileFile, Resolved, valid, resolve, slot_spec, proto_from, proto,
}
use hybrid_cloud_with_claude.Compute.Layouts.{IsSlot, resolve_iff}

-- A row that neither the uuids to come nor the indexes from `i` on run into.
abbrev pub Clear : ℕ → ℕ → (ℕ → ℕ) → ℕ → GpuSlot → Type 0
Clear node_id i uuids drawn s =
    ((k : ℕ) → drawn ≤ k → s.id ≢ uuids k) × (s.node_id ≡ node_id → s.slot_index <ℤ pos i)

-- The node exists, the connection works, and the rows are clear.
record Open (node_id i : ℕ) (w : World) : Type 0 where
  works : w.faults ≡ []
  exists : any_where (λ n. n.id == node_id) w.db.nodes ≡ true
  clear : All (Clear node_id i w.uuids w.drawn) w.db.slots
  apart : (k l : ℕ) → w.uuids k ≡ w.uuids l → k ≡ l

no_clash :
    (node_id i uuid drawn : ℕ) (uuids : ℕ → ℕ) (slots : List GpuSlot)
    → uuid ≡ uuids drawn
    → All (Clear node_id i uuids drawn) slots
    → any_where (λ s. s.id == uuid || (on_node node_id s && eq_ℤ s.slot_index (pos i))) slots
      ≡ false
no_clash node_id i uuid drawn uuids [] e c = refl
no_clash node_id i uuid drawn uuids (s ∷ slots) e c =
    ground (arith, c.0.0 drawn, c.0.1, no_clash node_id i uuid drawn uuids slots e c.1)

Clear-on :
    (node_id i drawn : ℕ) (uuids : ℕ → ℕ) (slots : List GpuSlot) (new : GpuSlot)
    → ((k l : ℕ) → uuids k ≡ uuids l → k ≡ l)
    → new.id ≡ uuids drawn
    → new.slot_index ≡ pos i
    → All (Clear node_id i uuids drawn) slots
    → All (Clear node_id (i + 1) uuids (drawn + 1)) (slots ++ new ∷ [])
Clear-on node_id i drawn uuids [] new apart e f c =
    (((λ k le h. omega (arith, apart drawn k (sym e ∙ h))), (λ _. ground arith)), tt)
Clear-on node_id i drawn uuids (s ∷ slots) new apart e f c = (
  ((λ k le h. c.0.0 k (omega arith) h), (λ h. omega (arith, c.0.1 h))),
  Clear-on node_id i drawn uuids slots new apart e f c.1,
)

insert_works :
    (node_id i : ℕ) (s : SlotYaml) (w : World)
    → Open node_id i w
    → pos 0 <ℤ s.size
    → let p = insert_params node_id (slot_spec i s) in
      let uuid = w.uuids w.drawn in
      statement (insert_slot uuid p) (record w { drawn = w.drawn + 1 }) ≡ (
        ok tt,
        record w {
          db = record w.db { slots = w.db.slots ++ new_slot uuid p ∷ [] };
          drawn = w.drawn + 1;
        },
      )
unfolding statement insert_slot
insert_works node_id i s w o positive =
    rw
      (
        o.works,
        no_clash node_id i (w.uuids w.drawn) w.drawn w.uuids w.db.slots refl o.clear,
        o.exists,
      )
      (ground arith)

abbrev Positive : SlotYaml → Type 0
Positive s = pos 0 <ℤ s.size

insert_all_works :
    (node_id i : ℕ) (slots : List SlotYaml) (w : World)
    → Open node_id i w
    → All Positive slots
    → ((insert_all node_id (proto_from i slots) w).0 ≡ ok tt)
      × ((insert_all node_id (proto_from i slots) w).1.faults ≡ [])
unfolding insert_all proto_from
insert_all_works node_id i [] w o each = (refl, o.works)
insert_all_works node_id i (s ∷ rest) w o each =
    let new = new_slot (w.uuids w.drawn) (insert_params node_id (slot_spec i s)) in
    let w' : World = record w {
      db = record w.db { slots = w.db.slots ++ new ∷ [] };
      drawn = w.drawn + 1;
    } in
    let o' : Open node_id (i + 1) w' = record {
      works = o.works;
      exists = o.exists;
      clear = Clear-on node_id i w.drawn w.uuids w.db.slots new o.apart refl refl o.clear;
      apart = o.apart;
    } in
    rw (insert_works node_id i s w o each.0) (insert_all_works node_id (i + 1) rest w' o' each.1)

Clear-delete :
    (node_id drawn : ℕ) (uuids : ℕ → ℕ) (slots : List GpuSlot)
    → All (λ s. (k : ℕ) → drawn ≤ k → s.id ≢ uuids k) slots
    → All (Clear node_id 0 uuids drawn) (delete_where (on_node node_id) slots)
Clear-delete node_id drawn uuids [] c = tt
Clear-delete node_id drawn uuids (s ∷ slots) c = elim (Bool-cases (on_node node_id s)) [
  | inl t ↦ rw t (Clear-delete node_id drawn uuids slots c.1)
  | inr f ↦ rw f ((c.0, (λ e. absurd (ground arith))), Clear-delete node_id drawn uuids slots c.1)
]

-- The last statement of a replacement works too.
finish_works :
    (now node_id : ℕ) (hash : String) (w : World)
    → w.faults ≡ []
    → (((statement (update_node_profile_hash now node_id hash) >>= λ _. pure sync_replaced) w).0
        ≡ ok sync_replaced)
      × (((statement (update_node_profile_hash now node_id hash) >>= λ _. pure sync_replaced)
            w).1.faults
          ≡ [])
unfolding statement update_node_profile_hash
finish_works now node_id hash w h = (rw h refl, rw h refl)

delete_works :
    (node_id : ℕ) (w : World)
    → w.faults ≡ []
    → statement (delete_slots_for_node node_id) w
      ≡ (ok tt, record w { db = record w.db { slots = delete_where (on_node node_id) w.db.slots } })
unfolding statement delete_slots_for_node
delete_works node_id w h = rw h (ground arith)

count_works :
    (node_id : ℕ) (w : World)
    → w.faults ≡ []
    → statement (count_non_free_slots_for_node node_id) w
      ≡ (ok (count_where (non_free_on node_id) w.db.slots), w)
unfolding statement count_non_free_slots_for_node
count_works node_id w h = rw h (ground arith)

-- The rows of the database are older than the uuids to come.
abbrev pub Older : World → GpuSlot → Type 0
Older w s = (k : ℕ) → w.drawn ≤ k → s.id ≢ w.uuids k

replace_slots_works :
    (node_id : ℕ) (hash : String) (slots : List SlotYaml) (w : World)
    → w.faults ≡ []
    → any_where (λ n. n.id == node_id) w.db.nodes ≡ true
    → ((k l : ℕ) → w.uuids k ≡ w.uuids l → k ≡ l)
    → All (Older w) w.db.slots
    → All Positive slots
    → ((replace_slots node_id hash (proto_from 0 slots) w).0 ≡ ok sync_replaced)
      × ((replace_slots node_id hash (proto_from 0 slots) w).1.faults ≡ [])
unfolding replace_slots
replace_slots_works node_id hash slots w works exists apart older each =
    let w₁ : World = record w {
      db = record w.db { slots = delete_where (on_node node_id) w.db.slots };
    } in
    let (inserted, works') =
      insert_all_works node_id 0 slots w₁
        (record {
          works = works;
          exists = exists;
          clear = Clear-delete node_id w.drawn w.uuids w.db.slots older;
          apart = apart;
        })
        each in
    let after = (insert_all node_id (proto_from 0 slots) w₁).1 in
    rw
      (
        delete_works node_id w works,
        >>=-of_ok (insert_all node_id (proto_from 0 slots)) _ w₁ inserted,
      )
      (finish_works w.now node_id hash after works')

sync_body_works :
    (node_id : ℕ) (hash : String) (slots : List SlotYaml) (w : World)
    → w.faults ≡ []
    → any_where (λ n. n.id == node_id) w.db.nodes ≡ true
    → ((k l : ℕ) → w.uuids k ≡ w.uuids l → k ≡ l)
    → All (Older w) w.db.slots
    → All Positive slots
    → count_where (non_free_on node_id) w.db.slots ≡ 0
    → ((sync_body node_id hash (proto_from 0 slots) w).0 ≡ ok sync_replaced)
      × ((sync_body node_id hash (proto_from 0 slots) w).1.faults ≡ [])
unfolding sync_body
sync_body_works node_id hash slots w works exists apart older each all_free =
    rw (count_works node_id w works, all_free)
      (replace_slots_works node_id hash slots w works exists apart older each)

commits :
    {A : Type 0} (before : Db) (r : Result A × World) {a : A}
    → r.0 ≡ ok a
    → r.1.faults ≡ []
    → (settle before r).0 ≡ ok a
commits before (ok b, w) done works = rw works done
commits before (err e, w) done works = cc

-- A transaction over a connection that works returns what its body returns.
in_tx_works :
    {A : Type 0} (body : Q A) (w : World) {a : A}
    → w.faults ≡ []
    → (body w).0 ≡ ok a
    → (body w).1.faults ≡ []
    → (in_tx body w).0 ≡ ok a
unfolding in_tx
in_tx_works body w {a} works done works' =
    let same : w ≡ record w { faults = [] } = ap (λ f. record w { faults = f }) works in
    subst (λ d. (begin_on body d w).0 ≡ ok a) (ap draw (sym works))
      (subst (λ v. (settle w.db (body v)).0 ≡ ok a) same (commits w.db (body w) done works'))

get_node_works :
    (node_id : ℕ) (n : Node) (w : World)
    → w.faults ≡ []
    → find_where (λ n. n.id == node_id) w.db.nodes ≡ some n
    → statement (get_node node_id) w ≡ (ok n, w)
unfolding statement get_node
get_node_works node_id n w h found = rw (h, found) (ground arith)

any-of_find :
    (node_id : ℕ) (nodes : List Node) (n : Node)
    → find_where (λ n. n.id == node_id) nodes ≡ some n
    → any_where (λ n. n.id == node_id) nodes ≡ true
any-of_find node_id [] n h = absurd (ground arith)
any-of_find node_id (m ∷ nodes) n h = ground (arith, any-of_find node_id nodes n)

each-Positive :
    (known : List ℤ) (slots : List SlotYaml) → All (IsSlot known) slots → All Positive slots
each-Positive known [] each = tt
each-Positive known (s ∷ slots) each = (each.0.0, each-Positive known slots each.1)

str_ne : (a b : String) → a ≢ b → str_eq a b ≡ false
str_ne a b ne = ground (arith, str_eq_iff a b)

-- The slots of a profile that Resolve accepts can be stored: on a node that exists, whose slots are all
-- free (none is reserved, in use or draining) and which knows another hash, over a connection that works,
-- and with uuids that are new and differ, the sync answers `replaced`, and the node has exactly the
-- profile's slots, numbered from 0 and free, while the other nodes' slots are as before.
pub resolve-sync :
    (f : ProfileFile) (hash : String) (host_gpus : List ℤ) (r : Resolved) (node_id : ℕ) (n : Node)
    (w : World)
    → resolve f hash host_gpus ≡ valid r
    → w.faults ≡ []
    → find_where (λ n. n.id == node_id) w.db.nodes ≡ some n
    → n.profile_hash ≢ r.hash
    → ((k l : ℕ) → w.uuids k ≡ w.uuids l → k ≡ l)
    → All (Older w) w.db.slots
    → count_where (non_free_on node_id) w.db.slots ≡ 0
    → ((sync_from_profile node_id r.hash (proto r) w).0 ≡ ok sync_replaced)
      × Inserted node_id
          (proto r)
          (delete_where (on_node node_id) w.db.slots)
          (sync_from_profile node_id r.hash (proto r) w).1.db.slots
unfolding sync_from_profile proto
resolve-sync f hash host_gpus r node_id n w resolved works found changed apart older all_free =
    let (l, named, layout, e) = (resolve_iff f hash host_gpus r).0 resolved in
    let each : All Positive r.slots = rw e (each-Positive host_gpus l.slots layout.each) in
    let (body, works') =
      sync_body_works node_id r.hash r.slots w works (any-of_find node_id w.db.nodes n found) apart
        older each all_free in
    let done : (sync_from_profile node_id r.hash (proto r) w).0 ≡ ok sync_replaced =
      rw (get_node_works node_id n w works found, str_ne n.profile_hash r.hash changed)
        (in_tx_works (sync_body node_id r.hash (proto r)) w works body works') in
    (done, (sync-Outcome node_id r.hash (proto r) w {r = sync_replaced} done).1)
