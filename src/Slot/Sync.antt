-- ===== src/Slot/Sync.antt =====
-- The sync of a node's slots with the profile that its agent reports
-- (SyncFromProfile of services/main-api/internal/slot/repo.go).
use hybrid_cloud_with_claude.Prelude.{
  ℕ, ◌+◌, ltb, ◌≡◌, refl, ap, subst, sym, ◌∙◌, Bool, true, false, not, ◌&&◌, List, [], ◌∷◌, ◌++◌,
  map, All, delete_where, count_where, if◌then◌else◌, String, str_eq, arith,
}
use mathlib.Core.List.{append-nil, append_assoc}
use hybrid_cloud_with_claude.Schema.{GpuSlot, Node, Db, free}
use hybrid_cloud_with_claude.Store.{
  World, Result, Q, pure, Error, ok, err, statement, in_tx, draw, ◌>>=◌,
}
use hybrid_cloud_with_claude.Store.Laws.{in_tx-err, >>=-ok, in_tx-ok}
use hybrid_cloud_with_claude.Slot.Queries.{
  on_node, has_status, new_slot, insert_slot, InsertSlotParams, delete_slots_for_node,
  update_node_profile_hash, count_non_free_slots_for_node, get_node,
}
use hybrid_cloud_with_claude.Slot.Repo.{
  ProfileSlot, SyncResult, insert_params, insert_all, replace_slots, sync_body, sync_from_profile,
  sync_replaced, sync_degraded, sync_unchanged,
}

-- What a profile says of a row.
abbrev pub spec_of : GpuSlot → ProfileSlot
spec_of s = record {
  slot_index = s.slot_index;
  gpu_count = s.gpu_count;
  gpu_indices = s.gpu_indices;
  nvlink_domain = s.nvlink_domain;
}

-- A new free row of the node.
abbrev pub IsNew : ℕ → GpuSlot → Type 0
IsNew node_id s = (s.node_id ≡ node_id) × (s.status ≡ free)

abbrev pub Inserted : ℕ → List ProfileSlot → List GpuSlot → List GpuSlot → Type 0
Inserted node_id specs before after =
    (rows : List GpuSlot) × (after ≡ before ++ rows)
    × (map spec_of rows ≡ specs)
    × All (IsNew node_id) rows

insert_slot_ok :
    (uuid : ℕ) (p : InsertSlotParams) (w : World) {u : Unit {0}}
    → (statement (insert_slot uuid p) w).0 ≡ ok u
    → (statement (insert_slot uuid p) w).1.db.slots ≡ w.db.slots ++ new_slot uuid p ∷ []
unfolding statement insert_slot
insert_slot_ok uuid p w h = ground arith

insert_all-Inserted :
    (node_id : ℕ) (specs : List ProfileSlot) (w : World)
    → (insert_all node_id specs w).0 ≡ ok tt
    → Inserted node_id specs w.db.slots (insert_all node_id specs w).1.db.slots
unfolding insert_all
insert_all-Inserted node_id [] w h = ([], sym (append-nil w.db.slots), refl, tt)
insert_all-Inserted node_id (s ∷ rest) w h =
    let w₁ = record w { drawn = w.drawn + 1 } in
    let first = statement (insert_slot (w.uuids w.drawn) (insert_params node_id s)) in
    let (u, done, e) = >>=-ok first (λ _. insert_all node_id rest) w₁ h in
    let (rows, after, specs, new) =
      insert_all-Inserted node_id rest (first w₁).1 (ap (λ r. r.0) (sym e) ∙ h) in
    (
      new_slot (w.uuids w.drawn) (insert_params node_id s) ∷ rows,
      ap (λ r. r.1.db.slots) e
          ∙ after
          ∙ ap (λ l. l ++ rows) (insert_slot_ok (w.uuids w.drawn) (insert_params node_id s) w₁ done)
          ∙ append_assoc w.db.slots (new_slot (w.uuids w.drawn) (insert_params node_id s) ∷ [])
              rows,
      ap (λ l. s ∷ l) specs,
      ((refl, refl), new),
    )

abbrev pub non_free_on : ℕ → GpuSlot → Bool
non_free_on node_id s = on_node node_id s && not (has_status free s)

-- What a sync does to the slots when it replaces them.
abbrev pub Replaced : ℕ → List ProfileSlot → List GpuSlot → List GpuSlot → Type 0
Replaced node_id specs before after =
    (count_where (non_free_on node_id) before ≡ 0)
    × Inserted node_id specs (delete_where (on_node node_id) before) after

delete_first :
    (node_id : ℕ) (w : World) {u : Unit {0}}
    → (statement (delete_slots_for_node node_id) w).0 ≡ ok u
    → (statement (delete_slots_for_node node_id) w).1.db.slots
      ≡ delete_where (on_node node_id) w.db.slots
unfolding statement delete_slots_for_node
delete_first node_id w h = ground arith

hash_keeps :
    (now node_id : ℕ) (hash : String) (w : World)
    → (statement (update_node_profile_hash now node_id hash) w).1.db.slots ≡ w.db.slots
unfolding statement update_node_profile_hash
hash_keeps now node_id hash w = ground arith

-- A replacement that succeeds says so.
abbrev Replacing : ℕ → List ProfileSlot → World → Result SyncResult × World → Type 0
Replacing node_id specs w r =
    (r.0 ≡ ok sync_replaced)
    × Inserted node_id specs (delete_where (on_node node_id) w.db.slots) r.1.db.slots

replace_slots-Replacing :
    (node_id : ℕ) (hash : String) (specs : List ProfileSlot) (w : World) {r : SyncResult}
    → (replace_slots node_id hash specs w).0 ≡ ok r
    → Replacing node_id specs w (replace_slots node_id hash specs w)
unfolding replace_slots
replace_slots-Replacing node_id hash specs w h =
    let delete = statement (delete_slots_for_node node_id) in
    let set_hash = statement (update_node_profile_hash w.now node_id hash) in
    let last : Q SyncResult = set_hash >>= λ _. pure sync_replaced in
    let w₁ = (delete w).1 in
    let w₂ = (insert_all node_id specs w₁).1 in
    let (u₁, done₁, e₁) = >>=-ok delete (λ _. insert_all node_id specs >>= λ _. last) w h in
    let h₁ = ap (λ r. r.0) (sym e₁) ∙ h in
    let (u₂, done₂, e₂) = >>=-ok (insert_all node_id specs) (λ _. last) w₁ h₁ in
    let h₂ = ap (λ r. r.0) (sym e₂) ∙ h₁ in
    let (u₃, done₃, e₃) = >>=-ok set_hash (λ _. pure sync_replaced) w₂ h₂ in
    let (rows, after, same, new) = insert_all-Inserted node_id specs w₁ done₂ in
    let e = e₁ ∙ e₂ ∙ e₃ in
    (
      ap (λ r. r.0) e,
      (
        rows,
        ap (λ r. r.1.db.slots) e
            ∙ hash_keeps w.now node_id hash w₂
            ∙ after
            ∙ ap (λ l. l ++ rows) (delete_first node_id w done₁),
        same,
        new,
      ),
    )

count_first :
    (node_id : ℕ) (w : World) {n : ℕ}
    → (statement (count_non_free_slots_for_node node_id) w).0 ≡ ok n
    → (n ≡ count_where (non_free_on node_id) w.db.slots)
      × ((statement (count_non_free_slots_for_node node_id) w).1.db ≡ w.db)
unfolding statement count_non_free_slots_for_node
count_first node_id w h = ground arith

abbrev pub Outcome : ℕ → List ProfileSlot → Db → SyncResult → Db → Type 0
Outcome node_id specs before sync_replaced after = Replaced node_id specs before.slots after.slots
Outcome node_id specs before _ after = after ≡ before

branch-Outcome :
    (node_id n : ℕ) (hash : String) (specs : List ProfileSlot) (before : Db) (w : World)
    → n ≡ count_where (non_free_on node_id) before.slots
    → w.db ≡ before
    → (b : Bool) → ltb 0 n ≡ b
    → {r : SyncResult}
    → ((if b then pure sync_degraded else replace_slots node_id hash specs) w).0 ≡ ok r
    → Outcome node_id specs before r
        ((if b then pure sync_degraded else replace_slots node_id hash specs) w).1.db
branch-Outcome node_id n hash specs before w counted same true t {r} h =
    let e : sync_degraded ≡ r = ground arith in
    subst (λ x. Outcome node_id specs before x w.db) e same
branch-Outcome node_id n hash specs before w counted same false t {r} h =
    let (replaced, inserted) = replace_slots-Replacing node_id hash specs w h in
    let e : sync_replaced ≡ r = cc (replaced, h) in
    let after = (replace_slots node_id hash specs w).1.db in
    subst (λ x. Outcome node_id specs before x after) e
      (
        ground arith,
        subst (λ x. Inserted node_id specs (delete_where (on_node node_id) x.slots) after.slots)
            same inserted,
      )

sync_body-Outcome :
    (node_id : ℕ) (hash : String) (specs : List ProfileSlot) (w : World) {r : SyncResult}
    → (sync_body node_id hash specs w).0 ≡ ok r
    → Outcome node_id specs w.db r (sync_body node_id hash specs w).1.db
unfolding sync_body
sync_body-Outcome node_id hash specs w {r} h =
    let count = statement (count_non_free_slots_for_node node_id) in
    let go : ℕ → Q SyncResult =
      λ n. if ltb 0 n then pure sync_degraded else replace_slots node_id hash specs in
    let (n, done, e) = >>=-ok count go w h in
    let (counted, same) = count_first node_id w done in
    subst (λ x. Outcome node_id specs w.db r x.1.db) (sym e)
      (branch-Outcome node_id n hash specs w.db (count w).1 counted same (ltb 0 n) refl
        (ap (λ x. x.0) (sym e) ∙ h))

in_tx-Outcome :
    (node_id : ℕ) (hash : String) (specs : List ProfileSlot) (w : World) {r : SyncResult}
    → (in_tx (sync_body node_id hash specs) w).0 ≡ ok r
    → Outcome node_id specs w.db r (in_tx (sync_body node_id hash specs) w).1.db
in_tx-Outcome node_id hash specs w {r} h =
    let (v, same, drawn, done, e) = in_tx-ok (sync_body node_id hash specs) w h in
    subst (λ x. Outcome node_id specs w.db r x) (sym e)
      (subst (λ x. Outcome node_id specs x r (sync_body node_id hash specs v).1.db) same
        (sync_body-Outcome node_id hash specs v done))

fetch_node : (node_id : ℕ) (w : World) → (statement (get_node node_id) w).1.db ≡ w.db
unfolding statement get_node
fetch_node node_id w = ground arith

resolve-Outcome :
    (node_id : ℕ) (hash : String) (specs : List ProfileSlot) (before : Db) (w : World)
    → w.db ≡ before
    → (b : Bool) {r : SyncResult}
    → ((if b then pure sync_unchanged else in_tx (sync_body node_id hash specs)) w).0 ≡ ok r
    → Outcome node_id specs before r
        ((if b then pure sync_unchanged else in_tx (sync_body node_id hash specs)) w).1.db
resolve-Outcome node_id hash specs before w same true {r} h =
    let e : sync_unchanged ≡ r = ground arith in
    subst (λ x. Outcome node_id specs before x w.db) e same
resolve-Outcome node_id hash specs before w same false {r} h =
    subst (λ x. Outcome node_id specs x r (in_tx (sync_body node_id hash specs) w).1.db) same
      (in_tx-Outcome node_id hash specs w h)

-- When a sync succeeds, either the answer is `replaced`, every slot of the node was free, the node
-- has exactly the profile's slots now, all of them free, and the other nodes' slots are as before;
-- or the answer is `unchanged` or `degraded` and no table has changed.
pub sync-Outcome :
    (node_id : ℕ) (hash : String) (specs : List ProfileSlot) (w : World) {r : SyncResult}
    → (sync_from_profile node_id hash specs w).0 ≡ ok r
    → Outcome node_id specs w.db r (sync_from_profile node_id hash specs w).1.db
unfolding sync_from_profile
sync-Outcome node_id hash specs w {r} h =
    let fetch = statement (get_node node_id) in
    let known : Node → Bool = λ node. str_eq node.profile_hash hash && not (str_eq hash "") in
    let go : Node → Q SyncResult =
      λ node. if known node then pure sync_unchanged else in_tx (sync_body node_id hash specs) in
    let (node, done, e) = >>=-ok fetch go w h in
    subst (λ x. Outcome node_id specs w.db r x.1.db) (sym e)
      (resolve-Outcome node_id hash specs w.db (fetch w).1 (fetch_node node_id w) (known node)
        (ap (λ x. x.0) (sym e) ∙ h))

-- A sync that fails changes no table.
pub sync-err :
    (node_id : ℕ) (hash : String) (specs : List ProfileSlot) (w : World) {x : Error}
    → (sync_from_profile node_id hash specs w).0 ≡ err x
    → (sync_from_profile node_id hash specs w).1.db ≡ w.db
unfolding sync_from_profile statement get_node
sync-err node_id hash specs w h =
    ground
      (arith, in_tx-err (sync_body node_id hash specs) (record w { faults = (draw w.faults).1 }))
