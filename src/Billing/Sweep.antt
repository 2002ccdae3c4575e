-- ===== src/Billing/Sweep.antt =====
-- Whom the sweep stops (sweepBankrupt of services/main-api/internal/billing/worker.go).
use mathlib.Core.List.{Memᴰ}
use mathlib.Core.List.Memᴰ
use hybrid_cloud_with_claude.Prelude.{
  ◌⊎◌, ℕ, ◌≡◌, inl, inr, refl, sym, ap, subst, ◌∙◌, Bool, true, false, some, List, [], ◌∷◌, ◌++◌,
  map, select_where, sort_by, leb, Bool-cases, arith,
}
use hybrid_cloud_with_claude.Prelude.Members.{mem-select, select-mem, mem-sort_by, sort_by-mem}
use hybrid_cloud_with_claude.Prelude.Int.{pos, leb_ℤ, ◌≤ℤ◌}
use hybrid_cloud_with_claude.Schema.{InstanceState, running, provisioning, Instance, Credit, Db}
use hybrid_cloud_with_claude.Store.{
  World, Result, ok, err, Q, statement, pure, bind_result, ◌>>=◌, ok-injective,
}
use hybrid_cloud_with_claude.Store.Laws.{>>=-ok}
use hybrid_cloud_with_claude.Instance.Queries.{list_instances, owned_by}
use hybrid_cloud_with_claude.Credit.Queries.{list_users_with_negative_balance}
use hybrid_cloud_with_claude.Credit.Repo.{users_with_negative_balance}
use hybrid_cloud_with_claude.Billing.Worker.{
  Destroy, is_sweepable, destroy_all, sweep_listed, sweep_users, sweep_bankrupt,
}

abbrev stop_of : Instance → Destroy
stop_of i = record { node_id = i.node_id; instance_id = i.id }

-- A message that stops an instance of one of the users, which runs or is being provisioned.
abbrev pub Stops : List Instance → List ℕ → Destroy → Type 0
Stops instances users d =
    (i : Instance) × (u : ℕ) × Memᴰ i instances
    × Memᴰ u users
    × (i.owner_id ≡ some u)
    × (is_sweepable i.state ≡ true)
    × (d ≡ stop_of i)

mem-destroy_all :
    (rows : List Instance) {d : Destroy}
    → Memᴰ d (destroy_all rows)
    → (i : Instance) × Memᴰ i rows × (is_sweepable i.state ≡ true) × (d ≡ stop_of i)
unfolding destroy_all
mem-destroy_all [] m = absurd (Memᴰ.not-nil m)
mem-destroy_all (i ∷ rest) m = elim (Bool-cases (is_sweepable i.state)) [
  | inl t ↦ elim (Memᴰ.cases_cons (rw t at m)) [
    | inl e ↦ (i, Memᴰ.head refl, t, e)
    | inr m' ↦ let (j, inside, s, e) = mem-destroy_all rest m' in (j, Memᴰ.tail inside, s, e)
  ]
  | inr f ↦ let (j, inside, s, e) = mem-destroy_all rest (rw f at m) in (j, Memᴰ.tail inside, s, e)
]

destroy_all-mem :
    (rows : List Instance) (i : Instance)
    → Memᴰ i rows
    → is_sweepable i.state ≡ true
    → Memᴰ (stop_of i) (destroy_all rows)
unfolding destroy_all
destroy_all-mem [] i m s = absurd (Memᴰ.not-nil m)
destroy_all-mem (j ∷ rest) i m s = elim (Memᴰ.cases_cons m) [
  | inl e ↦ rw (ap (λ (k : Instance). is_sweepable k.state) (sym e) ∙ s) (Memᴰ.head (ap stop_of e))
  | inr m' ↦ elim (Bool-cases (is_sweepable j.state)) [
    | inl t ↦ rw t (Memᴰ.tail (destroy_all-mem rest i m' s))
    | inr f ↦ rw f (destroy_all-mem rest i m' s)
  ]
]

owned-eq : (u : ℕ) (i : Instance) → owned_by (some u) i ≡ true → i.owner_id ≡ some u
owned-eq u i h = ground arith

eq-owned : (u : ℕ) (i : Instance) → i.owner_id ≡ some u → owned_by (some u) i ≡ true
eq-owned u i h = ground arith

abbrev owned_rows : ℕ → Db → List Instance
owned_rows u db =
    sort_by (λ a b. leb b.created_at a.created_at) (select_where (owned_by (some u)) db.instances)

list_same : (u : ℕ) (w : World) → (statement (list_instances (some u)) w).1.db ≡ w.db
unfolding statement list_instances
list_same u w = ground arith

list_rows :
    (u : ℕ) (w : World) {rows : List Instance}
    → (statement (list_instances (some u)) w).0 ≡ ok rows
    → rows ≡ owned_rows u w.db
unfolding statement list_instances
list_rows u w h = ground arith

list_works :
    (u : ℕ) (w : World)
    → w.faults ≡ []
    → (statement (list_instances (some u)) w ≡ (ok (owned_rows u w.db), w))
unfolding statement list_instances
list_works u w h = ground arith

abbrev join : Result (List Instance) → List Destroy → Q (List Destroy)
join r later = pure (sweep_listed r ++ later)

Stops-tail :
    (instances : List Instance) (u : ℕ) (users : List ℕ) (d : Destroy)
    → Stops instances users d
    → Stops instances (u ∷ users) d
Stops-tail instances u users d (i, v, m, n, o, s, e) = (i, v, m, Memᴰ.tail n, o, s, e)

mem-sweep_listed :
    (u : ℕ) (rest : List ℕ) (w : World) (d : Destroy) (r : Result (List Instance))
    → (statement (list_instances (some u)) w).0 ≡ r
    → Memᴰ d (sweep_listed r)
    → Stops w.db.instances (u ∷ rest) d
mem-sweep_listed u rest w d (err x) h m = absurd (Memᴰ.not-nil m)
mem-sweep_listed u rest w d (ok rows) h m =
    let (i, inside, s, e) = mem-destroy_all rows m in
    let (at, owned) = mem-select (owned_by (some u)) w.db.instances (
      mem-sort_by (λ (a b : Instance). leb b.created_at a.created_at) _
        (subst (λ l. Memᴰ i l) (list_rows u w h) inside)) in
    (i, u, at, Memᴰ.head refl, owned-eq u i owned, s, e)

-- Whatever fails, each message of the sweep stops a running or starting instance of one of the users.
sweep_users-Stops :
    (users : List ℕ) (w : World) {ds : List Destroy}
    → (sweep_users users w).0 ≡ ok ds
    → (d : Destroy) → Memᴰ d ds
    → Stops w.db.instances users d
unfolding sweep_users
sweep_users-Stops [] w h d m =
    absurd (Memᴰ.not-nil (subst (λ l. Memᴰ d l) (sym (ok-injective h)) m))
sweep_users-Stops (u ∷ rest) w h d m =
    let list = statement (list_instances (some u)) in
    let w₁ = (list w).1 in
    let (later, done, e) = >>=-ok (sweep_users rest) (join (list w).0) w₁ h in
    let same = ok-injective (ap (λ r. r.0) (sym e) ∙ h) in
    elim (Memᴰ.append_cases (sweep_listed (list w).0) (subst (λ l. Memᴰ d l) (sym same) m)) [
      | inl m' ↦ mem-sweep_listed u rest w d (list w).0 refl m'
      | inr m' ↦ Stops-tail w.db.instances u rest d (
          subst (λ (db : Db). Stops db.instances rest d) (list_same u w)
            (sweep_users-Stops rest w₁ done d m'))
    ]

abbrev bankrupt : Db → List Credit
bankrupt db = select_where (λ c. leb_ℤ c.balance_milli (pos 0)) db.credits

-- Running or starting.
abbrev pub IsActive : InstanceState → Type 0
IsActive s = (s ≡ running) ⊎ (s ≡ provisioning)

sweepable-IsActive : (s : InstanceState) → is_sweepable s ≡ true → IsActive s
unfolding is_sweepable
sweepable-IsActive running h = inl refl
sweepable-IsActive provisioning h = inr refl
sweepable-IsActive s h = ground arith

IsActive-sweepable : (s : InstanceState) → IsActive s → is_sweepable s ≡ true
unfolding is_sweepable
IsActive-sweepable s (inl e) = rw e refl
IsActive-sweepable s (inr e) = rw e refl

-- The instance's owner has a row in `credits` whose balance is not positive.
abbrev pub StopsBankrupt : Db → Destroy → Type 0
StopsBankrupt db d =
    (i : Instance) × (c : Credit) × Memᴰ i db.instances
    × Memᴰ c db.credits
    × (c.balance_milli ≤ℤ pos 0)
    × (i.owner_id ≡ some c.user_id)
    × IsActive i.state
    × (d ≡ stop_of i)

users_same : (w : World) → (users_with_negative_balance w).1.db ≡ w.db
unfolding users_with_negative_balance list_users_with_negative_balance
users_same w = ground arith

users_listed :
    (w : World) {users : List ℕ}
    → (users_with_negative_balance w).0 ≡ ok users
    → users ≡ map (λ c. c.user_id) (bankrupt w.db)
unfolding users_with_negative_balance list_users_with_negative_balance
users_listed w h = ground arith

Stops-StopsBankrupt :
    (db : Db) (d : Destroy)
    → Stops db.instances (map (λ c. c.user_id) (bankrupt db)) d
    → StopsBankrupt db d
Stops-StopsBankrupt db d (i, u, m, n, o, s, e) =
    let (c, inside, same) = Memᴰ.of_map (λ (c : Credit). c.user_id) (bankrupt db) n in
    let (at, low) = mem-select (λ (c : Credit). leb_ℤ c.balance_milli (pos 0)) db.credits inside in
    (i, c, m, at, ground arith, o ∙ ap some (sym same), sweepable-IsActive i.state s, e)

-- Whatever fails, the sweep sends no message but one that stops a running or starting instance whose
-- owner's balance is not positive.
pub sweep-StopsBankrupt :
    (has_dispatcher : Bool) (w : World) {ds : List Destroy}
    → (sweep_bankrupt has_dispatcher w).0 ≡ ok ds
    → (d : Destroy) → Memᴰ d ds
    → StopsBankrupt w.db d
unfolding sweep_bankrupt
sweep-StopsBankrupt false w h d m =
    absurd (Memᴰ.not-nil (subst (λ l. Memᴰ d l) (sym (ok-injective h)) m))
sweep-StopsBankrupt true w h d m =
    let (users, done, e) = >>=-ok users_with_negative_balance sweep_users w h in
    let w₁ = (users_with_negative_balance w).1 in
    let stops = sweep_users-Stops users w₁ (ap (λ r. r.0) (sym e) ∙ h) d m in
    Stops-StopsBankrupt w.db d (
      subst (λ us. Stops w.db.instances us d) (users_listed w done)
        (subst (λ (db : Db). Stops db.instances users d) (users_same w) stops))

sweep_list : List ℕ → Db → List Destroy
sweep_list [] db = []
sweep_list (u ∷ rest) db = destroy_all (owned_rows u db) ++ sweep_list rest db

sweep_users_works :
    (users : List ℕ) (w : World)
    → w.faults ≡ []
    → sweep_users users w ≡ (ok (sweep_list users w.db), w)
unfolding sweep_users sweep_list
sweep_users_works [] w f = refl
sweep_users_works (u ∷ rest) w f =
    let go : Result (List Instance) → Q (List Destroy) = λ r. sweep_users rest >>= join r in
    ap (λ (r : Result (List Instance) × World). go r.0 r.1) (list_works u w f)
    ∙ ap (λ (r : Result (List Destroy) × World). bind_result (join (ok (owned_rows u w.db))) r)
        (sweep_users_works rest w f)

sweep_list-mem :
    (users : List ℕ) (db : Db) (i : Instance) (u : ℕ)
    → Memᴰ i db.instances
    → Memᴰ u users
    → i.owner_id ≡ some u
    → is_sweepable i.state ≡ true
    → Memᴰ (stop_of i) (sweep_list users db)
unfolding sweep_list
sweep_list-mem [] db i u m n o s = absurd (Memᴰ.not-nil n)
sweep_list-mem (v ∷ rest) db i u m n o s = elim (Memᴰ.cases_cons n) [
  | inl e ↦ Memᴰ.append_left (sweep_list rest db) (
      destroy_all-mem (owned_rows v db) i
        (sort_by-mem (λ (a b : Instance). leb b.created_at a.created_at) _
          (select-mem (owned_by (some v)) db.instances m (eq-owned v i (o ∙ ap some e))))
        s)
  | inr n' ↦ Memᴰ.append_right (destroy_all (owned_rows v db)) (sweep_list-mem rest db i u m n' o s)
]

users_work :
    (w : World)
    → w.faults ≡ []
    → users_with_negative_balance w ≡ (ok (map (λ c. c.user_id) (bankrupt w.db)), w)
unfolding users_with_negative_balance list_users_with_negative_balance
users_work w f = ground arith

sweep_works :
    (w : World)
    → w.faults ≡ []
    → sweep_bankrupt true w ≡ (ok (sweep_list (map (λ c. c.user_id) (bankrupt w.db)) w.db), w)
unfolding sweep_bankrupt
sweep_works w f =
    ap (λ (r : Result (List ℕ) × World). bind_result sweep_users r) (users_work w f)
    ∙ sweep_users_works (map (λ c. c.user_id) (bankrupt w.db)) w f

-- With a connection that works, every running or starting instance whose owner's balance is not
-- positive is sent its stop, and the tables stay as they are.
pub sweep_complete :
    (w : World)
    → w.faults ≡ []
    → (i : Instance) (c : Credit) → Memᴰ i w.db.instances
    → Memᴰ c w.db.credits
    → i.owner_id ≡ some c.user_id
    → c.balance_milli ≤ℤ pos 0
    → IsActive i.state
    → (ds : List Destroy) × (sweep_bankrupt true w ≡ (ok ds, w)) × Memᴰ (stop_of i) ds
sweep_complete w f i c m n o low s = (
  sweep_list (map (λ c. c.user_id) (bankrupt w.db)) w.db,
  sweep_works w f,
  sweep_list-mem (map (λ c. c.user_id) (bankrupt w.db)) w.db i c.user_id m
      (Memᴰ.map (λ (c : Credit). c.user_id)
        (select-mem (λ (c : Credit). leb_ℤ c.balance_milli (pos 0)) w.db.credits n (ground arith)))
      o (IsActive-sweepable i.state s),
)
