-- ===== src/Billing/Charges.antt =====
-- What a billing tick does to the books (charge of services/main-api/internal/billing/worker.go).
use mathlib.Core.List.{Memᴰ, append-nil, append_assoc}
use hybrid_cloud_with_claude.Prelude.{
  ℕ, ◌/◌, ◌≡◌, inl, inr, refl, sym, ap, subst, ◌∙◌, Option, some, none, List, [], ◌∷◌, ◌++◌, All,
  select_where, ◌&&◌, Bool-cases, arith,
}
use hybrid_cloud_with_claude.Prelude.Int.{pos, neg, eq_ℤ}
use hybrid_cloud_with_claude.Schema.{Instance, CreditLedger, Db, running, state_eq}
use hybrid_cloud_with_claude.Store.{World, ok, Q, statement, ◌>>=◌, Result-cases, clock}
use hybrid_cloud_with_claude.Store.Laws.{>>=-of_ok, >>=-of_err}
use hybrid_cloud_with_claude.Credit.Queries.{is_set, list_billable_running_instances}
use hybrid_cloud_with_claude.Credit.Repo.{post, entry_of}
use hybrid_cloud_with_claude.Credit.Books.{post-err, post-Posted}
use hybrid_cloud_with_claude.Billing.Rates.{RateTable, milli_per_minute}
use hybrid_cloud_with_claude.Billing.Worker.{
  BillingKey, charge_input, charge_owned, charge_rows, charge,
}

module _ (billing_key : BillingKey) (rates : Option RateTable) where
  -- An entry that charges one of the rows for the minute.
  abbrev pub IsCharge : ℕ → List Instance → CreditLedger → Type 0
  IsCharge bucket rows e =
      (i : Instance) × Memᴰ i rows
      × (i.owner_id ≡ some e.user_id)
      × (e.instance_id ≡ some i.id)
      × (e.idempotency_key ≡ billing_key i.id bucket)
      × (e.delta_milli ≡ neg (milli_per_minute rates i.gpu_count))

  -- The ledger grows by such entries alone.
  abbrev pub Charged : ℕ → List Instance → Db → Db → Type 0
  Charged bucket rows before after =
      (es : List CreditLedger) × (after.ledger ≡ before.ledger ++ es)
      × All (IsCharge bucket rows) es

  charge_one-Charged :
      (bucket owner : ℕ) (row : Instance) (rows : List Instance) (w : World)
      → row.owner_id ≡ some owner
      → Memᴰ row rows
      → Charged bucket rows w.db (post (charge_input billing_key rates owner bucket row) w).1.db
  charge_one-Charged bucket owner row rows w owned m =
      let input = charge_input billing_key rates owner bucket row in
      elim (Result-cases (post input w).0) [
        | inl (e, h) ↦ (
          entry_of w.now input ∷ [],
          (post-Posted input w h).1,
          ((row, m, owned, refl, refl, refl), tt),
        )
        | inr (x, h) ↦ (
          [],
          ap (λ (db : Db). db.ledger) (post-err input w h) ∙ sym (append-nil w.db.ledger),
          tt,
        )
      ]

  charge_owned-Charged :
      (bucket : ℕ) (owner : Option ℕ) (row : Instance) (rows : List Instance) (w : World)
      → row.owner_id ≡ owner
      → Memᴰ row rows
      → Charged bucket rows w.db (charge_owned billing_key rates owner bucket row w).1.db
  charge_owned-Charged bucket none row rows w owned m = ([], sym (append-nil w.db.ledger), tt)
  charge_owned-Charged bucket (some owner) row rows w owned m =
      elim (Bool-cases (eq_ℤ (milli_per_minute rates row.gpu_count) (pos 0))) [
        | inl free ↦ rw free ([], sym (append-nil w.db.ledger), tt)
        | inr paid ↦ rw paid (charge_one-Charged bucket owner row rows w owned m)
      ]

  charge_owned-ok :
      (bucket : ℕ) (owner : Option ℕ) (row : Instance) (w : World)
      → (charge_owned billing_key rates owner bucket row w).0 ≡ ok tt
  charge_owned-ok bucket none row w = refl
  charge_owned-ok bucket (some owner) row w =
      elim (Bool-cases (eq_ℤ (milli_per_minute rates row.gpu_count) (pos 0))) [
        | inl free ↦ rw free refl
        | inr paid ↦ rw paid refl
      ]

  All-append :
      (bucket : ℕ) (rows : List Instance) (xs ys : List CreditLedger)
      → All (IsCharge bucket rows) xs
      → All (IsCharge bucket rows) ys
      → All (IsCharge bucket rows) (xs ++ ys)
  All-append bucket rows [] ys h k = k
  All-append bucket rows (x ∷ xs) ys h k = (h.0, All-append bucket rows xs ys h.1 k)

  Charged-trans :
      (bucket : ℕ) (rows : List Instance) (a b c : Db)
      → Charged bucket rows a b
      → Charged bucket rows b c
      → Charged bucket rows a c
  Charged-trans bucket rows a b c (xs, e, h) (ys, f, k) = (
    xs ++ ys,
    f ∙ ap (λ l. l ++ ys) e ∙ append_assoc a.ledger xs ys,
    All-append bucket rows xs ys h k,
  )

  charge_rows-Charged :
      (bucket : ℕ) (rest rows : List Instance) (w : World)
      → ((i : Instance) → Memᴰ i rest → Memᴰ i rows)
      → Charged bucket rows w.db (charge_rows billing_key rates bucket rest w).1.db
  unfolding charge_rows
  charge_rows-Charged bucket [] rows w inside = ([], sym (append-nil w.db.ledger), tt)
  charge_rows-Charged bucket (i ∷ rest) rows w inside =
      let first = charge_owned billing_key rates i.owner_id bucket i in
      let next = charge_rows billing_key rates bucket rest in
      subst (λ r. Charged bucket rows w.db r.1.db)
        (sym (>>=-of_ok first (λ _. next) w (charge_owned-ok bucket i.owner_id i w)))
        (Charged-trans bucket rows w.db (first w).1.db (next (first w).1).1.db
          (charge_owned-Charged bucket i.owner_id i rows w refl (inside i (Memᴰ.head refl)))
          (charge_rows-Charged bucket rest rows (first w).1 (λ j m. inside j (Memᴰ.tail m))))

  listed :
      (w : World)
      → ((statement list_billable_running_instances w).1.db ≡ w.db)
        × ((statement list_billable_running_instances w).1.now ≡ w.now)
  unfolding statement list_billable_running_instances
  listed w = ground arith

  listed_rows :
      (w : World) {rows : List Instance}
      → (statement list_billable_running_instances w).0 ≡ ok rows
      → rows ≡ select_where (λ i. state_eq i.state running && is_set i.owner_id) w.db.instances
  unfolding statement list_billable_running_instances
  listed_rows w h = ground arith

  abbrev pub billable : Db → List Instance
  billable db = select_where (λ i. state_eq i.state running && is_set i.owner_id) db.instances

  -- Wherever the connection fails, a tick only ever adds entries to the ledger, each of them the
  -- charge of a running instance with an owner: the owner pays the rate of the instance's GPU count,
  -- under the key of the instance and the minute.
  pub charge-Charged :
      (w : World) → Charged (w.now / 60) (billable w.db) w.db (charge billing_key rates w).1.db
  unfolding charge
  charge-Charged w =
      let list = statement list_billable_running_instances in
      let go : List Instance → Q (Unit {0}) =
        λ rows. clock >>= λ now. charge_rows billing_key rates (now / 60) rows in
      let (same, time) = listed w in
      elim (Result-cases (list w).0) [
        | inl (rows, h) ↦
            let inside : (i : Instance) → Memᴰ i rows → Memᴰ i (billable w.db) =
              λ i m. subst (λ l. Memᴰ i l) (listed_rows w h) m in
            subst (λ r. Charged (w.now / 60) (billable w.db) w.db r.1.db)
              (sym (>>=-of_ok list go w h))
              (subst (λ db. Charged (w.now / 60) (billable w.db) db (go rows (list w).1).1.db) same
                (subst
                  (λ t. Charged (t / 60) (billable w.db) (list w).1.db (go rows (list w).1).1.db)
                  time
                  (charge_rows-Charged ((list w).1.now / 60) rows (billable w.db) (list w).1
                    inside)))
        | inr (x, h) ↦ (
          [],
          ap (λ v. v.db.ledger) (>>=-of_err list go w h)
              ∙ ap (λ db. db.ledger) same
              ∙ sym (append-nil w.db.ledger),
          tt,
        )
      ]
