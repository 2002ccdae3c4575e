-- ===== src/Examples/Money.antt =====
-- The theorems on the ledger and the billing worker at small tables
-- (services/main-api/internal/credit and billing).
use hybrid_cloud_with_claude.Prelude.{
  inl, ◌==◌, ◌≡◌, refl, true, String, Option, some, none, List, [], ◌∷◌, if◌then◌else◌, arith,
}
use mathlib.Core.List.{Memᴰ}
use hybrid_cloud_with_claude.Prelude.Int.{pos, ◌+ℤ◌}
use hybrid_cloud_with_claude.Store.{ok, err, duplicate_idempotency}
use hybrid_cloud_with_claude.Credit.Queries.{insert_credit_ledger_entry, upsert_credits, fits_int64}
use hybrid_cloud_with_claude.Credit.Repo.{PostInput, entry_of, post}
use hybrid_cloud_with_claude.Credit.Books.{Books, Posted, post-Posted, post-Books, post_twice}
use hybrid_cloud_with_claude.Billing.Rates.{RateTable}
use hybrid_cloud_with_claude.Billing.Worker.{
  BillingKey, Destroy, charge, sweep_bankrupt, is_sweepable,
}
use hybrid_cloud_with_claude.Billing.Charges.{Charged, billable, charge-Charged}
use hybrid_cloud_with_claude.Billing.Sweep.{StopsBankrupt, sweep-StopsBankrupt, sweep_complete}
use hybrid_cloud_with_claude.Examples.Data.{busy_db, busy, failing, instance_row, credit_row}

busy-Books : Books busy_db
unfolding ◌+ℤ◌
busy-Books = record { balanced = λ u. ground arith; keyed = λ key. ground arith }

abbrev payment : String → PostInput
payment key = record {
  user_id = 7;
  delta_milli = pos 100;
  reason = "charge";
  instance_id = none;
  idempotency_key = key;
  metadata = "";
}

post-Books_example : Books (post (payment "new") failing).1.db
post-Books_example = post-Books (payment "new") failing busy-Books

post_twice_example :
    ((post (payment "old") busy).0 ≡ err duplicate_idempotency)
    × ((post (payment "old") busy).1.db ≡ busy_db)
post_twice_example = post_twice (payment "old") busy refl

posted : (post (payment "new") busy).0 ≡ ok (entry_of 600 (payment "new"))
unfolding post ◌+ℤ◌ insert_credit_ledger_entry upsert_credits fits_int64
posted = refl

post-Posted_example : Posted (payment "new") 600 busy_db (post (payment "new") busy).1.db
post-Posted_example = post-Posted (payment "new") busy posted

abbrev rates : Option RateTable
rates = some (record { rates = (pos 1, pos 30) ∷ [] })

-- The keys of one instance at the minutes 10 and 11.
abbrev billing_key : BillingKey
billing_key id bucket = if bucket == 10 then "billing:10" else "billing:11"

charge-Charged_example :
    Charged billing_key rates 10
      (billable billing_key rates busy_db)
      busy_db
      (charge billing_key rates busy).1.db
charge-Charged_example = charge-Charged billing_key rates busy

abbrev stop : Destroy
stop = record { node_id = 1; instance_id = 10 }

swept : (sweep_bankrupt true busy).0 ≡ ok (stop ∷ [])
unfolding sweep_bankrupt is_sweepable
swept = refl

sweep-StopsBankrupt_example : StopsBankrupt busy_db stop
sweep-StopsBankrupt_example = sweep-StopsBankrupt true busy swept stop (Memᴰ.head refl)

sweep_complete_example :
    (ds : List Destroy) × (sweep_bankrupt true busy ≡ (ok ds, busy)) × Memᴰ stop ds
sweep_complete_example =
    sweep_complete busy refl instance_row credit_row (Memᴰ.head refl) (Memᴰ.head refl) refl
      (omega arith) (inl refl)
