-- ===== src/Credit/Queries.antt =====
-- The statements of services/main-api/internal/db/dbstore/credits.sql.go on the tables.
use hybrid_cloud_with_claude.Prelude.{
  ℕ, ltb, leb, ◌==◌, ◌^◌, Bool, true, false, not, ◌&&◌, String, str_eq, Option, some, none, List,
  [], ◌∷◌, ◌++◌, map, take, reverse, find_where, update_where, select_where, any_where,
  if◌then◌else◌,
}
use hybrid_cloud_with_claude.Prelude.Int.{ℤ, pos, pos_part, neg_part, ◌+ℤ◌, leb_ℤ}
use hybrid_cloud_with_claude.Schema.{running, state_eq, Instance, Credit, CreditLedger, Db}
use hybrid_cloud_with_claude.Store.{
  Result, ok, err, no_rows, unique_violation, foreign_key_violation, out_of_range,
}

abbrev pub is_user : ℕ → Credit → Bool
is_user u c = c.user_id == u

abbrev pub has_key : String → CreditLedger → Bool
has_key key e = str_eq e.idempotency_key key

abbrev one_credit : Option Credit → Result Credit
one_credit none = err no_rows
one_credit (some c) = ok c

-- GetCredits
unfoldable pub get_credits : ℕ → Db → Result Credit × Db
get_credits u db = (one_credit (find_where (is_user u) db.credits), db)

-- InsertCreditLedgerEntry: the key is unique; rows stand in order of insertion.
unfoldable pub insert_credit_ledger_entry : CreditLedger → Db → Result CreditLedger × Db
insert_credit_ledger_entry e db =
    if any_where (has_key e.idempotency_key) db.ledger
    then (err unique_violation, db)
    else if not (any_where (λ u. u == e.user_id) db.users)
    then (err foreign_key_violation, db)
    else (ok e, record db { ledger = db.ledger ++ e ∷ [] })

-- `bigint`: a sum outside 64 bits is an error of the statement.
unfoldable pub fits_int64 : ℤ → Bool
fits_int64 a = ltb (pos_part a) (2 ^ 63) && leb (neg_part a) (2 ^ 63)

abbrev pub add_balance : ℕ → ℤ → Credit → Credit
add_balance now delta c = record c { balance_milli = c.balance_milli +ℤ delta; updated_at = now }

abbrev pub new_credit : ℕ → ℕ → ℤ → Credit
new_credit now u delta = record { user_id = u; balance_milli = delta; updated_at = now }

abbrev upsert_found : Option Credit → ℕ → ℕ → ℤ → Db → Result (Unit {0}) × Db
upsert_found none now u delta db =
    if any_where (λ v. v == u) db.users
    then (ok tt, record db { credits = db.credits ++ new_credit now u delta ∷ [] })
    else (err foreign_key_violation, db)
upsert_found (some c) now u delta db =
    if fits_int64 (c.balance_milli +ℤ delta)
    then (
      ok tt,
      record db { credits = update_where (is_user u) (add_balance now delta) db.credits },
    )
    else (err out_of_range, db)

-- UpsertCredits
unfoldable pub upsert_credits : ℕ → ℕ → ℤ → Db → Result (Unit {0}) × Db
upsert_credits now u delta db = upsert_found (find_where (is_user u) db.credits) now u delta db

-- ListCreditLedgerEntries: newest first.
unfoldable pub list_credit_ledger_entries : ℕ → ℤ → Db → Result (List CreditLedger) × Db
list_credit_ledger_entries u limit db =
    (ok (take (pos_part limit) (reverse (select_where (λ e. e.user_id == u) db.ledger))), db)

-- ListUsersWithNegativeBalance
unfoldable pub list_users_with_negative_balance : Db → Result (List ℕ) × Db
list_users_with_negative_balance db =
    (ok (map (λ c. c.user_id) (select_where (λ c. leb_ℤ c.balance_milli (pos 0)) db.credits)), db)

abbrev pub is_set {ℓ} : {A : Type ℓ} → Option A → Bool
is_set none = false
is_set (some _) = true

-- ListBillableRunningInstances
unfoldable pub list_billable_running_instances : Db → Result (List Instance) × Db
unfolding state_eq
list_billable_running_instances db =
    (ok (select_where (λ i. state_eq i.state running && is_set i.owner_id) db.instances), db)
