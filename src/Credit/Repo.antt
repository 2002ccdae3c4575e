-- ===== src/Credit/Repo.antt =====
-- services/main-api/internal/credit/repo.go: a ledger entry and the cached balance in one transaction.
use hybrid_cloud_with_claude.Prelude.{ℕ, ◌||◌, String, str_eq, Option, List, if◌then◌else◌}
use hybrid_cloud_with_claude.Prelude.Int.{ℤ, pos, leb_ℤ, ltb_ℤ}
use hybrid_cloud_with_claude.Schema.{CreditLedger, Credit}
use hybrid_cloud_with_claude.Store.{
  Error, Result, ok, err, Q, ◌>>=◌, ◌>>◌, pure, fail, map_err, statement, clock, in_tx, no_rows,
  unique_violation, duplicate_idempotency, key_required,
}
use hybrid_cloud_with_claude.Credit.Queries.{
  get_credits, insert_credit_ledger_entry, upsert_credits, list_credit_ledger_entries,
  list_users_with_negative_balance,
}

pub record PostInput : Type 0 where
  pub user_id : ℕ
  pub delta_milli : ℤ
  pub reason : String
  pub instance_id : Option ℕ
  pub idempotency_key : String
  pub metadata : String

-- `isUniqueViolation`, and what Post makes of it.
abbrev pub to_duplicate : Error → Error
to_duplicate unique_violation = duplicate_idempotency
to_duplicate e = e

abbrev pub entry_of : ℕ → PostInput → CreditLedger
entry_of now input = record {
  user_id = input.user_id;
  delta_milli = input.delta_milli;
  reason = input.reason;
  instance_id = input.instance_id;
  idempotency_key = input.idempotency_key;
  metadata = if str_eq input.metadata "" then "{}" else input.metadata;
  created_at = now;
}

unfoldable pub post_body : PostInput → Q CreditLedger
unfolding statement clock
post_body input = do
  now ← clock
  row ← map_err to_duplicate (statement (insert_credit_ledger_entry (entry_of now input)))
  statement (upsert_credits now input.user_id input.delta_milli)
  pure row

unfoldable pub post : PostInput → Q CreditLedger
unfolding post_body in_tx
post input = if str_eq input.idempotency_key "" then fail key_required else in_tx (post_body input)

abbrev balance_result : Result Credit → Result ℤ
balance_result (ok c) = ok c.balance_milli
balance_result (err no_rows) = ok (pos 0)
balance_result (err e) = err e

unfoldable pub balance : ℕ → Q ℤ
unfolding get_credits statement
balance u w = let (r, v) = statement (get_credits u) w in (balance_result r, v)

unfoldable pub history : ℕ → ℤ → Q (List CreditLedger)
unfolding list_credit_ledger_entries statement
history u limit = statement (
    list_credit_ledger_entries u
      (if leb_ℤ limit (pos 0) || ltb_ℤ (pos 200) limit then pos 50 else limit))

unfoldable pub users_with_negative_balance : Q (List ℕ)
unfolding list_users_with_negative_balance statement
users_with_negative_balance = statement list_users_with_negative_balance
