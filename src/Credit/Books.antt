-- ===== src/Credit/Books.antt =====
-- The books: the cached balance of every user is the sum of the user's ledger entries, and no
-- idempotency key stands twice (services/main-api/internal/credit/repo.go).
use hybrid_cloud_with_claude.Prelude.{
  ℕ, ◌+◌, ◌≤◌, ◌==◌, ◌≡◌, ◌≢◌, inl, inr, refl, sym, subst, ap, ◌∙◌, Bool, true, false, String,
  str_eq, ◌||◌, str_eq_iff, Option, some, none, Option-cases, List, [], ◌∷◌, ◌++◌, find_where,
  update_where, any_where, count_where, ==_refl, ℕ_discrete, if◌then◌else◌, arith,
}
use hybrid_cloud_with_claude.Prelude.Int.{ℤ, pos, ◌+ℤ◌, +ℤ_assoc, +ℤ_comm, +ℤ_zero}
use hybrid_cloud_with_claude.Schema.{Credit, CreditLedger, Db}
use hybrid_cloud_with_claude.Store.{
  World, ok, err, Error, Result-cases, draw, key_required, connection, duplicate_idempotency, in_tx,
  statement, clock,
}
use hybrid_cloud_with_claude.Store.Laws.{in_tx-err}
use hybrid_cloud_with_claude.Credit.Queries.{
  is_user, has_key, add_balance, new_credit, insert_credit_ledger_entry, upsert_credits,
}
use hybrid_cloud_with_claude.Credit.Repo.{PostInput, entry_of, post, post_body}

abbrev balance_in : Option Credit → ℤ
balance_in none = pos 0
balance_in (some c) = c.balance_milli

-- The cached balance; 0 for a user without a row.
abbrev pub balance_of : ℕ → List Credit → ℤ
balance_of u credits = balance_in (find_where (is_user u) credits)

-- The sum of a user's entries.
abbrev pub ledger_sum : ℕ → List CreditLedger → ℤ
ledger_sum u [] = pos 0
ledger_sum u (e ∷ es) =
    let rest = ledger_sum u es in if e.user_id == u then e.delta_milli +ℤ rest else rest

pub record Books (db : Db) : Type 0 where
  pub balanced : (u : ℕ) → balance_of u db.credits ≡ ledger_sum u db.ledger
  pub keyed : (key : String) → count_where (has_key key) db.ledger ≤ 1

ledger_sum-append :
    (u : ℕ) (es : List CreditLedger) (e : CreditLedger)
    → ledger_sum u (es ++ e ∷ [])
      ≡ (if e.user_id == u then ledger_sum u es +ℤ e.delta_milli else ledger_sum u es)
ledger_sum-append u [] e = ground (arith, +ℤ_comm e.delta_milli (pos 0))
ledger_sum-append u (x ∷ es) e =
    ground (arith, ledger_sum-append u es e, +ℤ_assoc x.delta_milli (ledger_sum u es) e.delta_milli)

balance_of-append :
    (u : ℕ) (cs : List Credit) (now v : ℕ) (delta : ℤ)
    → find_where (is_user v) cs ≡ none
    → balance_of u (cs ++ new_credit now v delta ∷ [])
      ≡ (if v == u then balance_of u cs +ℤ delta else balance_of u cs)
balance_of-append u [] now v delta h = ground (arith, +ℤ_zero delta)
balance_of-append u (c ∷ cs) now v delta h = ground (arith, balance_of-append u cs now v delta)

balance_of-update_ne :
    (u : ℕ) (cs : List Credit) (now v : ℕ) (delta : ℤ)
    → v ≢ u
    → balance_of u (update_where (is_user v) (add_balance now delta) cs) ≡ balance_of u cs
balance_of-update_ne u [] now v delta ne = refl
balance_of-update_ne u (x ∷ cs) now v delta ne =
    ground (arith, balance_of-update_ne u cs now v delta ne)

balance_of-update_self :
    (u : ℕ) (cs : List Credit) (now : ℕ) (delta : ℤ) {c : Credit}
    → find_where (is_user u) cs ≡ some c
    → balance_of u (update_where (is_user u) (add_balance now delta) cs) ≡ balance_of u cs +ℤ delta
balance_of-update_self u [] now delta h = cc
balance_of-update_self u (x ∷ cs) now delta {c} h =
    ground (arith, balance_of-update_self u cs now delta {c = c})

balance_of-update :
    (u : ℕ) (cs : List Credit) (now v : ℕ) (delta : ℤ) {c : Credit}
    → find_where (is_user v) cs ≡ some c
    → balance_of u (update_where (is_user v) (add_balance now delta) cs)
      ≡ (if v == u then balance_of u cs +ℤ delta else balance_of u cs)
balance_of-update u cs now v delta {c} h = elim (ℕ_discrete v u) [
  | yes e ↦ rw e (
      rw (==_refl u) (
        balance_of-update_self u cs now delta {c = c}
          (subst (λ x. find_where (is_user x) cs ≡ some c) e h)))
  | no ne ↦ ground (arith, balance_of-update_ne u cs now v delta ne)
]

count-append :
    (key : String) (es : List CreditLedger) (e : CreditLedger)
    → count_where (has_key key) (es ++ e ∷ [])
      ≡ count_where (has_key key) es + count_where (has_key key) (e ∷ [])
count-append key [] e = omega arith
count-append key (x ∷ es) e = ground (arith, count-append key es e)

count_unused :
    (key : String) (es : List CreditLedger)
    → any_where (has_key key) es ≡ false
    → count_where (has_key key) es ≡ 0
count_unused key [] h = refl
count_unused key (x ∷ es) h = ground (arith, count_unused key es)

-- The two statements of a post, one after the other.
abbrev pub Posted : PostInput → ℕ → Db → Db → Type 0
Posted input now before after =
    (any_where (has_key input.idempotency_key) before.ledger ≡ false)
    × (after.ledger ≡ before.ledger ++ entry_of now input ∷ [])
    × ((u : ℕ)
        → balance_of u after.credits ≡ (
            if input.user_id == u
            then balance_of u before.credits +ℤ input.delta_milli
            else balance_of u before.credits))

upsert-balance :
    (u now v : ℕ) (delta : ℤ) (db : Db)
    → (upsert_credits now v delta db).0 ≡ ok tt
    → balance_of u (upsert_credits now v delta db).1.credits
      ≡ (if v == u then balance_of u db.credits +ℤ delta else balance_of u db.credits)
unfolding upsert_credits
upsert-balance u now v delta db h = elim (Option-cases (find_where (is_user v) db.credits)) [
  | inl e ↦ ground (arith, balance_of-append u db.credits now v delta e)
  | inr (c, e) ↦ ground (arith, balance_of-update u db.credits now v delta {c = c} e)
]

upsert_ledger :
    (now v : ℕ) (delta : ℤ) (db : Db) → (upsert_credits now v delta db).1.ledger ≡ db.ledger
unfolding upsert_credits
upsert_ledger now v delta db = ground arith

abbrev with_entry : PostInput → ℕ → Db → Db
with_entry input now db = record db { ledger = db.ledger ++ entry_of now input ∷ [] }

post_shape :
    (input : PostInput) (w : World) {e : CreditLedger}
    → (post input w).0 ≡ ok e
    → (input.idempotency_key ≢ "")
      × (e ≡ entry_of w.now input)
      × (any_where (has_key input.idempotency_key) w.db.ledger ≡ false)
      × ((upsert_credits w.now input.user_id input.delta_milli (with_entry input w.now w.db)).0
          ≡ ok tt)
      × ((post input w).1.db
          ≡ (upsert_credits w.now input.user_id input.delta_milli (with_entry input w.now w.db)).1)
unfolding post insert_credit_ledger_entry
post_shape input w h = (
  ground (arith, str_eq_iff input.idempotency_key ""),
  ground arith,
  ground arith,
  ground arith,
  ground arith,
)

-- A post that succeeds wrote one entry under a new key, and moved the user's balance, and no other,
-- by the entry's amount.
pub post-Posted :
    (input : PostInput) (w : World) {e : CreditLedger}
    → (post input w).0 ≡ ok e
    → Posted input w.now w.db (post input w).1.db
post-Posted input w h =
    let (key, same, unused, done, after) = post_shape input w h in
    (
      unused,
      ap (λ db. db.ledger) after
          ∙ upsert_ledger w.now input.user_id input.delta_milli (with_entry input w.now w.db),
      λ u.
          ap (λ db. balance_of u db.credits) after
          ∙ upsert-balance u w.now input.user_id input.delta_milli (with_entry input w.now w.db)
              done,
    )

pub post-err :
    (input : PostInput) (w : World) {x : Error}
    → (post input w).0 ≡ err x
    → (post input w).1.db ≡ w.db
unfolding post
post-err input w h = ground (arith, in_tx-err (post_body input) w)

Posted-Books :
    (input : PostInput) (now : ℕ) (before after : Db)
    → Posted input now before after
    → Books before
    → Books after
Posted-Books input now before after (unused, ledger, moved) b = record {
  balanced = λ u. ground (
    arith,
    moved u,
    b.balanced u,
    ap (ledger_sum u) ledger,
    ledger_sum-append u before.ledger (entry_of now input),
  );
  keyed = λ key. ground (
    arith,
    ap (count_where (has_key key)) ledger,
    count-append key before.ledger (entry_of now input),
    b.keyed key,
    count_unused input.idempotency_key before.ledger unused,
    str_eq_iff input.idempotency_key key,
  );
}

-- Every post, whether it succeeds, is refused or fails in the middle, keeps the books: each cached
-- balance is the sum of the user's entries, and no key stands twice.
pub post-Books : (input : PostInput) (w : World) → Books w.db → Books (post input w).1.db
post-Books input w b = elim (Result-cases (post input w).0) [
  | inl (e, h) ↦ Posted-Books input w.now w.db (post input w).1.db (post-Posted input w h) b
  | inr (x, h) ↦ subst Books (sym (post-err input w h)) b
]

-- The error of a post whose key stands in the ledger: `draw` takes what becomes of the next statement,
-- here the begin and then the insert.
abbrev pub twice_error : PostInput → List Bool → Error
twice_error input faults =
    if str_eq input.idempotency_key ""
    then key_required
    else if (draw faults).0 || (draw (draw faults).1).0
    then connection
    else duplicate_idempotency

-- A post whose key stands in the ledger never succeeds and changes nothing: it answers
-- `duplicate_idempotency`, unless the key is empty, which it refuses as `key_required`, or the connection
-- fails the begin or the insert.
pub post_twice :
    (input : PostInput) (w : World)
    → any_where (has_key input.idempotency_key) w.db.ledger ≡ true
    → ((post input w).0 ≡ err (twice_error input w.faults)) × ((post input w).1.db ≡ w.db)
unfolding post post_body in_tx statement clock insert_credit_ledger_entry
post_twice input w used =
    let refused : (post input w).0 ≡ err (twice_error input w.faults) = ground (arith, used) in
    (refused, post-err input w refused)
