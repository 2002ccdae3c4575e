-- ===== src/Store.antt =====
-- The database session: a connection that may fail at any statement, and transactions
-- (`inTx` of services/main-api/internal/{instance,slot,credit}/repo.go).
use hybrid_cloud_with_claude.Prelude.{
  ℕ, ◌+◌, ◌≡◌, ◌⊎◌, inl, inr, refl, Bool, true, false, List, [], ◌∷◌,
}
use hybrid_cloud_with_claude.Schema.{Db}
pub mod Laws
pub mod Keeps
pub mod Quiet

-- Go's wrapped errors, by what `errors.Is` finds in them.
pub data Error : Type 0 where
  connection no_rows unique_violation check_violation foreign_key_violation out_of_range : Error
  invalid_transition unknown_state : Error
  no_free_slots bad_count : Error
  duplicate_idempotency key_required : Error
  not_connected send_panic : Error
  bad_uuid unknown_agent_state register_again unknown_payload : Error
  no_topology bad_topology unknown_gpu : Error

pub data Result {ℓ} (A : Type ℓ) : Type ℓ where
  ok : A → Result A
  err : Error → Result A

pub Result-cases {ℓ} :
    {A : Type ℓ} (r : Result A) → ((a : A) × (r ≡ ok a)) ⊎ ((e : Error) × (r ≡ err e))
Result-cases (ok a) = inl (a, refl)
Result-cases (err e) = inr (e, refl)

pub ok-injective {ℓ} : {A : Type ℓ} {a b : A} → ok a ≡ ok b → a ≡ b
ok-injective h = cc

-- What the program does not decide: which statements the connection fails (one entry for each, none
-- after the last), the uuids that the server generates, and its clock.
pub record World : Type 0 where
  pub db : Db
  pub faults : List Bool
  pub uuids : ℕ → ℕ
  pub drawn : ℕ
  pub now : ℕ

abbrev pub Q : Type 0 → Type 0
Q A = World → Result A × World

abbrev pub bind_result : {A B : Type 0} → (A → Q B) → Result A × World → Result B × World
bind_result f (ok a, w) = f a w
bind_result f (err e, w) = (err e, w)

infixl 5 ◌>>=◌ ◌>>◌
abbrev pub ◌>>=◌ : {A B : Type 0} → Q A → (A → Q B) → Q B
◌>>=◌ m f w = bind_result f (m w)

abbrev pub ◌>>◌ : {A B : Type 0} → Q A → Q B → Q B
m >> k = m >>= λ _. k

abbrev pub pure : {A : Type 0} → A → Q A
pure a w = (ok a, w)

abbrev pub fail : {A : Type 0} → Error → Q A
fail e w = (err e, w)

abbrev pub lift : {A : Type 0} → Result A → Q A
lift r w = (r, w)

-- `x, err := m` where the code goes on after an error.
abbrev pub attempt : {A B : Type 0} → Q A → (Result A → Q B) → Q B
attempt m k w = let (r, w') = m w in k r w'

-- `if err := m; err != nil { return f(err) }`
abbrev pub map_err_result : {A : Type 0} → (Error → Error) → Result A → Result A
map_err_result f (ok a) = ok a
map_err_result f (err e) = err (f e)

abbrev pub map_err : {A : Type 0} → (Error → Error) → Q A → Q A
map_err f m w = let (r, w') = m w in (map_err_result f r, w')

abbrev pub draw : List Bool → Bool × List Bool
draw [] = (false, [])
draw (b ∷ bs) = (b, bs)

abbrev pub finish : {A : Type 0} → Result A × Db → World → Result A × World
finish (r, db) w = (r, record w { db = db })

-- One statement: it fails and does nothing, or runs on the tables.
abbrev pub statement_on : {A : Type 0} → (Db → Result A × Db) → Bool × List Bool → Q A
statement_on f (true, rest) w = (err connection, record w { faults = rest })
statement_on f (false, rest) w = finish (f w.db) (record w { faults = rest })

unfoldable pub statement : {A : Type 0} → (Db → Result A × Db) → Q A
statement f w = statement_on f (draw w.faults) w

unfoldable pub fresh_uuid : Q ℕ
fresh_uuid w = (ok (w.uuids w.drawn), record w { drawn = w.drawn + 1 })

unfoldable pub clock : Q ℕ
clock w = (ok w.now, w)

-- A commit that fails rolls back.
abbrev pub commit_on : {A : Type 0} → Db → A → Bool × List Bool → Q A
commit_on before a (true, rest) w = (err connection, record w { db = before; faults = rest })
commit_on before a (false, rest) w = (ok a, record w { faults = rest })

-- The body's error rolls back and is returned; else the transaction commits.
abbrev pub settle : {A : Type 0} → Db → Result A × World → Result A × World
settle before (err e, w) = (err e, record w { db = before })
settle before (ok a, w) = commit_on before a (draw w.faults) w

abbrev pub begin_on : {A : Type 0} → Q A → Bool × List Bool → Q A
begin_on body (true, rest) w = (err connection, record w { faults = rest })
begin_on body (false, rest) w = settle w.db (body (record w { faults = rest }))

-- inTx of the repositories: the body runs on the tables as a whole. A transaction that overlaps another
-- one, which READ COMMITTED allows, is not a run of this model.
unfoldable pub in_tx : {A : Type 0} → Q A → Q A
in_tx body w = begin_on body (draw w.faults) w
