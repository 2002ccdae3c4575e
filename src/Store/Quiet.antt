-- ===== src/Store/Quiet.antt =====
-- A connection that works keeps working: no program adds a failure.
use hybrid_cloud_with_claude.Prelude.{◌≡◌, refl, [], arith}
use hybrid_cloud_with_claude.Schema.{Db}
use hybrid_cloud_with_claude.Store.{
  World, Result, ok, err, Q, statement, in_tx, bind_result, ◌>>=◌, settle,
}

abbrev pub Quiet : {A : Type 0} → Q A → Type 0
Quiet m = (w : World) → w.faults ≡ [] → (m w).1.faults ≡ []

pub statement-Quiet : {A : Type 0} (f : Db → Result A × Db) → Quiet (statement f)
unfolding statement
statement-Quiet f w h = ground arith

bind_result-Quiet :
    {A B : Type 0} (f : A → Q B)
    → ((a : A) → Quiet (f a))
    → (r : Result A × World) → r.1.faults ≡ []
    → (bind_result f r).1.faults ≡ []
bind_result-Quiet f k (ok a, w) h = k a w h
bind_result-Quiet f k (err e, w) h = h

pub bind-Quiet :
    {A B : Type 0} (m : Q A) (f : A → Q B) → Quiet m → ((a : A) → Quiet (f a)) → Quiet (m >>= f)
bind-Quiet m f km kf w h = bind_result-Quiet f kf (m w) (km w h)

settle-Quiet :
    {A : Type 0} (before : Db) (r : Result A × World)
    → r.1.faults ≡ []
    → (settle before r).1.faults ≡ []
settle-Quiet before (ok a, w) h = ground arith
settle-Quiet before (err e, w) h = h

pub in_tx-Quiet : {A : Type 0} (body : Q A) → Quiet body → Quiet (in_tx body)
unfolding in_tx
in_tx-Quiet body k w h = ground (
  arith,
  settle-Quiet w.db (body w),
  k w h,
  settle-Quiet w.db (body (record w { faults = [] })),
  k (record w { faults = [] }) refl,
)
