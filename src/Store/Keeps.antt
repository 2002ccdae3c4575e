-- ===== src/Store/Keeps.antt =====
-- Invariants of the tables: what every statement keeps, every program of statements keeps, wherever
-- the connection fails.
use hybrid_cloud_with_claude.Prelude.{if◌then◌else◌, Bool, true, false, List}
use hybrid_cloud_with_claude.Schema.{Db}
use hybrid_cloud_with_claude.Store.{
  World, attempt, Result, ok, err, Q, ◌>>=◌, statement, in_tx, begin_on, statement_on, bind_result,
  commit_on, settle, draw,
}

abbrev pub Keeps : (Db → Type 0) → {A : Type 0} → Q A → Type 0
Keeps P m = (w : World) → P w.db → P (m w).1.db

module _ (P : Db → Type 0) where
  statement_on-Keeps :
      {A : Type 0} (f : Db → Result A × Db)
      → ((db : Db) → P db → P (f db).1)
      → (d : Bool × List Bool) → Keeps P (statement_on f d)
  statement_on-Keeps f keep (true, rest) w h = h
  statement_on-Keeps f keep (false, rest) w h = keep w.db h

  pub statement-Keeps :
      {A : Type 0} (f : Db → Result A × Db)
      → ((db : Db) → P db → P (f db).1)
      → Keeps P (statement f)
  unfolding statement
  statement-Keeps f keep w h = statement_on-Keeps f keep (draw w.faults) w h

  bind_result-Keeps :
      {A B : Type 0} (f : A → Q B)
      → ((a : A) → Keeps P (f a))
      → (r : Result A × World) → P r.1.db
      → P (bind_result f r).1.db
  bind_result-Keeps f kf (ok a, w) h = kf a w h
  bind_result-Keeps f kf (err e, w) h = h

  pub bind-Keeps :
      {A B : Type 0} (m : Q A) (f : A → Q B)
      → Keeps P m
      → ((a : A) → Keeps P (f a))
      → Keeps P (m >>= f)
  bind-Keeps m f km kf w h = bind_result-Keeps f kf (m w) (km w h)

  commit_on-Keeps :
      {A : Type 0} (before : Db) (a : A) (d : Bool × List Bool) (w : World)
      → P before
      → P w.db
      → P (commit_on before a d w).1.db
  commit_on-Keeps before a (true, rest) w b h = b
  commit_on-Keeps before a (false, rest) w b h = h

  settle-Keeps :
      {A : Type 0} (before : Db) (r : Result A × World)
      → P before
      → P r.1.db
      → P (settle before r).1.db
  settle-Keeps before (ok a, w) b h = commit_on-Keeps before a (draw w.faults) w b h
  settle-Keeps before (err e, w) b h = b

  begin_on-Keeps :
      {A : Type 0} (body : Q A) → Keeps P body → (d : Bool × List Bool) → Keeps P (begin_on body d)
  begin_on-Keeps body k (true, rest) w h = h
  begin_on-Keeps body k (false, rest) w h =
      settle-Keeps w.db (body (record w { faults = rest })) h (k (record w { faults = rest }) h)

  pub in_tx-Keeps : {A : Type 0} (body : Q A) → Keeps P body → Keeps P (in_tx body)
  unfolding in_tx
  in_tx-Keeps body k w h = begin_on-Keeps body k (draw w.faults) w h

  pub if-Keeps :
      {A : Type 0} (b : Bool) (m n : Q A) → Keeps P m → Keeps P n → Keeps P (if b then m else n)
  if-Keeps true m n km kn w h = km w h
  if-Keeps false m n km kn w h = kn w h

  pub attempt-Keeps :
      {A B : Type 0} (m : Q A) (k : Result A → Q B)
      → Keeps P m
      → ((r : Result A) → Keeps P (k r))
      → Keeps P (attempt m k)
  attempt-Keeps m k km kk w h = kk (m w).0 (m w).1 (km w h)
