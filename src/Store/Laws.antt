-- ===== src/Store/Laws.antt =====
-- What a transaction promises its caller.
use hybrid_cloud_with_claude.Prelude.{◌≡◌, refl, arith}
use hybrid_cloud_with_claude.Store.{
  World, Error, Result, ok, err, Q, in_tx, bind_result, ◌>>=◌, draw,
}

-- Whatever the body does, and wherever the connection fails, a transaction that returns an error
-- leaves every table as it was.
pub in_tx-err :
    {A : Type 0} (body : Q A) (w : World) {e : Error}
    → (in_tx body w).0 ≡ err e
    → (in_tx body w).1.db ≡ w.db
unfolding in_tx
in_tx-err body w h = ground arith

bind_result-ok :
    {A B : Type 0} (r : Result A × World) (f : A → Q B) {b : B}
    → (bind_result f r).0 ≡ ok b
    → (a : A) × (r.0 ≡ ok a) × (bind_result f r ≡ f a r.1)
bind_result-ok (ok a, w) f h = (a, refl, refl)
bind_result-ok (err e, w) f h = cc

-- A program that succeeds went through its first step.
pub >>=-ok :
    {A B : Type 0} (m : Q A) (f : A → Q B) (w : World) {b : B}
    → ((m >>= f) w).0 ≡ ok b
    → (a : A) × ((m w).0 ≡ ok a) × ((m >>= f) w ≡ f a (m w).1)
>>=-ok m f w h = bind_result-ok (m w) f h

-- A transaction that succeeds ran its body on the tables as they were, and left what the body left.
pub in_tx-ok :
    {A : Type 0} (body : Q A) (w : World) {a : A}
    → (in_tx body w).0 ≡ ok a
    → (v : World) × (v.db ≡ w.db)
      × (v.drawn ≡ w.drawn)
      × ((body v).0 ≡ ok a)
      × ((in_tx body w).1.db ≡ (body v).1.db)
unfolding in_tx
in_tx-ok body w h =
    (record w { faults = (draw w.faults).1 }, refl, refl, ground arith, ground arith)

bind_result-of_ok :
    {A B : Type 0} (r : Result A × World) (f : A → Q B) {a : A}
    → r.0 ≡ ok a
    → bind_result f r ≡ f a r.1
bind_result-of_ok (ok b, w) f h = ground arith
bind_result-of_ok (err e, w) f h = cc

-- After a step that succeeded the program goes on.
pub >>=-of_ok :
    {A B : Type 0} (m : Q A) (f : A → Q B) (w : World) {a : A}
    → (m w).0 ≡ ok a
    → (m >>= f) w ≡ f a (m w).1
>>=-of_ok m f w h = bind_result-of_ok (m w) f h

bind_result-of_err :
    {A B : Type 0} (r : Result A × World) (f : A → Q B) {e : Error}
    → r.0 ≡ err e
    → (bind_result f r).1 ≡ r.1
bind_result-of_err (ok b, w) f h = cc
bind_result-of_err (err e, w) f h = refl

-- A step that failed ends the program.
pub >>=-of_err :
    {A B : Type 0} (m : Q A) (f : A → Q B) (w : World) {e : Error}
    → (m w).0 ≡ err e
    → ((m >>= f) w).1 ≡ (m w).1
>>=-of_err m f w h = bind_result-of_err (m w) f h
