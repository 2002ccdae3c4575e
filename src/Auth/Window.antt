-- ===== src/Auth/Window.antt =====
-- The limiter of services/main-api/internal/auth/ratelimit.go is a sliding window: forgetting old hits
-- and sweeping old keys never changes an answer.
use hybrid_cloud_with_claude.Prelude.{
  ℕ, ◌+◌, ◌≤◌, ◌≡◌, refl, ap, ◌∙◌, inl, inr, ltb, leb, Bool, false, String, List, [], ◌∷◌, ◌++◌,
  length, select_where, any_where, count_where, Bool-cases, arith,
}
use hybrid_cloud_with_claude.Prelude.Counting.{length-select}
use hybrid_cloud_with_claude.Auth.RateLimit.{
  RateLimiter, new_rate_limiter, is_fresh, set_hits, sweep_locked, kept, recorded, allow, answers,
}

-- The specification keeps every allowed call for ever, and counts those of the key in the window.
abbrev window_allows : ℕ → ℕ → List ℕ → ℕ → Bool
window_allows limit window log now = ltb (count_where (is_fresh window now) log) limit

unfoldable pub window_answers : ℕ → ℕ → (String → List ℕ) → List (String × ℕ) → List Bool
window_answers limit window log [] = []
window_answers limit window log ((key, now) ∷ rest) =
    let allowed = window_allows limit window (log key) now in
    allowed ∷ window_answers limit window (set_hits key (recorded allowed now (log key)) log) rest

-- The clock does not go back.
abbrev pub Ascending : ℕ → List (String × ℕ) → Type 0
Ascending t [] = Unit
Ascending t ((key, now) ∷ rest) = (t ≤ now) × Ascending now rest

count-select_fresh :
    (window now later : ℕ) (ts : List ℕ)
    → now ≤ later
    → count_where (is_fresh window later) (select_where (is_fresh window now) ts)
      ≡ count_where (is_fresh window later) ts
count-select_fresh window now later [] h = refl
count-select_fresh window now later (t ∷ ts) h =
    ground (arith, count-select_fresh window now later ts h)

count-append_time :
    (window later now : ℕ) (ts : List ℕ)
    → count_where (is_fresh window later) (ts ++ now ∷ [])
      ≡ count_where (is_fresh window later) ts + count_where (is_fresh window later) (now ∷ [])
count-append_time window later now [] = ground arith
count-append_time window later now (t ∷ ts) = ground (arith, count-append_time window later now ts)

count_stale :
    (window now later : ℕ) (ts : List ℕ)
    → now ≤ later
    → any_where (is_fresh window now) ts ≡ false
    → count_where (is_fresh window later) ts ≡ 0
count_stale window now later [] h s = refl
count_stale window now later (t ∷ ts) h s = ground (arith, count_stale window now later ts h)

-- From a time on, the limiter and the log count the same hits.
abbrev Agrees : ℕ → ℕ → (String → List ℕ) → (String → List ℕ) → Type 0
Agrees window t hits log =
    (k : String) (later : ℕ)
    → t ≤ later
    → count_where (is_fresh window later) (hits k) ≡ count_where (is_fresh window later) (log k)

sweep_locked-Agrees :
    (window now : ℕ) (hits log : String → List ℕ)
    → Agrees window now hits log
    → Agrees window now (sweep_locked window now hits) log
unfolding sweep_locked
sweep_locked-Agrees window now hits log a k later h =
    elim (Bool-cases (any_where (is_fresh window now) (hits k))) [
      | inl fresh ↦ ground (arith, a k later h)
      | inr stale ↦ ground (arith, a k later h, count_stale window now later (hits k) h stale)
    ]

recorded-Agrees :
    (r : RateLimiter) (key : String) (t now : ℕ) (log : String → List ℕ) (allowed : Bool)
    → t ≤ now
    → Agrees r.window t r.hits log
    → Agrees r.window now
        (set_hits key (recorded allowed now (kept key now r)) r.hits)
        (set_hits key (recorded allowed now (log key)) log)
recorded-Agrees r key t now log allowed le a k later h = ground (
  arith,
  a k later,
  a key later,
  count-select_fresh r.window now later (r.hits key) h,
  count-append_time r.window later now (kept key now r),
  count-append_time r.window later now (log key),
)

same_answer :
    (r : RateLimiter) (key : String) (t now : ℕ) (log : String → List ℕ)
    → t ≤ now
    → Agrees r.window t r.hits log
    → ltb (length (kept key now r)) r.limit ≡ window_allows r.limit r.window (log key) now
same_answer r key t now log le a =
    ap (λ n. ltb n r.limit) (length-select (is_fresh r.window now) (r.hits key) ∙ a key now le)

answers_agree :
    (r : RateLimiter) (t : ℕ) (log : String → List ℕ) (calls : List (String × ℕ))
    → Ascending t calls
    → Agrees r.window t r.hits log
    → answers r calls ≡ window_answers r.limit r.window log calls
unfolding answers allow window_answers
answers_agree r t log [] asc a = refl
answers_agree r t log ((key, now) ∷ rest) asc a =
    let allowed = window_allows r.limit r.window (log key) now in
    let hits = set_hits key (recorded allowed now (kept key now r)) r.hits in
    let log' = set_hits key (recorded allowed now (log key)) log in
    let next = recorded-Agrees r key t now log allowed asc.0 a in
    rw (same_answer r key t now log asc.0 a)
      (elim (Bool-cases (leb (r.last_sweep + r.window) now)) [
        | inl due ↦ rw due (
            ap (λ xs. allowed ∷ xs)
              (answers_agree (record r { hits = sweep_locked r.window now hits; last_sweep = now })
                now log' rest asc.1 (sweep_locked-Agrees r.window now hits log' next)))
        | inr early ↦ rw early (
            ap (λ xs. allowed ∷ xs)
              (answers_agree (record r { hits = hits }) now log' rest asc.1 next))
      ])

-- While the clock does not go back, the limiter answers every call as the sliding window does that
-- remembers each allowed call for ever: a call is allowed just when fewer than the limit of allowed
-- calls with its key lie in the window before it.
pub allow_refines :
    (limit window : ℕ) (calls : List (String × ℕ))
    → Ascending 0 calls
    → answers (new_rate_limiter limit window) calls ≡ window_answers limit window (λ k. []) calls
allow_refines limit window calls asc =
    answers_agree (new_rate_limiter limit window) 0 (λ k. []) calls asc (λ k later h. refl)
