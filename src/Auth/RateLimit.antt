-- ===== src/Auth/RateLimit.antt =====
-- services/main-api/internal/auth/ratelimit.go. The map of hits is a function, with the empty list for
-- a key that is not there, which is what a read of the map gives. A time is a number, counted
-- from the zero time, and 0 stands for it.
use hybrid_cloud_with_claude.Prelude.{
  ℕ, ◌+◌, ltb, leb, Bool, String, str_eq, List, [], ◌∷◌, ◌++◌, length, select_where, any_where,
  if◌then◌else◌,
}

pub record RateLimiter : Type 0 where
  pub hits : String → List ℕ
  pub limit : ℕ
  pub window : ℕ
  pub last_sweep : ℕ

abbrev pub new_rate_limiter : ℕ → ℕ → RateLimiter
new_rate_limiter limit window = record {
  hits = λ k. [];
  limit = limit;
  window = window;
  last_sweep = 0;
}

-- `t.After(now.Add(-window))`
abbrev pub is_fresh : ℕ → ℕ → ℕ → Bool
is_fresh window now t = ltb now (t + window)

abbrev pub set_hits : String → List ℕ → (String → List ℕ) → String → List ℕ
set_hits key ts hits k = if str_eq k key then ts else hits k

-- sweepLocked
unfoldable pub sweep_locked : ℕ → ℕ → (String → List ℕ) → String → List ℕ
sweep_locked window now hits k = if any_where (is_fresh window now) (hits k) then hits k else []

abbrev pub kept : String → ℕ → RateLimiter → List ℕ
kept key now r = select_where (is_fresh r.window now) (r.hits key)

abbrev pub recorded : Bool → ℕ → List ℕ → List ℕ
recorded allowed now fresh = if allowed then fresh ++ now ∷ [] else fresh

abbrev pub swept : ℕ → RateLimiter → RateLimiter
swept now r =
    if leb (r.last_sweep + r.window) now
    then record r { hits = sweep_locked r.window now r.hits; last_sweep = now }
    else r

-- Allow
unfoldable pub allow : String → ℕ → RateLimiter → Bool × RateLimiter
unfolding sweep_locked
allow key now r =
    let allowed = ltb (length (kept key now r)) r.limit in
    (
      allowed,
      swept now (record r { hits = set_hits key (recorded allowed now (kept key now r)) r.hits }),
    )

-- The answers to calls of Allow, one after the other: each has a key and the time of the clock.
unfoldable pub answers : RateLimiter → List (String × ℕ) → List Bool
unfolding allow
answers r [] = []
answers r ((key, now) ∷ rest) = let (allowed, r') = allow key now r in allowed ∷ answers r' rest
