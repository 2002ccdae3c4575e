-- ===== src/Billing/Rates.antt =====
-- The rate table: services/main-api/internal/billing/rates.go. Reading the file and its YAML is left
-- to the caller, as is the order in which Go walks a map (the checks do not depend on it).
use hybrid_cloud_with_claude.Prelude.{
  ◌==◌, Option, some, none, List, [], ◌∷◌, length, if◌then◌else◌,
}
use hybrid_cloud_with_claude.Prelude.Int.{ℤ, pos, ltb_ℤ, eq_ℤ}

-- A Go map from GPU counts to milli-won per minute.
pub record RateTable : Type 0 where
  pub rates : List (ℤ × ℤ)

pub data RatesError : Type 0 where
  no_entries negative_gpu negative_rate : RatesError

unfoldable pub check_entries : List (ℤ × ℤ) → Option RatesError
check_entries [] = none
check_entries ((gpu, rate) ∷ rest) =
    let later = check_entries rest in
    if ltb_ℤ gpu (pos 0)
    then some negative_gpu
    else if ltb_ℤ rate (pos 0)
    then some negative_rate
    else later

pub data Loaded : Type 0 where
  loaded : RateTable → Loaded
  refused : RatesError → Loaded

abbrev table_or : Option RatesError → List (ℤ × ℤ) → Loaded
table_or none rates = loaded (record { rates = rates })
table_or (some e) rates = refused e

-- LoadRates, after the file is parsed.
unfoldable pub load_rates : List (ℤ × ℤ) → Loaded
unfolding check_entries
load_rates rates =
    if length rates == 0 then refused no_entries else table_or (check_entries rates) rates

-- A read of a Go map: 0 for a missing key.
unfoldable pub rate_at : List (ℤ × ℤ) → ℤ → ℤ
rate_at [] gpu = pos 0
rate_at ((g, rate) ∷ rest) gpu = let later = rate_at rest gpu in if eq_ℤ g gpu then rate else later

abbrev rates_in : Option RateTable → ℤ → ℤ
rates_in none gpu = pos 0
rates_in (some t) gpu = rate_at t.rates gpu

-- MilliPerMinute; a nil table charges nothing.
unfoldable pub milli_per_minute : Option RateTable → ℤ → ℤ
unfolding rate_at
milli_per_minute table gpu = rates_in table gpu
