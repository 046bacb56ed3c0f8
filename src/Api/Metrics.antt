-- ===== src/Api/Metrics.antt =====
-- crates/api/src/metrics.rs: counters of 64 bits, which `fetch_add` wraps.
use reserve.Base.{ℕ, ◌+◌, ◌%◌, ◌^◌}

pub record Metrics : Type 0 where
  pub quotes : ℕ
  pub submissions : ℕ
  pub failures : ℕ
  pub rate_limited : ℕ

-- `Metrics::default`
abbrev pub no_metrics : Metrics
no_metrics = record { quotes = 0; submissions = 0; failures = 0; rate_limited = 0 }

abbrev pub fetch_add_one : ℕ → ℕ
fetch_add_one n = (n + 1) % 2 ^ 64

unfoldable pub quoted : Metrics → Metrics
quoted m = record m { quotes = fetch_add_one m.quotes }

unfoldable pub submitted : Metrics → Metrics
submitted m = record m { submissions = fetch_add_one m.submissions }

unfoldable pub failed : Metrics → Metrics
failed m = record m { failures = fetch_add_one m.failures }

unfoldable pub rate_limited : Metrics → Metrics
rate_limited m = record m { rate_limited = fetch_add_one m.rate_limited }
