-- ===== src/Api/Reads.antt =====
-- crates/api/src/routes.rs: the handlers that change nothing: `status`, `tokens`, `health` and `metrics`.
mod Examples
use reserve.Base.{
  ℕ, Bool, true, false, ◌&&◌, ◌||◌, not, List, [], ◌∷◌, ◌++◌, Option, none, some, if◌then◌else◌,
  ◌==◌, leb, length, print_nat, print_i64, Text, text, text_eq, Result, ok, err,
}
use reserve.Horizon.Error as Horizon
use reserve.Horizon.Records.{TransactionRecord}
use reserve.Core.Tokens.{KnownToken, token_canonical, known_tokens, entries, is_empty}
use reserve.Api.Config.{Config}
use reserve.Api.Metrics.{Metrics}
use reserve.Api.Error.{ApiError, bad_request, of_horizon, or_fail}
use reserve.Api.State.{Crates, Moment, AppState, SponsorFunds, sponsor_funds_of, sponsor_address}

-- The JSON of a status: the fields that an answer has.
pub record Status : Type 0 where
  pub hash : Text
  pub status : Text
  pub ledger : Option ℕ

-- `char::is_ascii_hexdigit`
abbrev pub is_hex : ℕ → Bool
is_hex c = leb b'0' c && leb c b'9' || leb b'a' c && leb c b'f' || leb b'A' c && leb c b'F'

unfoldable pub all_hex : Text → Bool
all_hex [] = true
all_hex (c ∷ s) = is_hex c && all_hex s

abbrev pub status_of : Text → Option TransactionRecord → Status
status_of hash none = record { hash = hash; status = text "not_found"; ledger = none }
status_of hash (some tx) = record {
  hash = hash;
  status = if tx.successful then text "success" else text "failed";
  ledger = some tx.ledger;
}

-- `GET /v1/status/{hash}`
unfoldable pub status : Moment → Text → Result ApiError Status
status m hash =
    if not (length hash == 64) || not (all_hex hash)
    then err (bad_request (text "invalid_hash") (text "not a transaction hash"))
    else elim (or_fail of_horizon (m.horizon.transaction hash)) [
      | err e ↦ err e
      | ok answer ↦ ok (status_of hash answer)
    ]

-- `accepted.iter().any(…)`
unfoldable pub accepts : List Text → KnownToken → Bool
accepts [] t = false
accepts (a ∷ accepted) t =
    text_eq a (token_canonical t)
    || is_empty t.issuer && text_eq a (text "XLM")
    || accepts accepted t

unfoldable pub known_of : List Text → List KnownToken → List KnownToken
known_of accepted [] = []
known_of accepted (t ∷ ts) =
    let rest = known_of accepted ts in if accepts accepted t then t ∷ rest else rest

-- `GET /v1/tokens`: the accepted tokens, and what is known of them.
unfoldable pub tokens : Config → List Text × List KnownToken
tokens config =
    let accepted = entries config.token_allowlist in
    (accepted, known_of accepted (known_tokens config.network_passphrase))

pub record Health : Type 0 where
  pub status : Text
  pub sponsor : Text
  pub network : Text
  pub funds : Option SponsorFunds
  pub anon_per_minute : ℕ
  pub keyed_per_minute : ℕ

abbrev pub answered : Result Horizon.Error SponsorFunds → Option SponsorFunds
answered (ok funds) = some funds
answered (err e) = none

-- One metric in the text format of Prometheus.
unfoldable pub metric : Text → Text → Text → Text → Text
metric kind name help value =
    text "# HELP "
    ++ name
    ++ text " "
    ++ help
    ++ text "\n# TYPE "
    ++ name
    ++ text " "
    ++ kind
    ++ text "\n"
    ++ name
    ++ text " "
    ++ value
    ++ text "\n"

unfoldable pub counters : Metrics → Text
counters c =
    metric (text "counter") (text "reserve_quotes_total") (text "Quotes issued")
      (print_nat c.quotes)
    ++ metric (text "counter") (text "reserve_submissions_total") (text "Transactions submitted")
        (print_nat c.submissions)
    ++ metric (text "counter") (text "reserve_submission_failures_total")
        (text "Submissions the network rejected") (print_nat c.failures)
    ++ metric (text "counter") (text "reserve_rate_limited_total")
        (text "Requests refused by a limit") (print_nat c.rate_limited)

abbrev pub gauges : Option SponsorFunds → Text
gauges none = []
gauges (some funds) =
    metric (text "gauge") (text "reserve_sponsor_spendable_stroops")
      (text "Sponsor XLM that is not locked in reserves") (print_i64 funds.spendable_stroops)
    ++ metric (text "gauge") (text "reserve_sponsor_locked_stroops")
        (text "Sponsor XLM immobilised as other people's reserves") (print_i64 funds.locked_stroops)

module _ (o : Crates) where
  unfoldable pub lane_health : Moment → Moment → AppState o → Health
  lane_health m m' app = record {
    status = text "ok";
    sponsor = sponsor_address o app.config;
    network = app.config.network_passphrase;
    funds = answered (sponsor_funds_of m.horizon m'.horizon (sponsor_address o app.config));
    anon_per_minute = app.config.limits.anon_per_minute;
    keyed_per_minute = app.config.limits.keyed_per_minute;
  }

  -- `GET /metrics`
  unfoldable pub metrics : Moment → Moment → AppState o → Text
  metrics m m' app =
      counters app.metrics
      ++ gauges (answered (sponsor_funds_of m.horizon m'.horizon (sponsor_address o app.config)))

  -- The lanes of a process by their slugs, with the budgets of the first.
  pub record Catalog : Type 0 where
    pub lanes : List (Text × AppState o)
    pub anon_per_minute : ℕ
    pub keyed_per_minute : ℕ

  -- The catalog that `app` makes.
  unfoldable pub catalog_of : List (Text × AppState o) → Catalog
  catalog_of [] = record { lanes = []; anon_per_minute = 30; keyed_per_minute = 600 }
  catalog_of (lane ∷ lanes) = record {
    lanes = lane ∷ lanes;
    anon_per_minute = lane.1.config.limits.anon_per_minute;
    keyed_per_minute = lane.1.config.limits.keyed_per_minute;
  }

  -- `GET /health` of a process with several lanes, each asked at its own moments: the networks' part.
  unfoldable pub networks_health :
      (Text → Moment × Moment) → List (Text × AppState o) → List (Text × Health)
  networks_health m [] = []
  networks_health m (lane ∷ lanes) =
      (lane.0, lane_health (m lane.0).0 (m lane.0).1 lane.1) ∷ networks_health m lanes
