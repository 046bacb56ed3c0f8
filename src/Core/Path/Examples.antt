-- ===== src/Core/Path/Examples.antt =====
-- Quoted routes at a Horizon with two direct routes.
use reserve.Base.{
  ◌≡◌, ◌↔◌, refl, none, [], ◌∷◌, some, ok, pos, codes, text, text_eq, split_once, all_digits,
  parse_i64, pad_right, checked, ◌*ℤ◌, ◌+ℤ◌, true,
}
use reserve.Horizon.Amount.{parse_amount_stroops}
use reserve.Horizon.Asset.{Asset, parse, to_asset, PathHop}
use reserve.Horizon.Records.{PathRecord, source_amount_stroops}
use reserve.Core.Samples.{horizon, user, usdc, direct}
use reserve.Core.Path.{
  hops_of, all_same, record_matches_quoted_path, find_quoted, check_route, ensure_quoted_path,
}
use reserve.Core.Path.Cover.{AllSame, CanPay, record_matches_iff, ensure_quoted_path_iff}

live : ensure_quoted_path horizon user usdc (pos 56_000) (pos 10_100) [] ≡ ok tt
unfolding ensure_quoted_path check_route find_quoted record_matches_quoted_path hops_of all_same
    source_amount_stroops parse_amount_stroops parse text text_eq split_once all_digits parse_i64
    pad_right checked ◌*ℤ◌ ◌+ℤ◌
live = refl

ensure_quoted_path_iff_example :
    (ensure_quoted_path horizon user usdc (pos 56_000) (pos 10_100) [] ≡ ok tt) ↔ (
      (token : Asset) × (parse usdc ≡ some token)
      × CanPay horizon user token (pos 56_000) (pos 10_100) [])
ensure_quoted_path_iff_example =
    ensure_quoted_path_iff horizon user usdc (pos 56_000) (pos 10_100) []

-- A hop of a type that the service does not read.
abbrev pool_hop : PathHop
pool_hop = record { asset_type = codes "liquidity_pool"; asset_code = none; asset_issuer = none }

abbrev through_pool : PathRecord
through_pool = record (direct (codes "0.0010000")) { path = pool_hop ∷ [] }

through_pool_matches : record_matches_quoted_path through_pool [] ≡ true
unfolding record_matches_quoted_path hops_of all_same to_asset text text_eq
through_pool_matches = refl

record_matches_iff_example :
    (record_matches_quoted_path through_pool [] ≡ true) ↔ AllSame (hops_of through_pool.path) []
record_matches_iff_example = record_matches_iff through_pool []
