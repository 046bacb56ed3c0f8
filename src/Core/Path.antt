-- ===== src/Core/Path.antt =====
-- crates/core/src/path.rs: whether the quoted route can still pay the fee.
pub mod Cover
mod Examples
use reserve.Base.{
  ℕ, Bool, true, false, ◌&&◌, not, List, [], ◌∷◌, ◌++◌, Option, none, some, ◌==◌, length,
  if◌then◌else◌, ℤ, pos, leb_ℤ, ltb_ℤ, print_i64, Text, text, text_eq, Result, ok, err, ok_or,
  fail_if, ◌>>=◌, ◌>>◌,
}
use reserve.Horizon.Asset.{Asset, native, credit, parse, canonical, PathHop, to_asset}
use reserve.Horizon.Records.{HorizonApi, PathRecord, source_amount_stroops}
use reserve.Core.Error.{Error, from_horizon}
use reserve.Core.Pricing.{is_native}

-- `filter_map` of `to_asset` and `canonical` over a record's hops.
unfoldable pub hops_of : List PathHop → List Text
hops_of [] = []
hops_of (hop ∷ path) =
    let rest = hops_of path in
    elim (to_asset hop) [ none ↦ rest | some asset ↦ canonical asset ∷ rest ]

-- `==` of assets.
unfoldable pub asset_eq : Asset → Asset → Bool
asset_eq native native = true
asset_eq native (credit code issuer) = false
asset_eq (credit code issuer) native = false
asset_eq (credit code issuer) (credit code' issuer') = text_eq code code' && text_eq issuer issuer'

abbrev pub same_parsed : Option Asset → Option Asset → Text → Text → Bool
same_parsed (some left) (some right) a b = asset_eq left right
same_parsed none right a b = text_eq a b
same_parsed (some left) none a b = text_eq a b

unfoldable pub same_canonical : Text → Text → Bool
same_canonical a b = same_parsed (parse a) (parse b) a b

-- `hops.iter().zip(quoted).all(…)`
unfoldable pub all_same : List Text → List Text → Bool
all_same [] quoted = true
all_same (got ∷ hops) [] = true
all_same (got ∷ hops) (want ∷ quoted) = same_canonical got want && all_same hops quoted

unfoldable pub record_matches_quoted_path : PathRecord → List Text → Bool
record_matches_quoted_path r quoted =
    length (hops_of r.path) == length quoted && all_same (hops_of r.path) quoted

unfoldable pub find_quoted : List PathRecord → List Text → Option PathRecord
find_quoted [] quoted = none
find_quoted (r ∷ records) quoted =
    let rest = find_quoted records quoted in
    if record_matches_quoted_path r quoted then some r else rest

-- The look at Horizon's routes.
unfoldable pub check_route : HorizonApi → Text → Asset → ℤ → ℤ → List Text → Result Error (Unit {0})
check_route horizon source token charge_stroops send_max_stroops quoted_path = do
  records ← from_horizon (horizon.strict_receive_paths source (token ∷ []) native charge_stroops)
  matched ← ok_or (find_quoted records quoted_path) (
      Error.path_moved
        (text "the quoted " ++ canonical token ++ text "→XLM hops are gone; re-quote"))
  need ← ok_or (source_amount_stroops matched) (Error.amount matched.source_amount)
  fail_if (ltb_ℤ send_max_stroops need) (
      Error.path_moved (
        text "the quoted route now costs "
        ++ print_i64 need
        ++ text " stroops, sendMax is "
        ++ print_i64 send_max_stroops))

abbrev pub pay_check : HorizonApi → Text → Asset → ℤ → ℤ → List Text → Result Error (Unit {0})
pay_check horizon source token charge_stroops send_max_stroops quoted_path =
    if is_native token
    then ok tt
    else if leb_ℤ charge_stroops (pos 0)
    then ok tt
    else check_route horizon source token charge_stroops send_max_stroops quoted_path

unfoldable pub ensure_quoted_path :
    HorizonApi → Text → Text → ℤ → ℤ → List Text → Result Error (Unit {0})
ensure_quoted_path horizon source fee_token charge_stroops send_max_stroops quoted_path = do
  token ← ok_or (parse fee_token) (Error.asset fee_token)
  pay_check horizon source token charge_stroops send_max_stroops quoted_path
