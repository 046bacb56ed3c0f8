-- ===== src/Horizon/Asset/Examples.antt =====
-- Assets: the unit tests' runs, and the theorems at concrete texts.
use reserve.Base.{◌≡◌, ◌↔◌, refl, none, some, codes, text, text_eq, split_once}
use reserve.Horizon.Asset.{native, credit, canonical, parse}
use reserve.Horizon.Asset.RoundTrip.{IsAsset, parse_iff}

asset_parsing :
    (parse (codes "native") ≡ some native)
    × (parse (codes "USDC:GA5Z") ≡ some (credit (codes "USDC") (codes "GA5Z")))
    × (canonical (credit (codes "USDC") (codes "GA5Z")) ≡ codes "USDC:GA5Z")
    × (parse (codes "USDC:nope") ≡ none)
    × (parse (codes "THIRTEENCHARS:GA5Z") ≡ none)
    × (parse (codes ":GA5Z") ≡ none)
unfolding parse canonical text text_eq split_once
asset_parsing = (refl, refl, refl, refl, refl, refl)

parse_iff_example : (parse (codes "USDC:GA5Z") ≡ some (credit (codes "USDC") (codes "GA5Z"))) ↔ (
    IsAsset (credit (codes "USDC") (codes "GA5Z"))
    × (canonical (credit (codes "USDC") (codes "GA5Z")) ≡ codes "USDC:GA5Z"))
parse_iff_example = parse_iff (codes "USDC:GA5Z") (credit (codes "USDC") (codes "GA5Z"))
