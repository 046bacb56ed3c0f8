-- ===== src/Core/Tokens/Examples.antt =====
-- Configurations of two tokens, and none.
use reserve.Base.{◌≡◌, ◌≢◌, ◌↔◌, ◌⊎◌, refl, true, false, codes, text, text_eq, trim, split_on}
use reserve.Horizon.Asset.{Asset, native, credit, canonical}
use reserve.Core.Samples.{user, sponsor}
use reserve.Core.Tokens.{
  allowlist_parse, allows, any_allows, entry_allows, pieces, known_tokens, token_canonical,
}
use reserve.Core.Tokens.Allow.{Accepted, allows_iff}

abbrev token : Asset
token = credit (codes "USDC") sponsor

-- A token of the same code by another issuer.
abbrev look_alike : Asset
look_alike = credit (codes "USDC") user

listed :
    (allows (allowlist_parse (codes " XLM, USDC:GBAW,") (codes "net")) token ≡ true)
    × (allows (allowlist_parse (codes " XLM, USDC:GBAW,") (codes "net")) native ≡ true)
    × (allows (allowlist_parse (codes " XLM, USDC:GBAW,") (codes "net")) look_alike ≡ false)
unfolding allows allowlist_parse any_allows entry_allows text text_eq trim split_on pieces canonical
listed = (refl, refl, refl)

-- No entry at all: the curated tokens, of which lumens are one.
defaulted :
    (allows (allowlist_parse (codes " , ") (codes "net")) native ≡ true)
    × (allows (allowlist_parse (codes " , ") (codes "net")) token ≡ false)
unfolding allows allowlist_parse any_allows entry_allows text text_eq trim split_on pieces canonical
    known_tokens token_canonical
defaulted = (refl, refl)

allows_iff_example :
    (allows (allowlist_parse (codes " XLM, USDC:GBAW,") (codes "net")) token ≡ true) ↔ (
      (trim (codes " XLM, USDC:GBAW,") ≡ text "*")
      ⊎ ((trim (codes " XLM, USDC:GBAW,") ≢ text "*")
          × Accepted
              (split_on b',' (trim (codes " XLM, USDC:GBAW,")))
              (known_tokens (codes "net"))
              (canonical token)))
allows_iff_example = allows_iff (codes " XLM, USDC:GBAW,") (codes "net") token
