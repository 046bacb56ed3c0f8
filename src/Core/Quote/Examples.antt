-- ===== src/Core/Quote/Examples.antt =====
-- Sealed quotes.
use reserve.Base.{◌≡◌, ◌↔◌, refl, [], ◌∷◌, ◌++◌, ok, codes, Text}
use reserve.Core.Samples.{opening_quote, user, sponsor, sealing, sealing-IsCodec}
use reserve.Core.Plan.{sponsored}
use reserve.Core.Quote.{Quote, seal, open_quote, tx_source}
use reserve.Core.Quote.Seal.{IsSealed, open_iff, open-seal}

abbrev token : Text
token = sealing.encode (codes "quote") ++ b'.' ∷ sealing.encode (codes "secret" ++ codes "quote")

token_sealed : seal sealing opening_quote (codes "secret") ≡ ok token
unfolding seal
token_sealed = refl

open-seal_example :
    (open_quote sealing token (codes "secret") ≡ ok opening_quote)
    × ((other : Text) (r : Quote)
        → open_quote sealing token other ≡ ok r
        → (r ≡ opening_quote)
          × ((payload : Text) × (sealing.to_json opening_quote ≡ ok payload)
              × (sealing.mac other payload ≡ sealing.mac (codes "secret") payload)))
open-seal_example =
    open-seal sealing opening_quote (codes "secret") token sealing-IsCodec (λ payload e. refl)
      token_sealed

open_iff_example :
    (open_quote sealing token (codes "secret") ≡ ok opening_quote)
    ↔ IsSealed sealing token (codes "secret") opening_quote
open_iff_example = open_iff sealing token (codes "secret") opening_quote

sources :
    (tx_source opening_quote ≡ codes "GCHN")
    × (tx_source (record opening_quote { channel = [] }) ≡ sponsor)
    × (tx_source (record opening_quote { mode = sponsored }) ≡ user)
unfolding tx_source
sources = (refl, refl, refl)
