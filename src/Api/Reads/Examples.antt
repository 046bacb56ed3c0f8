-- ===== src/Api/Reads/Examples.antt =====
-- Statuses, tokens and counters.
use reserve.Base.{◌≡◌, refl, true, false, [], ◌∷◌, text, codes, err}
use reserve.Core.Tokens.{entries, only}
use reserve.Api.Error.{bad_request}
use reserve.Api.Samples.{config, moments}
use reserve.Api.Reads.{status, all_hex, tokens}

-- Horizon does not answer for transactions in the sample; what is no hash never reaches it.
not_a_hash :
    status (moments 0) (codes "xyz")
    ≡ err (bad_request (text "invalid_hash") (text "not a transaction hash"))
unfolding status all_hex
not_a_hash = refl

not_hexadecimal : all_hex (codes "0123abcg") ≡ false
unfolding all_hex
not_hexadecimal = refl

hexadecimal : all_hex (codes "0123456789abcdefABCDEF") ≡ true
unfolding all_hex
hexadecimal = refl

-- `XLM` on a list stands for the native asset.
lumens_known :
    (tokens (record config { token_allowlist = only (codes "XLM" ∷ []) })).0 ≡ codes "XLM" ∷ []
unfolding tokens entries
lumens_known = refl
