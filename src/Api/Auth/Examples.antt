-- ===== src/Api/Auth/Examples.antt =====
-- A challenge of one account at the time 1,000.
use reserve.Base.{
  ◌≡◌, ◌↔◌, ◌<◌, ◌+◌, inl, refl, true, [], text, text_eq, codes, to_be_bytes, from_be_bytes, ok,
  err, arith,
}
use reserve.Core.Samples.{decoders, user}
use reserve.Core.Tokens.{testnet}
use reserve.Core.Asset.{account_id}
use reserve.Core.Quote.{difference}
use reserve.Api.Auth.{expired, mac, challenge_tx, challenge, any_signed, verify}
use reserve.Api.Auth.Samples.{tools, unsigned, signatures, signed}
use reserve.Api.Auth.Proof.{IsProof, verify-IsProof_iff}
use reserve.Api.Auth.RoundTrip.{verify-challenge}

given : challenge tools decoders user (codes "key") 1_000 ≡ ok []
unfolding challenge account_id
given = refl

proved :
    (verify tools signed (codes "key") testnet 1_299 ≡ ok user)
    × (verify tools signed (codes "key") testnet 1_300 ≡ err expired)
unfolding verify challenge_tx mac difference any_signed to_be_bytes from_be_bytes text text_eq
proved = (refl, refl)

verify-IsProof_iff_example :
    (verify tools signed (codes "key") testnet 1_299 ≡ ok user)
    ↔ IsProof tools signed (codes "key") testnet 1_299 user
verify-IsProof_iff_example =
    verify-IsProof_iff tools signed (codes "key") testnet 1_299 user (λ k m. refl)

payload_signed : text_eq (codes "payload") (codes "payload") ≡ true
unfolding text_eq
payload_signed = refl

verify-challenge_example :
    (verify tools signed (codes "key") testnet 1_299 ≡ ok user) ↔ (1_299 < 1_000 + 300)
unfolding challenge_tx mac
verify-challenge_example =
    verify-challenge tools decoders user (codes "key") user testnet 1_000 1_299 [] signed
      (codes "payload") unsigned signatures (λ k m. refl) (λ h. refl) refl refl (omega arith) given
      refl refl refl refl (inl (refl, payload_signed))
