-- ===== src/Signer/Keys.antt =====
-- crates/signer/src/lib.rs and slip10.rs: where keys come from, and their addresses.
use Prim.Native.Nat.{bit_or}
use reserve.Base.{
  ℕ, ◌++◌, List, [], ◌∷◌, take, drop, Option, Text, text, to_be_bytes, Result, ok, ok_or, ◌>>=◌,
}
use reserve.Signer.{Sponsor, Error, invalid_secret}

-- The crates `ed25519_dalek`, `stellar_strkey` and `hmac`: a key of its seed, the seed of an `S…` text,
-- the `G…` text of a public key, and HMAC-SHA512.
pub record KeyTools : Type 0 where
  pub from_seed_bytes : Text → Sponsor
  pub private_key : Text → Option Text
  pub public_key_text : Text → Text
  pub hmac_sha512 : Text → Text → Text

-- `StellarPath::account`
unfoldable pub account_path : ℕ → List ℕ
account_path index = 44 ∷ 148 ∷ index ∷ []

module _ (k : KeyTools) where
  unfoldable pub from_strkey : Text → Result Error Sponsor
  from_strkey secret = do
    seed ← ok_or (k.private_key secret) invalid_secret
    ok (k.from_seed_bytes seed)

  unfoldable pub address : Sponsor → Text
  address s = k.public_key_text s.public_key_bytes

  -- The two halves of a digest: a key and its chain code.
  abbrev pub halves : Text → Text × Text
  halves digest = (take 32 digest, drop 32 digest)

  -- One round of the loop: the hardened child of a key.
  unfoldable pub derive_child : ℕ → Text × Text → Text × Text
  derive_child index (key, chain) =
      halves (k.hmac_sha512 chain ((0 ∷ []) ++ key ++ to_be_bytes 4 (bit_or index 0x8000_0000)))

  unfoldable pub derive_along : List ℕ → Text × Text → Text × Text
  derive_along [] node = node
  derive_along (index ∷ path) node = derive_along path (derive_child index node)

  unfoldable pub derive_ed25519 : Text → List ℕ → Text
  derive_ed25519 seed path =
      (derive_along path (halves (k.hmac_sha512 (text "ed25519 seed") seed))).0

  unfoldable pub from_bip39_seed : Text → ℕ → Sponsor
  from_bip39_seed seed index = k.from_seed_bytes (derive_ed25519 seed (account_path index))
