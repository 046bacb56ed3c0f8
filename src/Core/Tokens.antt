-- ===== src/Core/Tokens.antt =====
-- crates/core/src/tokens.rs: the tokens that the service is paid in.
pub mod Allow
mod Examples
use reserve.Base.{
  ℕ, Bool, true, false, not, ◌&&◌, ◌||◌, List, [], ◌∷◌, ◌++◌, Option, none, some, if◌then◌else◌,
  map, Text, text, text_eq, split_on, trim,
}
use reserve.Horizon.Asset.{Asset, canonical}

pub record KnownToken : Type 0 where
  pub code : Text
  pub issuer : Text
  pub domain : Text
  pub slippage_bps : ℕ
  pub note : Text

abbrev pub is_empty : Text → Bool
is_empty [] = true
is_empty (c ∷ s) = false

-- `KnownToken::canonical`
unfoldable pub token_canonical : KnownToken → Text
token_canonical t = if is_empty t.issuer then text "native" else t.code ++ b':' ∷ t.issuer

abbrev pub public_network : Text
public_network = text "Public Global Stellar Network ; September 2015"

abbrev pub testnet : Text
testnet = text "Test SDF Network ; September 2015"

abbrev pub mainnet_tokens : List KnownToken
mainnet_tokens =
    record {
      code = text "XLM";
      issuer = text "";
      domain = text "stellar.org";
      slippage_bps = 0;
      note = text "the native asset; no conversion needed";
    }
    ∷ record {
      code = text "USDC";
      issuer = text "GA5ZSEJYB37JRC5AVCIA5MOP4RHTM335X2KGX3IHOJAPP5RE34K4KZVN";
      domain = text "circle.com";
      slippage_bps = 100;
      note = text "Circle. 2.4M holders, ~$271M outstanding — the default on Stellar";
    }
    ∷ record {
      code = text "USDT0";
      issuer = text "GATISXX6BZ6NC7IKQBY37CJD4SOZL3CYZJWXEDG6JVIY4WBS6KXJHN6Q";
      domain = text "usdt0.to";
      slippage_bps = 500;
      note =
          text "how Tether's USDT exists on Stellar: a LayerZero OFT, not a native Tether issuance";
    }
    ∷ record {
      code = text "EURC";
      issuer = text "GDHU6WRG4IEQXM5NZ4BMPKOXHW76MZM4Y2IEMFDVXBSDP6SJY4ITNPP2";
      domain = text "circle.com";
      slippage_bps = 100;
      note = text "Circle's euro stablecoin. 33k holders";
    }
    ∷ record {
      code = text "PYUSD";
      issuer = text "GDQE7IXJ4HUHV6RQHIUPRJSEZE4DRS5WY577O2FY6YQ5LVWZ7JZTU2V5";
      domain = text "token-metadata.paxos.com";
      slippage_bps = 100;
      note = text "PayPal USD, issued by Paxos. 9.7k holders";
    }
    ∷ record {
      code = text "USDGLO";
      issuer = text "GBBS25EGYQPGEZCGCFBKG4OAGFXU6DSOQBGTHELLJT3HZXZJ34HWS6XV";
      domain = text "app.glodollar.org";
      slippage_bps = 500;
      note = text "Glo Dollar. Small, but a real stablecoin with a direct route";
    }
    ∷ record {
      code = text "AQUA";
      issuer = text "GBNZILSTVQZ4R7IKQDGHYGY2QXL5QOFJYQMXPKWRRM5PAV7Y4M67AQUA";
      domain = text "aqua.network";
      slippage_bps = 200;
      note = text "Aquarius. 192k holders — the most held non-stablecoin on Stellar";
    }
    ∷ record {
      code = text "SHX";
      issuer = text "GDSTRSHXHGJ7ZIVRBXEYE5Q74XUVCUSEKEBR7UCHEUUEK72N7I7KJ6JH";
      domain = text "stronghold.co";
      slippage_bps = 200;
      note = text "Stronghold. 92k holders";
    }
    ∷ record {
      code = text "yXLM";
      issuer = text "GARDNV3Q7YGT4AKSDF25LT32YSCCW4EV22Y2TV3I2PU2MMXJTEDL5T55";
      domain = text "ultracapital.xyz";
      slippage_bps = 50;
      note = text "Ultra Capital's yield-bearing XLM. 54k holders";
    }
    ∷ record {
      code = text "yUSDC";
      issuer = text "GDGTVWSM4MGS4T7Z6W4RPWOCHE2I6RDFCIFZGS3DOA63LWQTRNZNTTFF";
      domain = text "ultracapital.xyz";
      slippage_bps = 150;
      note = text "Ultra Capital's yield-bearing USDC. 35k holders";
    }
    ∷ []

abbrev pub testnet_tokens : List KnownToken
testnet_tokens =
    record {
      code = text "XLM";
      issuer = text "";
      domain = text "stellar.org";
      slippage_bps = 0;
      note = text "the native asset";
    }
    ∷ record {
      code = text "USDC";
      issuer = text "GCKUFD5KAAM6DRSLODK55OVECMB5IJ5NSFQYFTBZRPOTJASUKTBZXGS2";
      domain = text "cavos.xyz";
      slippage_bps = 500;
      note = text "Cavos Testnet USDC, not Circle. The asset Freighter and the Reserve demo send.";
    }
    ∷ record {
      code = text "USDC";
      issuer = text "GBBD47IF6LWK7P7MDEVSCWR7DPUWV3NY3DTQEVFL4NAT4AQH3ZLLFLA5";
      domain = text "centre.io";
      slippage_bps = 200;
      note = text "Circle USDC on Testnet";
    }
    ∷ []

unfoldable pub known_tokens : Text → List KnownToken
known_tokens passphrase =
    if text_eq passphrase public_network then mainnet_tokens else testnet_tokens

-- `iter().find(|t| t.canonical() == canonical)`
unfoldable pub find_token : Text → List KnownToken → Option KnownToken
find_token name [] = none
find_token name (t ∷ ts) =
    let rest = find_token name ts in if text_eq (token_canonical t) name then some t else rest

unfoldable pub find : Asset → Text → Option KnownToken
find asset passphrase = find_token (canonical asset) (known_tokens passphrase)

abbrev slippage_of : Option KnownToken → ℕ → ℕ
slippage_of none fallback = fallback
slippage_of (some t) fallback = t.slippage_bps

unfoldable pub slippage_bps : Asset → Text → ℕ → ℕ
slippage_bps asset passphrase fallback = slippage_of (find asset passphrase) fallback

pub data Allowlist : Type 0 where
  only : List Text → Allowlist
  any : Allowlist

-- `map(trim)`, then `filter(|s| !s.is_empty())`
unfoldable pub pieces : List Text → List Text
pieces [] = []
pieces (s ∷ ss) = let rest = pieces ss in if is_empty (trim s) then rest else trim s ∷ rest

abbrev pub or_known : List Text → Text → Allowlist
or_known [] passphrase = only (map token_canonical (known_tokens passphrase))
or_known (s ∷ ss) passphrase = only (s ∷ ss)

-- `Allowlist::parse`
unfoldable pub allowlist_parse : Text → Text → Allowlist
unfolding pieces
allowlist_parse configured passphrase =
    if text_eq (trim configured) (text "*")
    then any
    else or_known (pieces (split_on b',' (trim configured))) passphrase

-- The closure over the entries of `Only`.
unfoldable pub entry_allows : Text → Text → Bool
entry_allows entry name =
    text_eq entry name
    || text_eq name (text "native") && (text_eq entry (text "XLM") || text_eq entry (text "native"))

unfoldable pub any_allows : List Text → Text → Bool
unfolding entry_allows
any_allows [] name = false
any_allows (entry ∷ entries) name = entry_allows entry name || any_allows entries name

unfoldable pub allows : Allowlist → Asset → Bool
unfolding any_allows
allows any asset = true
allows (only list) asset = any_allows list (canonical asset)

unfoldable pub entries : Allowlist → List Text
entries any = text "*" ∷ []
entries (only list) = list
