-- ===== src/Api/Samples.antt =====
-- Data for the examples: a lane of the testnet with one channel, budgets that never run out, and a Horizon
-- that knows every account, sells lumens for little and takes every envelope.
use reserve.Base.{
  ℕ, true, false, List, [], ◌∷◌, none, some, replicate, pos, Text, text, codes, Result, ok, err,
}
use reserve.Horizon.Records.{Account, HorizonApi}
use reserve.Core.Samples as Core
use reserve.Core.Samples.{
  decoders, sealing, horizon, opening_quote, user, sponsor, usdc, account_at, direct,
}
use reserve.Core.Tokens.{testnet, any}
use reserve.Core.Pricing.{default_config}
use reserve.Core.Build.{build_inner}
use reserve.Core.Error.{Error}
use reserve.Core.Xdr as Xdr
use reserve.Signer.{Sponsor}
use reserve.Api.Limits.{Governor, default_limits}
use reserve.Api.Config.{Config}
use reserve.Api.State.{Crates, Moment, Service}
use reserve.Api.Service.{start}

abbrev pub plenty : Governor
plenty = record {
  Store = Unit;
  limiter = λ n. tt;
  check_key = λ store key. (true, store);
  retain_recent = λ store. store;
}

-- An address is its own key.
abbrev pub key_at : Text → Sponsor
key_at address = record { public_key_bytes = address; sign = λ hash. hash }

abbrev pub bare : Xdr.Transaction
bare = record {
  source_account = Xdr.ed25519 [];
  fee = 0;
  seq_num = pos 0;
  cond = Xdr.Preconditions.time 0 0;
  memo = Xdr.Memo.none;
  operations = [];
  ext = Xdr.TransactionExt.v0;
}

abbrev pub tx_or_bare : Result Error Xdr.Transaction → Xdr.Transaction
tx_or_bare (ok tx) = tx
tx_or_bare (err e) = bare

-- What the sample quote builds, as it is sent out and as it comes back.
abbrev pub unsigned : Xdr.TransactionV1Envelope
unsigned = record { tx = tx_or_bare (build_inner decoders opening_quote); signatures = [] }

abbrev pub signatures : List Xdr.DecoratedSignature
signatures = record { hint = []; signature = codes "user" } ∷ []

abbrev pub reads : Text → Result Text Xdr.TransactionEnvelope
reads [] = ok (Xdr.tx unsigned)
reads (c ∷ s) = ok (Xdr.tx (record unsigned { signatures = signatures }))

abbrev pub crates : Crates
crates = record {
  governor = plenty;
  decoders = decoders;
  sealing = sealing;
  codec = record { to_base64 = λ tx. ok (tx.fee ∷ []); from_base64 = reads };
  envelope_to_base64 = λ e. ok [];
  payloads = record {
    sha256 = λ bytes. bytes;
    tx_payload = λ network tx. ok network;
    fee_bump_payload = λ network bump. ok network;
  };
  key_tools = record {
    from_seed_bytes = key_at;
    private_key = λ s. some s;
    public_key_text = λ s. s;
    hmac_sha512 = λ key message. message;
  };
  tools = record {
    to_json = λ k. ok (text "json");
    from_json = λ s. none;
    encode = λ s. s;
    decode = λ s. some s;
    hex_encode = λ s. s;
    hex_decode = λ s. some s;
    verifying_key = λ s. s;
    public_key = λ s. ok s;
    sign = λ secret payload. payload;
    verify_strict = λ issuer payload signature. false;
  };
  auth_tools = record {
    hmac_sha256 = λ key message. replicate 32 7;
    sha256 = λ bytes. bytes;
    public_key_text = λ key. key;
    to_base64 = λ e. some [];
    from_base64 = λ s. none;
    tx_payload = λ network tx. none;
    is_key = λ key. true;
    verify_strict = λ key hash signature. false;
  };
  parse_ip = λ s. none;
  from_secs = λ n. n;
}

abbrev pub config : Config
config = record {
  network_passphrase = testnet;
  horizon_url = [];
  sponsor = key_at sponsor;
  quote_key = codes "secret";
  pricing = default_config;
  token_allowlist = any;
  limits = default_limits;
  keys = record { issuer = none; network = testnet };
  key_issuer = none;
  trust_proxy = false;
  channel_secrets = key_at Core.channel ∷ [];
}

-- Every account has ten thousand lumens.
abbrev pub rich : Text → Account
rich id = record (account_at id (codes "41")) {
  balances =
      record {
        balance = codes "10000.0000000";
        asset_type = codes "native";
        asset_code = none;
        asset_issuer = none;
      }
      ∷ [];
}

abbrev pub open_horizon : HorizonApi
open_horizon = record horizon {
  account = λ id. ok (some (rich id));
  strict_receive_paths = λ source tokens target amount. ok (direct (codes "0.0000300") ∷ []);
  latest_ledger = ok (record {
    sequence = 108;
    base_fee_in_stroops = pos 100;
    base_reserve_in_stroops = pos 5_000_000;
  });
  submit = λ xdr. ok (record { hash = codes "hash"; ledger = some 109; successful = some true });
}

abbrev pub moments : ℕ → Moment
moments n = record { secs = 1_700_000_000; instant = 100; horizon = open_horizon }

abbrev pub service : Service crates
service = start crates config
