-- ===== src/Core/Samples.antt =====
-- Data for the examples: decoders that behave as the real ones do on the shapes used there, and the
-- addresses of the unit tests, shortened.
use reserve.Base.{
  List, [], ◌∷◌, Option, none, some, ◌==◌, length, replicate, if◌then◌else◌, Text, codes,
}
use reserve.Base.{true, pos, ok, err, ◌+◌, ◌-◌, ◌≡◌, refl, ap, ap₂, ◌++◌, map, Lacks, arith}
use reserve.Horizon.Error.{http}
use reserve.Horizon.Predicate.{predicate, no_parts, no_inner}
use reserve.Horizon.Records.{Account, PathRecord, ClaimableBalance, HorizonApi}
use reserve.Core.Asset.{Decoders}
use reserve.Core.Plan.{bootstrap, create_account, change_trust, claim_balance}
use reserve.Core.Quote.{Quote, Sealing}
use reserve.Core.Quote.Seal.{IsCodec}

-- An address is its own key, if it begins with `G`; a text of 72 digits stands for 36 zero bytes.
abbrev pub key_of : Text → Option Text
key_of [] = none
key_of (c ∷ s) = if c == b'G' then some (c ∷ s) else none

abbrev pub zeros_of : Text → Option Text
zeros_of s = if length s == 72 then some (replicate 36 0) else none

abbrev pub decoders : Decoders
decoders = record { public_key = key_of; hex_decode = zeros_of }

abbrev pub user : Text
user = codes "GDRX"

abbrev pub sponsor : Text
sponsor = codes "GBAW"

abbrev pub usdc : Text
usdc = codes "USDC:GBAW"

abbrev pub balance_id : Text
balance_id = replicate 72 b'0'

-- Horizon as the unit tests have it: every account is at sequence number 41, every balance is 25 of the
-- token for the user at once, and two direct routes sell lumens, the second for less.
abbrev pub direct : Text → PathRecord
direct amount = record {
  source_amount = amount;
  destination_amount = codes "0.0056000";
  source_asset_type = codes "credit_alphanum4";
  source_asset_code = some (codes "USDC");
  source_asset_issuer = some sponsor;
  path = [];
}

abbrev pub routes : List PathRecord
routes = direct (codes "0.0010000") ∷ direct (codes "0.0008000") ∷ []

abbrev pub arriving : Text → ClaimableBalance
arriving id = record {
  id = id;
  asset = usdc;
  amount = codes "25.0000000";
  claimants =
      record {
        destination = user;
        predicate = predicate (some true) no_parts no_parts no_inner none none none;
      }
      ∷ [];
  last_modified_time = none;
}

abbrev pub account_at : Text → Text → Account
account_at id sequence = record {
  id = id;
  sequence = sequence;
  subentry_count = 0;
  num_sponsoring = 0;
  num_sponsored = 0;
  balances = [];
}

abbrev pub horizon : HorizonApi
horizon = record {
  account = λ id. ok (some (account_at id (codes "41")));
  strict_receive_paths = λ source tokens target amount. ok routes;
  fee_stats = err (http []);
  latest_ledger = err (http []);
  submit = λ xdr. err (http []);
  transaction = λ hash. err (http []);
  claimable_balance = λ id. ok (some (arriving id));
}

-- A bootstrap quote through a channel, with its fee route.
abbrev pub channel : Text
channel = codes "GCHN"

abbrev pub opening_quote : Quote
opening_quote = record {
  network = codes "Test SDF Network ; September 2015";
  mode = bootstrap;
  source = user;
  sponsor = sponsor;
  channel = channel;
  ops = create_account user ∷ change_trust usdc none ∷ claim_balance balance_id ∷ [];
  fee_token = usdc;
  charge_stroops = pos 360;
  send_max_stroops = pos 303;
  path = [];
  reserve_stroops = pos 15_000_000;
  sequence = pos 42;
  inner_fee_stroops = 600;
  min_time = 0;
  max_time = 1_800_000_000;
  expires_at_ledger = 120;
}

-- An encoding that shifts each byte past the dot, and a code that puts the key first.
abbrev pub sealing : Sealing
sealing = record {
  to_json = λ q. ok (codes "quote");
  from_json = λ payload. some opening_quote;
  encode = λ bytes. map (λ b. b + 47) bytes;
  decode = λ s. some (map (λ c. c - 47) s);
  mac = λ key payload. key ++ payload;
}

shift_back : (bytes : Text) → map (λ c. c - 47) (map (λ b. b + 47) bytes) ≡ bytes
shift_back [] = refl
shift_back (b ∷ bytes) =
    let e : (b + 47) - 47 ≡ b = omega arith in ap₂ (λ x (s : Text). x ∷ s) e (shift_back bytes)

shift-Lacks : (bytes : Text) → Lacks b'.' (map (λ b. b + 47) bytes)
shift-Lacks [] = tt
shift-Lacks (b ∷ bytes) = (λ e. absurd (omega arith), shift-Lacks bytes)

pub sealing-IsCodec : IsCodec sealing
sealing-IsCodec = record {
  decode-encode = λ bytes. ap some (shift_back bytes);
  encode-Lacks = shift-Lacks;
}
