-- ===== src/Horizon/Client.antt =====
-- crates/horizon/src/client.rs: Horizon over HTTP.
mod Examples
use reserve.Base.{
  ℕ, ◌+◌, ◌-◌, Bool, true, false, not, ◌&&◌, List, [], ◌∷◌, ◌++◌, map, Option, none, some,
  if◌then◌else◌, leb, ◌==◌, ℤ, Text, text, Result, ok, err, ok_or, fail_if, ◌>>=◌, ◌>>◌,
}
use reserve.Horizon.Error.{Error, http, api, not_found, decode}
use reserve.Horizon.Amount.{format_stroops}
use reserve.Horizon.Asset.{Asset, canonical, query_triple}
use reserve.Horizon.Records.{
  Account, PathRecord, FeeStats, Ledger, TransactionRecord, ClaimableBalance, SubmitResponse,
  HorizonApi,
}

-- An answer of a server: its status, and its body unless that cannot be read.
pub record Response : Type 0 where
  pub status : ℕ
  pub body : Result Text Text

-- The crate `reqwest`, by a URL and the pairs of its query or form, and `serde_json` at the types that are
-- read. The wrapped lists are those of `_embedded.records`. An error is its message.
pub record Web : Type 0 where
  pub get : Text → List (Text × Text) → Result Text Response
  pub post : Text → List (Text × Text) → Result Text Response
  pub read_account : Text → Result Text Account
  pub read_paths : Text → Result Text (List PathRecord)
  pub read_fee_stats : Text → Result Text FeeStats
  pub read_ledgers : Text → Result Text (List Ledger)
  pub read_transaction : Text → Result Text TransactionRecord
  pub read_claimable_balance : Text → Result Text ClaimableBalance
  pub read_submit : Text → Result Text SubmitResponse

pub record Horizon : Type 0 where
  pub base : Text

-- `trim_end_matches('/')`
unfoldable pub trim_slashes : Text → Text
trim_slashes [] = []
trim_slashes (c ∷ s) = elim (trim_slashes s) [
  | [] ↦ if c == b'/' then [] else c ∷ []
  | d ∷ t ↦ c ∷ d ∷ t
]

unfoldable pub horizon_new : Text → Horizon
horizon_new base_url = record { base = trim_slashes base_url }

-- `StatusCode::is_success`
abbrev pub is_success : ℕ → Bool
is_success status = leb 200 status && leb status 299

abbrev pub sent : {A : Type 0} → Result Text A → Result Error A
sent (ok a) = ok a
sent (err e) = err (http e)

abbrev pub decoded : {A : Type 0} → Result Text A → Result Error A
decoded (ok a) = ok a
decoded (err e) = err (decode e)

-- `join(",")`
unfoldable pub join : List Text → Text
join [] = []
join (s ∷ []) = s
join (s ∷ t ∷ ss) = s ++ b',' ∷ join (t ∷ ss)

abbrev pub or_empty : {A : Type 0} → Option (List A) → List A
or_empty none = []
or_empty (some xs) = xs

abbrev pub first : {A : Type 0} → Option (List A) → Option A
first none = none
first (some []) = none
first (some (x ∷ xs)) = some x

-- The body of a successful answer.
unfoldable pub body_of : {A : Type 0} → (Text → Result Text A) → Response → Result Error A
body_of read res = do
  body ← sent res.body
  fail_if (not (is_success res.status)) (api res.status body)
  decoded (read body)

abbrev pub some_body : {A : Type 0} → Result Error A → Result Error (Option A)
some_body (ok a) = ok (some a)
some_body (err e) = err e

module _ (w : Web) (h : Horizon) where
  unfoldable pub get_json :
      {A : Type 0} → (Text → Result Text A) → Text → List (Text × Text) → Result Error (Option A)
  get_json read path query = do
    res ← sent (w.get (h.base ++ path) query)
    if res.status == 404 then ok none else some_body (body_of read res)

  -- The query of a search for routes.
  unfoldable pub path_query : Text → List Asset → Asset → ℤ → List (Text × Text)
  path_query source_account source_assets destination amount =
      query_triple destination (text "destination")
      ++ (text "destination_amount", format_stroops amount)
        ∷ by_assets source_account source_assets
        ∷ []
    where
      by_assets : Text → List Asset → Text × Text
      by_assets source_account [] = (text "source_account", source_account)
      by_assets source_account (a ∷ assets) =
          (text "source_assets", join (map canonical (a ∷ assets)))

  unfoldable pub strict_receive_paths :
      Text → List Asset → Asset → ℤ → Result Error (List PathRecord)
  strict_receive_paths source_account source_assets destination amount = do
    wrapped ←
        get_json w.read_paths (text "/paths/strict-receive")
          (path_query source_account source_assets destination amount)
    ok (or_empty wrapped)

  unfoldable pub fee_stats : Result Error FeeStats
  fee_stats = do
    answer ← get_json w.read_fee_stats (text "/fee_stats") []
    ok_or answer (not_found (text "fee_stats"))

  unfoldable pub latest_ledger : Result Error Ledger
  latest_ledger = do
    wrapped ←
        get_json w.read_ledgers (text "/ledgers")
          ((text "order", text "desc") ∷ (text "limit", text "1") ∷ [])
    ok_or (first wrapped) (not_found (text "ledgers"))

  unfoldable pub submit : Text → Result Error SubmitResponse
  submit envelope_xdr_base64 = do
    res ← sent (w.post (h.base ++ text "/transactions") ((text "tx", envelope_xdr_base64) ∷ []))
    body_of w.read_submit res

  -- `impl HorizonApi for Horizon`
  unfoldable pub horizon_api : HorizonApi
  horizon_api = record {
    account = λ id. get_json w.read_account (text "/accounts/" ++ id) [];
    strict_receive_paths = strict_receive_paths;
    fee_stats = fee_stats;
    latest_ledger = latest_ledger;
    submit = submit;
    transaction = λ hash. get_json w.read_transaction (text "/transactions/" ++ hash) [];
    claimable_balance =
        λ id. get_json w.read_claimable_balance (text "/claimable_balances/" ++ id) [];
  }
