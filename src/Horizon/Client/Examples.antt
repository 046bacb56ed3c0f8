-- ===== src/Horizon/Client/Examples.antt =====
-- A server that knows nothing, and one that fails.
use reserve.Base.{◌≡◌, refl, [], ◌∷◌, none, text, codes, ok, err}
use reserve.Horizon.Error.{api, not_found}
use reserve.Horizon.Client.{
  Response, Web, Horizon, horizon_new, trim_slashes, join, get_json, body_of, horizon_api,
  latest_ledger, submit,
}

abbrev answering : Response → Web
answering res = record {
  get = λ url query. ok res;
  post = λ url form. ok res;
  read_account = λ s. err s;
  read_paths = λ s. ok [];
  read_fee_stats = λ s. err s;
  read_ledgers = λ s. ok [];
  read_transaction = λ s. err s;
  read_claimable_balance = λ s. err s;
  read_submit = λ s. ok (record { hash = s; ledger = none; successful = none });
}

abbrev unknown : Web
unknown = answering (record { status = 404; body = ok [] })

abbrev broken : Web
broken = answering (record { status = 503; body = ok (codes "later") })

abbrev test_server : Horizon
test_server = record { base = codes "https://horizon-testnet.stellar.org" }

trimmed : horizon_new (codes "https://horizon-testnet.stellar.org//") ≡ test_server
unfolding horizon_new trim_slashes
trimmed = refl

-- What is not found is no account, but a ledger must be there, and a rejection keeps its status and body.
answers :
    ((horizon_api unknown test_server).account (codes "GDRX") ≡ ok none)
    × ((horizon_api unknown test_server).latest_ledger ≡ err (not_found (text "ledgers")))
    × ((horizon_api unknown test_server).submit [] ≡ err (api 404 []))
    × ((horizon_api broken test_server).account (codes "GDRX") ≡ err (api 503 (codes "later")))
unfolding horizon_api get_json body_of latest_ledger submit
answers = (refl, refl, refl, refl)

list_of_two : join (codes "native" ∷ codes "USDC:GBAW" ∷ []) ≡ codes "native,USDC:GBAW"
unfolding join
list_of_two = refl
