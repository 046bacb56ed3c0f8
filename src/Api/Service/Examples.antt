-- ===== src/Api/Service/Examples.antt =====
-- Runs of a lane.
use reserve.Base.{◌++◌, ◌∷◌, none, codes}
use reserve.Core.Samples.{sealing}
use reserve.Api.Service.Carried.{AllBuilt, Reaches-AllBuilt}
use reserve.Api.Limits.{prune}
use reserve.Api.Caller.{Headers}
use reserve.Api.Samples.{crates, config, service, moments}
use reserve.Api.State.{Service, set_limits}
use reserve.Api.Quoting.{build}
use reserve.Api.Submit.{SubmitRequest, submit}
use reserve.Api.Service.{Reaches, starts, builds, submits, prunes}
use reserve.Api.Service.Invariant.{IsServing, submissions, Reaches-IsServing}

abbrev no_headers : Headers
no_headers name = none

-- The sample quote, signed and posted.
abbrev sealed_request : SubmitRequest
sealed_request = record {
  quote = sealing.encode (codes "quote") ++ b'.' ∷ sealing.encode (codes "secret" ++ codes "quote");
  signed_xdr = codes "signed";
}

abbrev after_posting : Service crates
after_posting = (submit crates no_headers none sealed_request moments service).1

Reaches-AllBuilt_example : AllBuilt crates config after_posting.posted
Reaches-AllBuilt_example =
    Reaches-AllBuilt crates (submits no_headers none sealed_request moments starts)

-- A posting, and then a request for a transaction and a forgetting of quiet callers.
abbrev after_build : Service crates
after_build = (build crates no_headers none (codes "quote") moments after_posting).1

abbrev after_prune : Service crates
after_prune = set_limits crates (prune crates.governor after_build.app.limits) after_build

abbrev run : Reaches crates config after_prune
run = prunes (
    builds no_headers none (codes "quote") moments
      (submits no_headers none sealed_request moments starts))

Reaches-IsServing_example : IsServing crates config (submissions crates run) after_prune
Reaches-IsServing_example = Reaches-IsServing crates run
