-- ===== src/Lib.antt =====
-- Reserve, a service that sponsors accounts on the Stellar network: a user asks for operations, is
-- quoted a price in a token, signs the transaction that the service builds, and the service checks it,
-- signs it and pays the network's fee.
--
-- The parts, and the files that model them:
-- - Base: texts as lists of bytes, integers with the wrap-around and saturation of i64, decimal numbers,
--   the bits of a byte, results as values.
-- - Horizon (crates/horizon): Amount, Asset and Records are types.rs, Predicate and Time are
--   predicate.rs, Error is lib.rs. The trait HorizonApi of client.rs is a record of what the network
--   answers: a value of it is the network at one moment, and a handler that asks at several moments
--   takes several values. Client is client.rs, the HTTP requests behind such a value.
-- - Core (crates/core): Plan is plan.rs, Tokens is tokens.rs, Pricing is pricing.rs, Claim is claim.rs,
--   Path is path.rs, Quote is quote.rs, Balance and Build are build.rs, Validate is validate.rs, Asset
--   is asset.rs, Numeric is numeric.rs and Error is lib.rs. Xdr holds the values of the crate stellar_xdr that these build and
--   read.
-- - Signer (crates/signer): fee bumps and signatures of lib.rs; Signer.Keys is where keys come from, with
--   the derivation of slip10.rs.
-- - Api (crates/api): Channels is channels.rs, Apikey is apikey.rs, Limits is limits.rs, Auth is auth.rs,
--   Metrics is metrics.rs, State is state.rs, and Config, with Config.Start, is config.rs. The handlers
--   of routes.rs are Quoting (quote and build), Submit, Issue (challenge and issue_key) and Reads
--   (status, tokens, health and metrics), with their errors in Error and the callers in Caller. Action is
--   what a handler does to the state. Service is a lane of the service over time, and Service.Carried the
--   transactions inside what it posts. Channels.Spec is the specification of the lanes, a function from
--   addresses to leases.
--
-- How they interact: a request becomes a plan, a plan has a price, both go into a quote, which is sealed
-- and travels to the client and back. A quote determines its inner transaction, which the gate of
-- Validate demands byte for byte. Before the sponsor signs, the claims and the fee's route are looked at
-- again. A transaction that opens an account is sourced by a lane, which is leased meanwhile. A handler
-- is an Action: an answer or an error, and the state behind it, which comes back either way. It takes a
-- Moment for each point where it reads the clock or asks Horizon, so both may change in between; within
-- a price or a check of claims Horizon stays one value. What a lane has posted to the network is kept
-- beside its state, as the only record of it.
--
-- A function of the source keeps its name; a method takes the value as an argument; `Type::new` is
-- type_new, `Quote::open` is open_quote. A loop over a list is structural recursion, and the variables
-- that it changes are a record. An early return is an error of Result. Where a `u32` or an `i64` is
-- added or multiplied without a check, the model wraps as a release build does, or a bound at the
-- definition says why it cannot. Text in messages is kept, with each variable part; a literal is given
-- by its code points, which are its bytes but for one arrow.
--
-- Parameters, where the source calls other crates: the decoders of addresses and of hex
-- (Core.Asset.Decoders), JSON, base64 and the authentication code of quotes (Core.Quote.Sealing), the
-- XDR codec (Core.Validate.Codec), digests and payloads (Signer.Payloads), keys (Signer.Sponsor), the
-- crates behind keys and addresses (Signer.Keys.KeyTools), the tools of integrator keys
-- (Api.Apikey.Tools) and of challenges (Api.Auth.AuthTools), rate limiters (Api.Limits.Governor), HTTP and
-- JSON (Horizon.Client.Web), and the variables and files of the process (Api.Config.Environment).
-- Api.State.Crates gathers those of a lane.
--
-- Fuel: print_nat takes as many rounds as the number and one more, and trim as many as the text has
-- bytes; each round uses up a digit or a byte at least. A predicate is evaluated by recursion on it.
--
-- Not modelled: the HTTP server with its router, static pages, JSON bodies and log lines; the set-up of
-- the process and its timer; the end-to-end driver; and the TypeScript SDK. The clocks are numbers. A
-- handler runs as one action on its lane's state, though the source may interleave handlers at their
-- calls of Horizon; calls on the lanes happen one after another, as their locks order them, and what is
-- said of runs of those calls holds for any interleaving.
pub mod Base
pub mod Horizon
pub mod Core
pub mod Signer
pub mod Api
