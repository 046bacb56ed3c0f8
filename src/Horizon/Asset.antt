-- ===== src/Horizon/Asset.antt =====
-- crates/horizon/src/types.rs: assets, their canonical text and their query parameters.
pub mod RoundTrip
mod Examples
use reserve.Base.{
  ℕ, Bool, not, ◌||◌, List, [], ◌∷◌, ◌++◌, Option, none, some, ltb, leb, ◌==◌, if◌then◌else◌,
  length, Text, text, text_eq, split_once,
}

pub data Asset : Type 0 where
  native : Asset
  credit : Text → Text → Asset

unfoldable pub canonical : Asset → Text
canonical native = text "native"
canonical (credit code issuer) = code ++ b':' ∷ issuer

-- `str::is_empty`, and `starts_with` at one byte.
abbrev pub is_empty : Text → Bool
is_empty [] = Bool.true
is_empty (c ∷ s) = Bool.false

abbrev pub starts_with : ℕ → Text → Bool
starts_with c [] = Bool.false
starts_with c (a ∷ s) = a == c

-- The part of `parse` behind the split.
abbrev parse_credit : Option (Text × Text) → Option Asset
parse_credit none = none
parse_credit (some (code, issuer)) =
    if is_empty code || ltb 12 (length code) || not (starts_with b'G' issuer)
    then none
    else some (credit code issuer)

unfoldable pub parse : Text → Option Asset
parse s = if text_eq s (text "native") then some native else parse_credit (split_once b':' s)

-- The type, code and issuer as query parameters.
unfoldable pub query_triple : Asset → Text → List (Text × Text)
query_triple native prefix = (prefix ++ text "_asset_type", text "native") ∷ []
query_triple (credit code issuer) prefix =
    (
      prefix ++ text "_asset_type",
      if leb (length code) 4 then text "credit_alphanum4" else text "credit_alphanum12",
    )
    ∷ (prefix ++ text "_asset_code", code)
    ∷ (prefix ++ text "_asset_issuer", issuer)
    ∷ []

-- One hop of a route, as path finding returns it.
pub record PathHop : Type 0 where
  pub asset_type : Text
  pub asset_code : Option Text
  pub asset_issuer : Option Text

abbrev credit_of : Option Text → Option Text → Option Asset
credit_of (some code) (some issuer) = some (credit code issuer)
credit_of none issuer = none
credit_of (some code) none = none

unfoldable pub to_asset : PathHop → Option Asset
to_asset hop =
    if text_eq hop.asset_type (text "native")
    then some native
    else credit_of hop.asset_code hop.asset_issuer
