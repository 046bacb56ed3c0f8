-- ===== src/Core/Balance.antt =====
-- crates/core/src/build.rs: the ids of claimable balances.
use reserve.Base.{
  not, ◌||◌, [], ◌∷◌, ◌++◌, ◌==◌, length, take, drop, Text, text, text_eq, Result, ok, ok_or,
  fail_if, ◌>>=◌, ◌>>◌,
}
use reserve.Core.Error.{Error}
use reserve.Core.Asset.{Decoders}

abbrev pub bad_id : Text → Error
bad_id id = Error.amount (text "balance id " ++ id)

-- Four bytes of zero, the type, before a hash of 32 bytes; the result is the hash.
unfoldable pub parse_balance_id : Decoders → Text → Result Error Text
parse_balance_id d id = do
  bytes ← ok_or (d.hex_decode id) (bad_id id)
  fail_if (not (length bytes == 36) || not (text_eq (take 4 bytes) (0 ∷ 0 ∷ 0 ∷ 0 ∷ [])))
      (bad_id id)
  ok (drop 4 bytes)
