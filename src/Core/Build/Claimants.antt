-- ===== src/Core/Build/Claimants.antt =====
-- Who can claim a balance that is left for somebody.
use reserve.Base.{
  ◌≡◌, ◌≢◌, ◌⊎◌, inl, inr, refl, ◌∙◌, true, false, List, [], ◌∷◌, Text, text, text_eq, eq→text_eq,
  ok, fail_if, >>=-eq-ok, fail_if-eq-ok, Bool-cases, arith, some,
}
use reserve.Core.Error.{Error}
use reserve.Core.Asset.{Decoders, account_id}
use reserve.Core.Xdr as Xdr
use reserve.Core.Build.{claimable_claimants, sort_pair, text_lt, reclaim_predicate}
use reserve.Core.Build.Assets.{account_id-eq-ok, bounded-eq-ok}

abbrev receiver_of : Text → Xdr.Claimant
receiver_of key = record { destination = key; predicate = Xdr.unconditional }

abbrev sender_of : Text → Xdr.Claimant
sender_of key = record { destination = key; predicate = reclaim_predicate }

-- Two claimants in the order of their keys.
abbrev pub IsSorted : List Xdr.Claimant → Type 0
IsSorted [] = Unit
IsSorted (a ∷ []) = Unit
IsSorted (a ∷ b ∷ rest) = (text_lt b.destination a.destination ≡ false) × IsSorted (b ∷ rest)

-- The receiver, who can claim at once, and the sender, who can claim after the reclaim delay.
pub record IsPair (d : Decoders) (source destination : Text) (cs : List Xdr.Claimant) : Type 0 where
  pub receiver : Text
  pub sender : Text
  pub distinct : source ≢ destination
  pub receiver_key : d.public_key destination ≡ some receiver
  pub sender_key : d.public_key source ≡ some sender
  pub both :
      (cs ≡ receiver_of receiver ∷ sender_of sender ∷ [])
      ⊎ (cs ≡ sender_of sender ∷ receiver_of receiver ∷ [])
  pub sorted : IsSorted cs

-- A text that is before another is not behind it.
text_lt_asym : (s t : Text) → text_lt s t ≡ true → text_lt t s ≡ false
unfolding text_lt
text_lt_asym [] [] h = cc
text_lt_asym [] (b ∷ t) h = refl
text_lt_asym (a ∷ s) [] h = cc
text_lt_asym (a ∷ s) (b ∷ t) h = ground (arith, text_lt_asym s t)

sort_pair-both :
    (a b : Xdr.Claimant)
    → ((sort_pair a b ≡ a ∷ b ∷ []) ⊎ (sort_pair a b ≡ b ∷ a ∷ [])) × IsSorted (sort_pair a b)
unfolding sort_pair
sort_pair-both a b = elim (Bool-cases (text_lt b.destination a.destination)) [
  | inl e ↦ rw e (inr refl, (text_lt_asym b.destination a.destination e, tt))
  | inr e ↦ rw e (inl refl, (e, tt))
]

-- Where claimants are made, the source and the destination are two texts and both are addresses; the
-- claimants are the destination, who can claim at once, and the source, who can claim after the
-- reclaim delay, in the order of their keys.
pub claimable_claimants-IsPair :
    (d : Decoders) (source destination : Text) (cs : List Xdr.Claimant)
    → claimable_claimants d source destination ≡ ok cs
    → IsPair d source destination cs
unfolding claimable_claimants
claimable_claimants-IsPair d source destination cs h =
    let (u, e₁, h₁) =
      >>=-eq-ok
        (fail_if (text_eq source destination)
          (Error.unsupported (text "cannot leave a claimable balance for yourself")))
        _ h in
    let (receiver, e₂, h₂) = >>=-eq-ok (account_id d destination) _ h₁ in
    let (sender, e₃, h₃) = >>=-eq-ok (account_id d source) _ h₂ in
    let (same, few) =
      bounded-eq-ok 10 (sort_pair (receiver_of receiver) (sender_of sender)) (text "claimants")
        h₃ in
    let (which, order) = sort_pair-both (receiver_of receiver) (sender_of sender) in
    let differ =
      fail_if-eq-ok _ (Error.unsupported (text "cannot leave a claimable balance for yourself"))
        e₁ in
    record {
      receiver = receiver;
      sender = sender;
      distinct = λ e. let f = eq→text_eq source destination e in cc;
      receiver_key = account_id-eq-ok d destination e₂;
      sender_key = account_id-eq-ok d source e₃;
      both = elim which [ inl e ↦ inl (same ∙ e) | inr e ↦ inr (same ∙ e) ];
      sorted = rw same order;
    }
