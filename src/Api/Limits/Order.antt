-- ===== src/Api/Limits/Order.antt =====
-- Whose budget a request takes from.
use reserve.Base.{◌≡◌, ◌↔◌, inl, inr, refl, sym, ap, ◌∙◌, Bool, true, false, text, Bool-cases}
use reserve.Api.Limits.{Caller, key, anonymous, allow, deny, Governor, Limits, check_caller, check}

check_caller-global :
    (g : Governor) (l : Limits g) (caller : Caller) → (check_caller g l caller).1.global ≡ l.global
unfolding check_caller
check_caller-global g l (key k) = refl
check_caller-global g l (anonymous ip) = refl

-- A request is allowed exactly if its caller's own budget and the global one both have room; one
-- that its own budget refuses is told to wait a minute and takes nothing from the global budget.
pub check_lem :
    (g : Governor) (l : Limits g) (caller : Caller)
    → (((check g l caller).0 ≡ allow)
        ↔ (((check_caller g l caller).0 ≡ true) × ((g.check_key l.global (text "")).0 ≡ true)))
      × ((check_caller g l caller).0 ≡ false
          → ((check g l caller).0 ≡ deny 60 (text "too many requests"))
            × ((check g l caller).1.global ≡ l.global))
unfolding check
check_lem g l caller =
    let same : (g.check_key (check_caller g l caller).1.global (text "")).0
        ≡ (g.check_key l.global (text "")).0 =
      ap (λ s. (g.check_key s (text "")).0) (check_caller-global g l caller) in
    elim (Bool-cases (check_caller g l caller).0) [
      | inl own ↦ elim (Bool-cases (g.check_key l.global (text "")).0) [
        | inl room ↦ (
          (λ h. (own, room), λ h. rw (own, same, room) refl),
          λ refused. absurd (differ own refused),
        )
        | inr full ↦ (
          (
            λ h.
                let e : (check g l caller).0 ≡ deny 5 (text "the service is at capacity") =
                  rw (own, same, full) refl in
                let wrong : allow ≡ deny 5 (text "the service is at capacity") = sym h ∙ e in cc,
            λ h. absurd (differ h.1 full),
          ),
          λ refused. absurd (differ own refused),
        )
      ]
      | inr refused ↦ (
        (
          λ h.
              let e : (check g l caller).0 ≡ deny 60 (text "too many requests") = rw refused refl in
              let wrong : allow ≡ deny 60 (text "too many requests") = sym h ∙ e in cc,
          λ h. absurd (differ h.0 refused),
        ),
        λ again. (rw refused refl, rw refused (check_caller-global g l caller)),
      )
    ]
  where
    differ : {b : Bool} → b ≡ true → b ≡ false → ⊥
    differ t f = let wrong : true ≡ false = sym t ∙ f in cc
