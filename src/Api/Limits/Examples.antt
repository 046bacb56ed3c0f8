-- ===== src/Api/Limits/Examples.antt =====
-- Budgets as lists of the keys that are spent.
use reserve.Base.{
  if◌then◌else◌, ◌≡◌, ◌↔◌, refl, Bool, true, false, List, [], ◌∷◌, Text, text, text_eq, codes,
}
use reserve.Api.Limits.{
  v6, key, bucket_ip, allow, deny, Governor, Limits, limits_new, default_limits, check_caller,
  check,
}
use reserve.Api.Limits.Order.{check_lem}

-- A limiter of one request for each key, whatever its quota.
abbrev spent : List Text → Text → Bool × List Text
spent [] k = (true, k ∷ [])
spent (s ∷ ss) k =
    if text_eq s k then (false, s ∷ ss) else (let rest = spent ss k in (rest.0, s ∷ rest.1))

abbrev once : Governor
once = record { Store = List Text; limiter = λ n. []; check_key = spent; retain_recent = λ s. [] }

abbrev fresh : Limits once
fresh = limits_new once default_limits

check_lem_example :
    (((check once fresh (key (codes "k"))).0 ≡ allow) ↔ (
      ((check_caller once fresh (key (codes "k"))).0 ≡ true)
      × ((once.check_key fresh.global (text "")).0 ≡ true)))
    × ((check_caller once fresh (key (codes "k"))).0 ≡ false
        → ((check once fresh (key (codes "k"))).0 ≡ deny 60 (text "too many requests"))
          × ((check once fresh (key (codes "k"))).1.global ≡ fresh.global))
check_lem_example = check_lem once fresh (key (codes "k"))

same_slash_64 :
    bucket_ip (v6 (32 ∷ 1 ∷ 13 ∷ 184 ∷ 0 ∷ 0 ∷ 0 ∷ 0 ∷ 0 ∷ 0 ∷ 0 ∷ 0 ∷ 0 ∷ 0 ∷ 0 ∷ 1 ∷ []))
    ≡ bucket_ip (v6 (32 ∷ 1 ∷ 13 ∷ 184 ∷ 0 ∷ 0 ∷ 0 ∷ 0 ∷ 0 ∷ 0 ∷ 0 ∷ 0 ∷ 0 ∷ 0 ∷ 0 ∷ 2 ∷ []))
unfolding bucket_ip text_eq
same_slash_64 = refl
