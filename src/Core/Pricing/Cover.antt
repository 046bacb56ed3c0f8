-- ===== src/Core/Pricing/Cover.antt =====
-- What a price covers.
use reserve.Base.{
  ℕ, ◌+◌, ◌*◌, ◌≤◌, ◌≡◌, inl, inr, ap, ◌∙◌, min, max, List, [], ℤ, pos, i64_max, arith, max_ℤ-pos,
  saturating_add, saturating_add-pos, saturating_mul-pos, wrapping_mul-pos, Text, ok, >>=-eq-ok,
  Bool-cases,
}
use reserve.Horizon.Asset.{Asset}
use reserve.Horizon.Records.{HorizonApi}
use reserve.Core.Plan.{Plan, op_count, reserve_stroops}
use reserve.Core.Plan.Bounds.{reserves}
use reserve.Core.Pricing.{
  NetworkParams, PricingConfig, Cost, price, cost_of, charge_of, network_fee, apply_bps, is_native,
  token_amount_for_xlm,
}
use reserve.Core.Tokens.{slippage_bps}
use reserve.Core.Pricing.Rounding.{extra_of, apply_bps-pos}

min-left : {a b : ℕ} → a ≤ b → min a b ≡ a
min-left h = omega (arith, h)

-- The price that is answered differs from the plan's own numbers only in what the market decides.
price-cost_of :
    (h : HorizonApi) (p : Plan) (token : Asset) (source : Text) (n : NetworkParams)
    (cfg : PricingConfig) (net : Text) (c : Cost)
    → price h p token source n cfg net ≡ ok c
    → (amount : ℤ) × (path : List Asset) × (c
        ≡ cost_of p n cfg (slippage_bps token net cfg.slippage_bps) amount path)
unfolding price
price-cost_of h p token source n cfg net c e = elim (Bool-cases (is_native token)) [
  | inl xlm ↦ (charge_of p n cfg, [], ground arith)
  | inr other ↦
      let (answer, e₁, r) =
        >>=-eq-ok (token_amount_for_xlm h token source (charge_of p n cfg))
          (λ answer.
            ok (cost_of p n cfg (slippage_bps token net cfg.slippage_bps) answer.0 answer.1))
          {b = c} (ground arith) in
      (answer.0, answer.1, ground arith)
]

-- The network's fee for the plan's operations and the fee bump, and the reserves, in stroops.
abbrev pub fee_at : Plan → ℕ → ℕ
fee_at p base_fee = base_fee * (op_count p + 1)

abbrev pub outlay : Plan → ℕ → ℕ → ℕ
outlay p base_fee base_reserve = fee_at p base_fee + reserves p * base_reserve

-- The numbers of the network and of the configuration are not negative, and their sums are i64s.
pub record IsPriced (p : Plan) (n : NetworkParams) (cfg : PricingConfig) (fee reserve least : ℕ)
    : Type 0 where
  pub base_fee : n.base_fee_stroops ≡ pos fee
  pub base_reserve : n.base_reserve_stroops ≡ pos reserve
  pub min_charge : cfg.min_charge_stroops ≡ pos least
  pub outlay-fits : outlay p fee reserve + extra_of (outlay p fee reserve) cfg.margin_bps ≤ i64_max
  pub min_charge-fits : least + reserves p * reserve ≤ i64_max

module _ (p : Plan) (n : NetworkParams) (cfg : PricingConfig) (fee reserve least : ℕ)
    (h : IsPriced p n cfg fee reserve least) where
  network_fee-pos : network_fee p n ≡ pos (fee_at p fee)
  unfolding network_fee
  network_fee-pos =
      rw (h.base_fee, saturating_mul-pos fee (op_count p + 1))
        (let f : fee_at p fee ≤ i64_max = omega (arith, h.outlay-fits) in ground arith)

  reserve-pos : reserve_stroops p n.base_reserve_stroops ≡ pos (reserves p * reserve)
  unfolding reserve_stroops
  reserve-pos =
      rw h.base_reserve (wrapping_mul-pos (reserves p) reserve (omega (arith, h.outlay-fits)))

  charge-pos :
      charge_of p n cfg
      ≡ pos (
          max
            (outlay p fee reserve + extra_of (outlay p fee reserve) cfg.margin_bps)
            (least + reserves p * reserve))
  unfolding charge_of
  charge-pos =
      let total : saturating_add (network_fee p n) (reserve_stroops p n.base_reserve_stroops)
          ≡ pos (outlay p fee reserve) =
        rw (network_fee-pos, reserve-pos, saturating_add-pos (fee_at p fee) (reserves p * reserve))
          (ap pos (min-left (omega (arith, h.outlay-fits)))) in
      let with_margin : apply_bps (pos (outlay p fee reserve)) cfg.margin_bps
          ≡ pos (outlay p fee reserve + extra_of (outlay p fee reserve) cfg.margin_bps) =
        apply_bps-pos (outlay p fee reserve) cfg.margin_bps (omega (arith, h.outlay-fits))
        ∙ ap pos (min-left h.outlay-fits) in
      let floor : saturating_add cfg.min_charge_stroops (reserve_stroops p n.base_reserve_stroops)
          ≡ pos (least + reserves p * reserve) =
        rw (h.min_charge, reserve-pos, saturating_add-pos least (reserves p * reserve))
          (ap pos (min-left h.min_charge-fits)) in
      rw (total, with_margin, floor) (max_ℤ-pos _ _)

-- If the network's fee and reserve and the least charge are not negative and their sums, with the
-- margin, fit an i64, then a price that is answered charges at least what the sponsor pays with the
-- margin on top, and at least the least charge and the reserves; the fee and the reserves that it
-- names are exact.
pub price_covers :
    (h : HorizonApi) (p : Plan) (token : Asset) (source : Text) (n : NetworkParams)
    (cfg : PricingConfig) (net : Text) (c : Cost) (fee reserve least : ℕ)
    → IsPriced p n cfg fee reserve least
    → price h p token source n cfg net ≡ ok c
    → (charge : ℕ) × (c.charge_stroops ≡ pos charge)
      × (c.network_fee_stroops ≡ pos (fee_at p fee))
      × (c.reserve_stroops ≡ pos (reserves p * reserve))
      × (outlay p fee reserve * (10_000 + cfg.margin_bps) ≤ charge * 10_000)
      × (least + reserves p * reserve ≤ charge)
      × (charge ≤ i64_max)
unfolding cost_of
price_covers h p token source n cfg net c fee reserve least fits e =
    let (amount, path, whole) = price-cost_of h p token source n cfg net c e in
    (
      _,
      ap (λ (x : Cost). x.charge_stroops) whole ∙ charge-pos p n cfg fee reserve least fits,
      ap (λ (x : Cost). x.network_fee_stroops) whole
          ∙ network_fee-pos p n cfg fee reserve least fits,
      ap (λ (x : Cost). x.reserve_stroops) whole ∙ reserve-pos p n cfg fee reserve least fits,
      covers (outlay p fee reserve) cfg.margin_bps (least + reserves p * reserve),
      omega arith,
      omega (arith, fits.outlay-fits, fits.min_charge-fits),
    )
  where
    covers : (n bps floor : ℕ) → n * (10_000 + bps) ≤ max (n + extra_of n bps) floor * 10_000
    covers n bps floor = omega arith
