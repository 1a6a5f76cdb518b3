-- ===== src/Oracle/PriceFeed/Laws.antt =====
-- What a cycle of the price feed sends.
use smartcupleague.Prelude.{
  ℕ, ◌≤◌, ◌≡◌, refl, ap, ◌∙◌, ◌⊎◌, inl, inr, String, Option, none, some, true, false, arith,
  Bool-cases, Option-cases, string_eq, ◌==◌,
}
use smartcupleague.Action.{Thrown, ok, err, ran-cases}
use smartcupleague.Oracle.PriceFeed.{
  PriceFeed, accepted_micro, fetch_vara_usd_micro, push_price, run_price_feed,
}

accepted-range :
    (b : PriceFeed) (usd : Option b.Number) (micro : ℕ)
    → accepted_micro b usd ≡ some micro
    → (1 ≤ micro) × (micro ≤ 100_000_000)
unfolding accepted_micro
accepted-range b none micro h = absurd (ground arith)
accepted-range b (some usd) micro h = ground arith

module _ (b : PriceFeed) where
  -- The fetch returns whatever is thrown in it, and a price that it returns is in the range.
  fetch-returns :
      (w : b.World)
      → (price : Option ℕ) × (w' : b.World) × (fetch_vara_usd_micro b w ≡ (ok price, w'))
        × ((price ≡ none)
            ⊎ ((micro : ℕ) × (price ≡ some micro) × (1 ≤ micro) × (micro ≤ 100_000_000)))
  unfolding fetch_vara_usd_micro
  fetch-returns w = elim (ran-cases (b.fetch_ok w)) [
    | inr (e, w1, ran) ↦ (none, w1, rw ran refl, inl refl)
    | inl (answered, w1, ran) ↦ elim (Bool-cases answered) [
      | inr no_ ↦ (none, w1, rw (ran, no_) refl, inl refl)
      | inl yes_ ↦ elim (ran-cases (b.response_usd w1)) [
        | inr (e, w2, ran2) ↦ (none, w2, rw (ran, yes_, ran2) refl, inl refl)
        | inl (usd, w2, ran2) ↦ (
          accepted_micro b usd,
          w2,
          rw (ran, yes_, ran2) refl,
          elim (Option-cases (accepted_micro b usd)) [
            | inl e ↦ inl e
            | inr (micro, e) ↦
                (let (low, high) = accepted-range b usd micro e in inr (micro, e, low, high))
          ],
        )
      ]
    ]
  ]

  -- How a cycle ends, by what its calls return: no price; a price that the oracle did not take; one
  -- that it took where BolaoCore is not configured; or one that it took, and then one call of
  -- BolaoCore, whether that returns or throws.
  abbrev pub Cycle : (oracle_program_id bolao_program_id : String) → b.World → b.World → Type 0
  Cycle oracle_program_id bolao_program_id w w' =
      (w1 : b.World) × ((fetch_vara_usd_micro b w ≡ (ok none, w1)) × (w' ≡ w1)
        ⊎ ((micro : ℕ) × (fetch_vara_usd_micro b w ≡ (ok (some micro), w1))
            × (1 ≤ micro)
            × (micro ≤ 100_000_000)
            × (((e : Thrown) × (b.set_vara_usd_price micro w1 ≡ (err e, w')))
                ⊎ ((w2 : b.World) × (b.set_vara_usd_price micro w1 ≡ (ok tt, w2))
                    × (((bolao_program_id == "") ≡ true) × (w' ≡ w2)
                        ⊎ ((bolao_program_id == "") ≡ false)
                          × ((b.refresh_vara_price oracle_program_id w2).1 ≡ w'))))))

  -- A cycle returns whatever its calls throw. It sends the oracle a price of 1 to 100 000 000 micro-USD
  -- at most once, and BolaoCore, if it is configured, is asked to refresh only after the oracle took
  -- the price.
  pub run_price_feed-Cycle :
      (oracle_program_id bolao_program_id : String) (w : b.World)
      → (w' : b.World) × (run_price_feed b oracle_program_id bolao_program_id w ≡ (ok tt, w'))
        × Cycle oracle_program_id bolao_program_id w w'
  unfolding run_price_feed push_price
  run_price_feed-Cycle oracle_program_id bolao_program_id w =
      let (price, w1, fetched, range) = fetch-returns w in
      elim range [
        | inl e ↦ (w1, rw (fetched, e) refl, (w1, inl (fetched ∙ ap (λ p. (ok p, w1)) e, refl)))
        | inr (micro, e, low, high) ↦
            (let known = fetched ∙ ap (λ p. (ok p, w1)) e in
              elim (ran-cases (b.set_vara_usd_price micro w1)) [
                | inr (thrown, w2, refused) ↦ (
                  w2,
                  rw (fetched, e, refused) refl,
                  (w1, inr (micro, known, low, high, inl (thrown, refused))),
                )
                | inl (t, w2, taken) ↦ elim (Bool-cases (bolao_program_id == "")) [
                  | inl unset ↦ (
                    w2,
                    rw (fetched, e, taken, unset) refl,
                    (w1, inr (micro, known, low, high, inr (w2, taken, inl (unset, refl)))),
                  )
                  | inr set ↦ elim (ran-cases (b.refresh_vara_price oracle_program_id w2)) [
                    | inl (u, w3, done) ↦ (
                      w3,
                      rw (fetched, e, taken, set, done) refl,
                      (
                        w1,
                        inr (
                          micro,
                          known,
                          low,
                          high,
                          inr (w2, taken, inr (set, ap (λ x. x.1) done)),
                        ),
                      ),
                    )
                    | inr (thrown, w3, failed) ↦ (
                      w3,
                      rw (fetched, e, taken, set, failed) refl,
                      (
                        w1,
                        inr (
                          micro,
                          known,
                          low,
                          high,
                          inr (w2, taken, inr (set, ap (λ x. x.1) failed)),
                        ),
                      ),
                    )
                  ]
                ]
              ])
      ]
