-- ===== src/Oracle/PriceFeed.antt =====
-- The price feed (oracle-server/src/price-feed.ts): the price of VARA, pushed to the oracle and then on
-- to BolaoCore.
pub mod Laws
use smartcupleague.Prelude.{
  ℕ, String, Option, none, some, Bool, true, false, ◌||◌, ltb, if◌then◌else◌, string_eq, ◌==◌,
}
use smartcupleague.Action.{Action, pure, try_catch, ◌>>=◌, ◌>>◌}

abbrev pub price_min_micro : ℕ
price_min_micro = 1

abbrev pub price_max_micro : ℕ
price_max_micro = 100_000_000

-- What the feed calls: `fetch` with its JSON, the two contracts by way of `sendTx`, and JavaScript's
-- numbers. `response_usd` is the field `usd` of the body, where it is a number; `round_micro` is
-- `Math.round(usd * 1_000_000)`, and 0 where that is negative.
pub record PriceFeed : Type 1 where
  pub World : Type 0
  pub Number : Type 0
  pub is_finite : Number → Bool
  pub round_micro : Number → ℕ
  pub fetch_ok : Action World Bool
  pub response_usd : Action World (Option Number)
  pub set_vara_usd_price : ℕ → Action World (Unit {0})
  pub refresh_vara_price : (oracle_program_id : String) → Action World (Unit {0})

module _ (b : PriceFeed) where
  open b use {
    World, Number, is_finite, round_micro, fetch_ok, response_usd, set_vara_usd_price,
    refresh_vara_price,
  }

  -- The micro-USD of what stands in the body, if they are within the accepted range.
  unfoldable pub accepted_micro : Option Number → Option ℕ
  accepted_micro none = none
  accepted_micro (some usd) =
      let micro = round_micro usd in
      if is_finite usd
      then if ltb micro price_min_micro || ltb price_max_micro micro then none else some micro
      else none

  unfoldable pub fetch_vara_usd_micro : Action World (Option ℕ)
  unfolding accepted_micro
  fetch_vara_usd_micro =
      try_catch
        (do
          answered ← fetch_ok
          if answered then (do usd ← response_usd; pure (accepted_micro usd)) else pure none)
        (λ _. pure none)

  -- Whether the call returned.
  abbrev pub returned : Action World (Unit {0}) → Action World Bool
  returned call = try_catch (call >> pure true) (λ _. pure false)

  -- With a price: the oracle, and after it BolaoCore, if its program is configured.
  unfoldable pub push_price :
      (oracle_program_id bolao_program_id : String) → ℕ → Action World (Unit {0})
  push_price oracle_program_id bolao_program_id micro = do
    pushed ← returned (set_vara_usd_price micro)
    if pushed
        then if bolao_program_id == ""
          then pure tt
          else try_catch (refresh_vara_price oracle_program_id) (λ _. pure tt)
        else pure tt

  unfoldable pub run_price_feed :
      (oracle_program_id bolao_program_id : String) → Action World (Unit {0})
  unfolding fetch_vara_usd_micro push_price
  run_price_feed oracle_program_id bolao_program_id = do
    micro ← fetch_vara_usd_micro
    elim micro [ none ↦ pure tt | some price ↦ push_price oracle_program_id bolao_program_id price ]
