-- ===== src/Rewards/Chain.antt =====
-- `ChainService` (rewards-backend/src/chain/chain.service.ts): the grant of a freebet on the ledger.
pub mod Laws
use smartcupleague.Prelude.{ℕ, String, Option, none, some, Bool, true, false, if◌then◌else◌}
use smartcupleague.Action.{Action, failure, pure, throw, gets, try_catch, ◌>>=◌, ◌>>◌}
use smartcupleague.Rewards.Backend.{Backend, Config, Grant}

abbrev pub sign_and_send_timeout_ms : ℕ
sign_and_send_timeout_ms = 180_000

module _ (b : Backend) (config : Config) where
  open b use {World, chain}
  open chain use {is_connected, disconnect, connect, calculate_gas, sign_and_send, response}

  unfoldable pub ensure_connected : Action World (Unit {0})
  ensure_connected = do
    connected ← gets is_connected
    if connected then pure tt else (try_catch disconnect (λ _. pure tt) >> connect)

  -- `withTimeout` around `response()`.
  unfoldable pub with_timeout : Grant → Action World (Unit {0})
  with_timeout tx = do
    answered ← response tx sign_and_send_timeout_ms
    if answered then pure tt else throw (failure "freebet ledger grant timed out after 180000ms")

  unfoldable pub grant_ledger_freebet :
      (actor_id : String) (amount_planck : ℕ) (grant_id reason : String)
      → Action World (Option String)
  unfolding ensure_connected with_timeout
  grant_ledger_freebet actor_id amount_planck grant_id reason =
      if config.chain_disabled then pure none else (do
        ensure_connected
        let tx : Grant = record {
          actor_id = actor_id;
          grant_id = grant_id;
          reason = reason;
          value = amount_planck;
        }
        calculate_gas tx
        tx_hash ← sign_and_send tx
        with_timeout tx
        pure tx_hash)
