-- ===== src/Indexer/Events.antt =====
-- The messages that the indexer reads: the chain's events as the archive hands them over
-- (indexer/src/types/gear-events.ts), the tests on them (indexer/src/helpers/is.ts), and the
-- payloads that the decoder returns (indexer/src/handlers/bolao.ts). An event whose `method` is
-- none of the named ones is `other`; a payload that is only turned into JSON is its JSON text.
use smartcupleague.Prelude.{ℕ, String, Option, Bool, not, List, ◌==◌, string_eq}

pub record Score : Type 0 where
  pub home : ℕ
  pub away : ℕ

pub data Payload : Type 0 where
  match_registered : (match_id : ℕ) (phase home away : String) (kick_off : ℕ) → Payload
  phase_registered : (json : String) → Payload
  bet_accepted :
      (user : String) (match_id : ℕ) (score : Score) (penalty : Option String) (stake : ℕ) → Payload
  result_proposed : (match_id : ℕ) (score : Score) (penalty : Option String) → Payload
  result_finalized : (match_id : ℕ) (score : Score) (penalty : Option String) → Payload
  settlement_prepared : (match_id : ℕ) → Payload
  points_awarded : (user : String) (match_id points : ℕ) → Payload
  match_reward_claimed : (match_id : ℕ) (user : String) (amount : ℕ) → Payload
  final_prize_claimed : (user : String) (amount : ℕ) → Payload
  podium_finalized : (json : String) → Payload
  podium_bonus_awarded : (user : String) (bonus_points : ℕ) → Payload
  match_cancelled : (match_id total_refunded : ℕ) → Payload
  refund_claimed : (user : String) (amount : ℕ) → Payload
  other : Payload

-- What `SailsDecoder.decodeEvent` returns: the service's name, and the method with its payload.
pub record OutputMessage : Type 0 where
  pub service : String
  pub payload : Payload

pub record ChainEvent : Type 0 where
  pub name : String
  pub message_id : String
  pub source : String
  pub has_details : Bool
  pub raw_payload : String

pub record Block : Type 0 where
  pub height : ℕ
  pub timestamp : Option ℕ
  pub events : List ChainEvent

unfoldable pub is_user_message_sent_event : ChainEvent → Bool
is_user_message_sent_event event = event.name == "Gear.UserMessageSent"

-- A message with reply details is a reply, and no event.
unfoldable pub is_sails_event : ChainEvent → Bool
is_sails_event event = not event.has_details
