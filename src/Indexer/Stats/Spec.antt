-- ===== src/Indexer/Stats/Spec.antt =====
-- What the messages of the program say about a user, independent of how the handler counts it.
use smartcupleague.Prelude.{ℕ, String, ◌==◌, string_eq, if◌then◌else◌}
use smartcupleague.Indexer.Events.{Payload}

-- Each amount is zero unless the message is of its kind and about the user.
abbrev pub bets_by : String → Payload → ℕ
bets_by u (Payload.bet_accepted user m score penalty stake) = if user == u then 1 else 0
bets_by u _ = 0

abbrev pub staked_by : String → Payload → ℕ
staked_by u (Payload.bet_accepted user m score penalty stake) = if user == u then stake else 0
staked_by u _ = 0

abbrev pub points_of : String → Payload → ℕ
points_of u (Payload.points_awarded user m points) = if user == u then points else 0
points_of u (Payload.podium_bonus_awarded user bonus) = if user == u then bonus else 0
points_of u _ = 0

abbrev pub claimed_by : String → Payload → ℕ
claimed_by u (Payload.match_reward_claimed m user amount) = if user == u then amount else 0
claimed_by u _ = 0

abbrev pub final_prize_of : String → Payload → ℕ
final_prize_of u (Payload.final_prize_claimed user amount) = if user == u then amount else 0
final_prize_of u _ = 0

abbrev pub refunded_to : String → Payload → ℕ
refunded_to u (Payload.refund_claimed user amount) = if user == u then amount else 0
refunded_to u _ = 0
