-- ===== src/Indexer/Store.antt =====
-- The database of the indexer as its handler uses it: `ctx.store.find` and `ctx.store.save` of
-- @subsquid/typeorm-store. `none` is a rejected promise. The laws state what the handler relies on:
-- `find` with `In` returns the rows of the listed keys, and `save` writes rows by their keys.
use smartcupleague.Prelude.{
  ℕ, String, ◌≡◌, Option, none, some, List, [], includes, nat_eq, string_eq, if◌then◌else◌, JsMap,
  lookup, insert_all, or_else,
}
use smartcupleague.Indexer.Entities.{
  BolaoMatch, Bet, UserStat, MatchReward, FinalPrizeClaim, RefundClaim, ActivityRecord,
}

-- The arrays that `save` is called with.
pub data Rows : Type 0 where
  match_rows : List BolaoMatch → Rows
  bet_rows : List Bet → Rows
  stat_rows : List UserStat → Rows
  reward_rows : List MatchReward → Rows
  prize_rows : List FinalPrizeClaim → Rows
  refund_rows : List RefundClaim → Rows
  activity_rows : List ActivityRecord → Rows

pub record Store : Type 1 where
  pub Db : Type 0
  pub find_matches : List ℕ → Db → Option (List BolaoMatch)
  pub find_user_stats : List String → Db → Option (List UserStat)
  pub find_bets : ℕ → Db → Option (List Bet)
  pub save : Rows → Db → Option Db

-- The rows that an array of stats makes, by their keys.
abbrev pub stats_by_id : List UserStat → JsMap String UserStat
stats_by_id rows = insert_all (λ r. r.id) rows []

abbrev pub matches_by_id : List BolaoMatch → JsMap ℕ BolaoMatch
matches_by_id rows = insert_all (λ r. r.id) rows []

-- The stats that an array to save holds.
abbrev pub stats_in : Rows → JsMap String UserStat
stats_in (stat_rows rows) = stats_by_id rows
stats_in _ = []

-- What the handler relies on, of the table of user stats: `find` returns the rows of the listed
-- ids that are there, and `save` writes each row under its id and leaves the rest.
pub record StatLaws (store : Store) : Type 0 where
  pub stat : store.Db → String → Option UserStat
  pub found :
      (ids : List String) (db : store.Db) (rows : List UserStat)
      → store.find_user_stats ids db ≡ some rows
      → (u : String) → lookup u (stats_by_id rows) ≡ (if includes u ids then stat db u else none)
  pub saved :
      (rows : Rows) (db db' : store.Db)
      → store.save rows db ≡ some db'
      → (u : String) → stat db' u ≡ or_else (lookup u (stats_in rows)) (stat db u)
