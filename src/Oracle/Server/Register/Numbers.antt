-- ===== src/Oracle/Server/Register/Numbers.antt =====
-- The numbers that the matches of a tournament have in BolaoCore, and those that the server keeps. A
-- registration that returns is read as one that the contract took: the code does not wait for the
-- contract's response, and a refusal that comes in that response alone counts as a success there.
use Prim.Native.String.{◌++◌ as append}
use mathlib.Core.List
use smartcupleague.Prelude.{
  ℕ, zero, suc, ◌≡◌, String, Option, none, some, Bool, List, [], ◌∷◌, ◌++◌, map, nat_eq, select,
  if◌then◌else◌,
}
use smartcupleague.Action.{Result, ok, err, Thrown}
use smartcupleague.Oracle.Server.State.{ServerMaps, Outside}
use smartcupleague.Oracle.Server.Register.Kept.{entry_of, kept_map, kept_maps}
use smartcupleague.Oracle.Server.Register.Tournament.{MatchEntry, MatchSync}

-- A match as it is registered.
abbrev pub Teams : Type 0
Teams = String × String × ℕ

abbrev pub teams_of : MatchSync → Teams
teams_of x = (x.entry.home_team, x.entry.away_team, x.entry.kick_off)

abbrev entry_teams : MatchEntry → Teams
entry_teams entry = (entry.home_team, entry.away_team, entry.kick_off)

abbrev pub has_bolao : MatchSync → Bool
has_bolao x = x.bolao_ok

abbrev pub nth {ℓ} : {A : Type ℓ} → ℕ → List A → Option A
nth n [] = none
nth zero (x ∷ xs) = some x
nth (suc n) (x ∷ xs) = nth n xs

module _ (b : Outside) (contract : b.World → List Teams)
    (registered : (phase home away : String) (kick_off : ℕ) (w w' : b.World)
      → b.register_bolao_match phase home away kick_off w ≡ (ok tt, w')
      → contract w' ≡ contract w ++ (home, away, kick_off) ∷ [])
    (refused : (phase home away : String) (kick_off : ℕ) (e : Thrown) (w w' : b.World)
      → b.register_bolao_match phase home away kick_off w ≡ (err e, w')
      → contract w' ≡ contract w)
    (untouched : (match_id : ℕ) (phase home away : String) (kick_off : ℕ) (w : b.World)
      → contract ((b.register_oracle_match match_id phase home away kick_off w).1)
        ≡ contract w) where
  -- What one registration adds.
  abbrev added : MatchSync → List Teams
  added x = if x.bolao_ok then teams_of x ∷ [] else []

  abbrev Synced :
      MatchEntry → ServerMaps → b.World → Result MatchSync × (ServerMaps × b.World) → Type 0
  Synced entry t w end =
      (x : MatchSync) × (s : ServerMaps × b.World) × (end ≡ (ok x, s))
      × (x.entry ≡ entry)
      × (s.0 ≡ kept_map x t)
      × (contract (s.1) ≡ contract w ++ added x)

  -- The contract grows by the matches that it took, in the order of the list.
  abbrev Grown :
      List MatchEntry
      → ServerMaps
      → b.World
      → Result (List MatchSync) × (ServerMaps × b.World)
      → Type 0
  Grown entries t w end =
      (xs : List MatchSync) × (s : ServerMaps × b.World) × (end ≡ (ok xs, s))
      × (map entry_of xs ≡ entries)
      × (s.0 ≡ kept_maps xs t)
      × (contract (s.1) ≡ contract w ++ map teams_of (select has_bolao xs))
