-- ===== src/Indexer/Stats/Load.antt =====
-- The rows of users that are loaded from the database, and the views of users then.
use smartcupleague.Prelude.{
  ◌≡◌, refl, ap, ◌∙◌, sym, String, Option, none, some, Bool, true, false, ◌&&◌, ◌||◌, List, [], ◌∷◌,
  ◌++◌, arith, includes, ◌==◌, string_eq, eq_iff, if◌then◌else◌, Bool-cases, Option-cases, inl, inr,
  lookup, or_else, insert_all, lookup-insert_all, JsMap, IsKeyed, IsKeyed-insert, insert, of_some,
}
use smartcupleague.Indexer.Entities.{UserStat, Bet}
use smartcupleague.Indexer.State.{HandlerState, add_to_set}
use smartcupleague.Indexer.Store.{Store, StatLaws}
use smartcupleague.Indexer.Preload.{preload_user_stats}
use smartcupleague.Indexer.Accuracy.{users_to_load}
use smartcupleague.Indexer.Stats.Touch.{stat_key, view, IsLoaded, StatsAreKeyed, has_bet}

includes-append :
    (u v : String) (l : List String) → includes u (l ++ v ∷ []) ≡ (includes u l || v == u)
includes-append u v [] = ground arith
includes-append u v (w ∷ l) = ground (arith, includes-append u v l)

pub includes-add_to_set :
    (u v : String) (l : List String) → includes u (add_to_set v l) ≡ (includes u l || v == u)
unfolding add_to_set
includes-add_to_set u v l = ground (arith, includes-append u v l, eq_iff v u)

abbrev is_none : Option UserStat → Bool
is_none none = true
is_none (some r) = false

-- The Boolean laws of the next two lemmas: `a` for the list so far, `x` for the first bet.
skip_first : (a h n : Bool) → ((a || false) || (h && n)) ≡ (a || ((false || h) && n))
skip_first a h n = ground arith

take_first : (a h : Bool) → ((a || true) || (h && true)) ≡ (a || ((true || h) && true))
take_first a h = ground arith

drop_first : (a h : Bool) → (a || (h && false)) ≡ (a || ((true || h) && false))
drop_first a h = ground arith

pass_first : (a h n : Bool) → (a || (h && n)) ≡ (a || ((false || h) && n))
pass_first a h n = ground arith

module _ (u : String) (b : Bet) (bs : List Bet) (s : HandlerState) (users : List String) where
  first_bet :
      lookup b.user s.user_stats ≡ none
      → ((includes u users || b.user == u) || (has_bet u bs && is_none (lookup u s.user_stats)))
        ≡ (includes u users || (has_bet u (b ∷ bs) && is_none (lookup u s.user_stats)))
  first_bet h = elim (Bool-cases (b.user == u)) [
    | inl same ↦
        rw (same, ← (eq_iff b.user u).0 same, h)
          (take_first (includes b.user users) (has_bet b.user bs))
    | inr other ↦
        rw other (skip_first (includes u users) (has_bet u bs) (is_none (lookup u s.user_stats)))
  ]

  later_bet :
      {r : UserStat}
      → lookup b.user s.user_stats ≡ some r
      → (includes u users || (has_bet u bs && is_none (lookup u s.user_stats)))
        ≡ (includes u users || (has_bet u (b ∷ bs) && is_none (lookup u s.user_stats)))
  later_bet h = elim (Bool-cases (b.user == u)) [
    | inl same ↦
        rw (same, ← (eq_iff b.user u).0 same, h)
          (drop_first (includes b.user users) (has_bet b.user bs))
    | inr other ↦
        rw other (pass_first (includes u users) (has_bet u bs) (is_none (lookup u s.user_stats)))
  ]

-- Only users that are not in memory are loaded, and all of them.
includes-users_to_load :
    (u : String) (s : HandlerState) (bets : List Bet) (users : List String)
    → includes u (users_to_load s bets users)
      ≡ (includes u users || (has_bet u bets && is_none (lookup u s.user_stats)))
unfolding users_to_load
includes-users_to_load u s [] users = ground arith
includes-users_to_load u s (b ∷ bs) users = elim (Option-cases (lookup b.user s.user_stats)) [
  | inl absent ↦ rw absent (
      includes-users_to_load u s bs (add_to_set b.user users)
      ∙ rw (includes-add_to_set u b.user users) (first_bet u b bs s users absent))
  | inr (r, present) ↦
      rw present (includes-users_to_load u s bs users ∙ later_bet u b bs s users present)
]

-- The rows that are found are put over those in memory.
stats_after :
    (store : Store) (v : String) (ids : List String) (db : store.Db) (s s' : HandlerState)
    (rows : List UserStat)
    → store.find_user_stats (v ∷ ids) db ≡ some rows
    → preload_user_stats store (v ∷ ids) db s ≡ some s'
    → insert_all stat_key rows s.user_stats ≡ s'.user_stats
unfolding preload_user_stats
stats_after store v ids db s s' rows found h = ground arith

lookup-preload :
    (store : Store) (laws : StatLaws store) (u : String) (ids : List String) (db : store.Db)
    (s s' : HandlerState)
    → preload_user_stats store ids db s ≡ some s'
    → lookup u s'.user_stats
      ≡ or_else (if includes u ids then laws.stat db u else none) (lookup u s.user_stats)
unfolding preload_user_stats
lookup-preload store laws u [] db s s' h =
    ap (λ (o : HandlerState). lookup u o.user_stats) (sym (of_some h))
lookup-preload store laws u (v ∷ ids) db s s' h =
    elim (Option-cases (store.find_user_stats (v ∷ ids) db)) [
      | inl failed ↦ absurd (ground arith)
      | inr (rows, found) ↦
          ap (lookup u) (sym (stats_after store v ids db s s' rows found h))
          ∙ lookup-insert_all stat_key u rows s.user_stats
          ∙ ap (λ o. or_else o (lookup u s.user_stats)) (laws.found (v ∷ ids) db rows found u)
    ]

module _ (store : Store) (laws : StatLaws store) (u : String) where
  open laws use {stat}

  -- A load of users of whom none is in memory yet.
  module _ (ids : List String) (db : store.Db) (s s' : HandlerState)
      (absent : includes u ids ≡ true → lookup u s.user_stats ≡ none)
      (loads : preload_user_stats store ids db s ≡ some s') where
    -- The row that the load has put over the one in memory.
    lookup-load :
        lookup u s'.user_stats
        ≡ or_else (if includes u ids then stat db u else none) (lookup u s.user_stats)
    lookup-load = lookup-preload store laws u ids db s s' loads

    pub view-load : view (stat db u) u s' ≡ view (stat db u) u s
    view-load = elim (Bool-cases (includes u ids)) [
      | inl listed ↦ ground (arith, lookup-load, absent listed)
      | inr unlisted ↦ ground (arith, lookup-load)
    ]

    pub load-IsLoaded : includes u ids ≡ true → IsLoaded (stat db u) u s'
    load-IsLoaded h = ground (arith, lookup-load, absent h)

    pub load-keeps-IsLoaded : IsLoaded (stat db u) u s → IsLoaded (stat db u) u s'
    load-keeps-IsLoaded h = ground (arith, lookup-load)

insert_all-IsKeyed :
    (rows : List UserStat) (m : JsMap String UserStat)
    → IsKeyed stat_key m
    → IsKeyed stat_key (insert_all stat_key rows m)
unfolding insert_all
insert_all-IsKeyed [] m h = h
insert_all-IsKeyed (r ∷ rows) m h =
    insert_all-IsKeyed rows (insert r.id r m) (IsKeyed-insert stat_key r.id r m refl h)

pub load-StatsAreKeyed :
    (store : Store) (ids : List String) (db : store.Db) (s s' : HandlerState)
    → preload_user_stats store ids db s ≡ some s'
    → StatsAreKeyed s
    → StatsAreKeyed s'
unfolding preload_user_stats
load-StatsAreKeyed store [] db s s' h k = rw (of_some h) at k
load-StatsAreKeyed store (v ∷ ids) db s s' h k =
    elim (Option-cases (store.find_user_stats (v ∷ ids) db)) [
      | inl failed ↦ absurd (ground arith)
      | inr (rows, found) ↦
          rw (← stats_after store v ids db s s' rows found h)
            (insert_all-IsKeyed rows s.user_stats k)
    ]

-- After the load that `projectAccuracyForMatch` makes, the rows of all users of the bets are loaded.
module _ (store : Store) (laws : StatLaws store) (u : String) (bets : List Bet) (db : store.Db)
    (s s' : HandlerState)
    (loads : preload_user_stats store (users_to_load s bets []) db s ≡ some s') where
  users_to_load-absent : includes u (users_to_load s bets []) ≡ true → lookup u s.user_stats ≡ none
  users_to_load-absent l = ground (arith, includes-users_to_load u s bets [])

  pub users_to_load-keeps : IsLoaded (laws.stat db u) u s → IsLoaded (laws.stat db u) u s'
  users_to_load-keeps = load-keeps-IsLoaded store laws u _ db s s' users_to_load-absent loads

  pub users_to_load-IsLoaded :
      (view (laws.stat db u) u s' ≡ view (laws.stat db u) u s)
      × (has_bet u bets ≡ true → IsLoaded (laws.stat db u) u s')
  users_to_load-IsLoaded = (
    view-load store laws u _ db s s' users_to_load-absent loads,
    λ m. elim (Option-cases (lookup u s.user_stats)) [
      | inl e ↦
          load-IsLoaded store laws u _ db s s' users_to_load-absent loads
            (ground (arith, includes-users_to_load u s bets []))
      | inr (r, e) ↦ users_to_load-keeps (ground arith)
    ],
  )
