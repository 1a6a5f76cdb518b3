-- ===== src/Indexer/Table.antt =====
-- A store in memory that keeps the laws of the user stats: every row that was ever saved, in order,
-- of which the last under an id counts. It only serves to run the model.
use smartcupleague.Prelude.{
  ◌≡◌, refl, ap, subst, ◌∙◌, sym, inl, inr, String, Option, none, some, Bool, true, false, List, [],
  ◌∷◌, ◌++◌, includes, select, ◌==◌, nat_eq, string_eq, eq_iff, if◌then◌else◌, Bool-cases,
  Option-cases, lookup, or_else, insert, insert_all, lookup-insert, lookup-insert_all, IsKeyed,
  IsKeyed-insert, IsKeyed-lookup, of_some, values,
}
use smartcupleague.Indexer.Entities.{BolaoMatch, Bet, UserStat}
use smartcupleague.Indexer.Store.{
  Store, StatLaws, Rows, stat_rows, bet_rows, match_rows, stats_by_id, stats_in, matches_by_id,
}

pub record Tables : Type 0 where
  pub stats : List UserStat
  pub bets : List Bet
  pub matches : List BolaoMatch

abbrev pub saved_stat : Tables → String → Option UserStat
saved_stat db u = lookup u (stats_by_id db.stats)

abbrev add_row : Option UserStat → List UserStat → List UserStat
add_row none rows = rows
add_row (some r) rows = r ∷ rows

abbrev collect : Tables → List String → List UserStat
collect db [] = []
collect db (u ∷ us) = add_row (saved_stat db u) (collect db us)

abbrev store_rows : Rows → Tables → Option Tables
store_rows (stat_rows rows) db = some (record db { stats = db.stats ++ rows })
store_rows (bet_rows rows) db = some (record db { bets = db.bets ++ rows })
store_rows (match_rows rows) db = some (record db { matches = db.matches ++ rows })
store_rows _ db = some db

abbrev pub table_store : Store
table_store = record {
  Db = Tables;
  find_matches =
      λ ids db. some (select (λ m. includes m.id ids) (values (matches_by_id db.matches)));
  find_user_stats = λ ids db. some (collect db ids);
  find_bets = λ m db. some (select (λ b. b.match_id == m) db.bets);
  save = store_rows;
}

stats_by_id-append :
    (xs ys : List UserStat) (m : List (String × UserStat))
    → insert_all (λ r. r.id) (xs ++ ys) m ≡ insert_all (λ r. r.id) ys (insert_all (λ r. r.id) xs m)
unfolding insert_all
stats_by_id-append [] ys m = refl
stats_by_id-append (x ∷ xs) ys m = stats_by_id-append xs ys (insert x.id x m)

insert_all-IsKeyed :
    (xs : List UserStat) (m : List (String × UserStat))
    → IsKeyed (λ r. r.id) m
    → IsKeyed (λ r. r.id) (insert_all (λ r. r.id) xs m)
unfolding insert_all
insert_all-IsKeyed [] m k = k
insert_all-IsKeyed (x ∷ xs) m k =
    insert_all-IsKeyed xs (insert x.id x m) (IsKeyed-insert (λ r. r.id) x.id x m refl k)

lookup-nothing : (u : String) → lookup {V = UserStat} u [] ≡ none
unfolding lookup
lookup-nothing u = refl

or_else-none : (o : Option UserStat) → or_else o none ≡ o
or_else-none none = refl
or_else-none (some r) = refl

stats_by_id-cons :
    (r : UserStat) (rs : List UserStat) (u : String)
    → lookup u (stats_by_id (r ∷ rs))
      ≡ or_else (lookup u (stats_by_id rs)) (if r.id == u then some r else none)
unfolding insert_all
stats_by_id-cons r rs u =
    lookup-insert_all (λ x. x.id) u rs (insert r.id r [])
    ∙ rw (lookup-insert r.id u r [], lookup-nothing u) refl

saved_stat-id : (db : Tables) (u : String) {r : UserStat} → saved_stat db u ≡ some r → r.id ≡ u
saved_stat-id db u h =
    IsKeyed-lookup (λ x. x.id) u (stats_by_id db.stats) (insert_all-IsKeyed db.stats [] tt) h

-- What is stored under an id is stored under an equal one.
moved :
    (db : Tables) (v u : String) {o : Option UserStat}
    → (v == u) ≡ true
    → saved_stat db v ≡ o
    → saved_stat db u ≡ o
moved db v u {o} same h = subst (λ x. saved_stat db x ≡ o) ((eq_iff v u).0 same) h

if-none : (c : Bool) {o : Option UserStat} → o ≡ none → (if c then o else none) ≡ none
if-none true h = h
if-none false h = refl

if-or_else : (c : Bool) (r : UserStat) → or_else (if c then some r else none) (some r) ≡ some r
if-or_else true r = refl
if-or_else false r = refl

collect-found :
    (db : Tables) (ids : List String) (u : String)
    → lookup u (stats_by_id (collect db ids)) ≡ (if includes u ids then saved_stat db u else none)
collect-found db [] u = unfold insert_all in lookup-nothing u
collect-found db (v ∷ vs) u = elim (Option-cases (saved_stat db v)) [
  | inl absent ↦
      ap (λ o. lookup u (stats_by_id (add_row o (collect db vs)))) absent
      ∙ collect-found db vs u
      ∙ elim (Bool-cases (v == u)) [
        | inl same ↦
            if-none (includes u vs) (moved db v u same absent)
            ∙ sym (rw same (moved db v u same absent))
        | inr other ↦ rw other refl
      ]
  | inr (r, here) ↦
      ap (λ o. lookup u (stats_by_id (add_row o (collect db vs)))) here
      ∙ stats_by_id-cons r (collect db vs) u
      ∙ ap (λ o. or_else o (if r.id == u then some r else none)) (collect-found db vs u)
      ∙ elim (Bool-cases (v == u)) [
        | inl same ↦
            rw (ap (λ x. x == u) (saved_stat-id db v here) ∙ same, same, moved db v u same here)
              (if-or_else (includes u vs) r)
        | inr other ↦
            rw (ap (λ x. x == u) (saved_stat-id db v here) ∙ other, other)
              (or_else-none (if includes u vs then saved_stat db u else none))
      ]
]

append-saved :
    (db db' : Tables) (rows : List UserStat) (u : String)
    → db'.stats ≡ db.stats ++ rows
    → saved_stat db' u ≡ or_else (lookup u (stats_by_id rows)) (saved_stat db u)
append-saved db db' rows u h =
    ap (λ x. lookup u (stats_by_id x)) h
    ∙ ap (lookup u) (stats_by_id-append db.stats rows [])
    ∙ lookup-insert_all (λ r. r.id) u rows (stats_by_id db.stats)

kept :
    (db db' : Tables) (u : String)
    → db'.stats ≡ db.stats
    → saved_stat db' u ≡ or_else (lookup u []) (saved_stat db u)
kept db db' u h = rw (lookup-nothing u) (ap (λ x. lookup u (stats_by_id x)) h)

store_rows-saved :
    (rows : Rows) (db db' : Tables)
    → store_rows rows db ≡ some db'
    → (u : String) → saved_stat db' u ≡ or_else (lookup u (stats_in rows)) (saved_stat db u)
store_rows-saved (stat_rows rows) db db' h u =
    append-saved db db' rows u (sym (ap (λ (x : Tables). x.stats) (of_some h)))
store_rows-saved (bet_rows rows) db db' h u =
    kept db db' u (sym (ap (λ (x : Tables). x.stats) (of_some h)))
store_rows-saved (match_rows rows) db db' h u =
    kept db db' u (sym (ap (λ (x : Tables). x.stats) (of_some h)))
store_rows-saved (Rows.reward_rows rows) db db' h u =
    kept db db' u (sym (ap (λ (x : Tables). x.stats) (of_some h)))
store_rows-saved (Rows.prize_rows rows) db db' h u =
    kept db db' u (sym (ap (λ (x : Tables). x.stats) (of_some h)))
store_rows-saved (Rows.refund_rows rows) db db' h u =
    kept db db' u (sym (ap (λ (x : Tables). x.stats) (of_some h)))
store_rows-saved (Rows.activity_rows rows) db db' h u =
    kept db db' u (sym (ap (λ (x : Tables). x.stats) (of_some h)))

pub table_laws : StatLaws table_store
table_laws = record {
  stat = saved_stat;
  found = λ ids db rows h u.
      sym (ap (λ x. lookup u (stats_by_id x)) (of_some h)) ∙ collect-found db ids u;
  saved = store_rows-saved;
}
