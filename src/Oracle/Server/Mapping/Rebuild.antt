-- ===== src/Oracle/Server/Mapping/Rebuild.antt =====
-- What the maps have after they are rebuilt.
use smartcupleague.Prelude.{
  ℕ, ◌<◌, ◌≡◌, refl, subst, Option, of_some, none, some, true, List, [], ◌∷◌, ◌+◌, arith, nat_eq,
  string_eq, ◌==◌, lookup, Bool-cases, inl, inr, ◌⊎◌,
}
use smartcupleague.Oracle.Server.State.{ServerMaps, Fixture, ChainMatch}
use smartcupleague.Oracle.Server.Mapping.{add_found, is_fixture_of, find_fixture, rebuild_pairs}
use smartcupleague.Oracle.Server.Mapping.Pairs.{lookup-forward}
use mathlib.Core.List.{Memᴰ}

-- What the test of a fixture tells.
abbrev pub SameMatch : ChainMatch → Fixture → Type 0
SameMatch r f =
    (f.home_team.name ≡ r.home)
    × (f.away_team.name ≡ r.away)
    × (f.utc_date < r.kick_off + 60_000)
    × (r.kick_off < f.utc_date + 60_000)

is_fixture_of-SameMatch : (r : ChainMatch) (f : Fixture) → is_fixture_of r f ≡ true → SameMatch r f
unfolding is_fixture_of
is_fixture_of-SameMatch r f h =
    ground (
      arith,
      string_eq.same_iff f.home_team.name r.home,
      string_eq.same_iff f.away_team.name r.away,
    )

find_fixture-SameMatch :
    (r : ChainMatch) (fixtures : List Fixture) (f : Fixture)
    → find_fixture r fixtures ≡ some f
    → Memᴰ f fixtures × SameMatch r f
unfolding find_fixture
find_fixture-SameMatch r [] f found = absurd (ground arith)
find_fixture-SameMatch r (g ∷ fixtures) f found = elim (Bool-cases (is_fixture_of r g)) [
  | inl yes_ ↦
      (let same : g ≡ f = of_some (rw (yes_, find_fixture) at found) in
        (
          subst (λ x. Memᴰ x (g ∷ fixtures)) same (Memᴰ.head refl),
          subst (SameMatch r) same (is_fixture_of-SameMatch r g yes_),
        ))
  | inr no_ ↦
      (let (in_rest, same) =
          find_fixture-SameMatch r fixtures f (rw (no_, find_fixture) at found) in
        (Memᴰ.tail in_rest, same))
]

-- The pair stands for a match of the chain and a fixture that is that match.
abbrev pub Justified : List ChainMatch → List Fixture → ℕ → ℕ → Type 0
Justified matches fixtures k v =
    (r : ChainMatch) × (f : Fixture) × Memᴰ r matches
    × Memᴰ f fixtures
    × (r.match_id ≡ k)
    × (f.id ≡ v)
    × SameMatch r f

Justified-later :
    (r : ChainMatch) (matches : List ChainMatch) (fixtures : List Fixture) (k v : ℕ)
    → Justified matches fixtures k v
    → Justified (r ∷ matches) fixtures k v
Justified-later r matches fixtures k v (r', f, r_in, f_in, k_is, v_is, same) =
    (r', f, Memᴰ.tail r_in, f_in, k_is, v_is, same)

added-Justified :
    (r : ChainMatch) (matches : List ChainMatch) (fixtures : List Fixture) (t : ServerMaps)
    (k v : ℕ) (o : Option Fixture)
    → find_fixture r fixtures ≡ o
    → lookup k (add_found r o t).match_id_to_sports_id ≡ some v
    → (lookup k t.match_id_to_sports_id ≡ some v) ⊎ Justified (r ∷ matches) fixtures k v
added-Justified r matches fixtures t k v none searched found = inl found
added-Justified r matches fixtures t k v (some f) searched found =
    let (f_in, same) = find_fixture-SameMatch r fixtures f searched in
    elim (Bool-cases (r.match_id == k)) [
      | inl same_id ↦
          (let same_value : f.id ≡ v = ground (arith, lookup-forward r.match_id f.id k t) in
            inr (
              r,
              f,
              Memᴰ.head refl,
              f_in,
              (nat_eq.same_iff r.match_id k).0 same_id,
              same_value,
              same,
            ))
      | inr other ↦ inl (ground (arith, lookup-forward r.match_id f.id k t))
    ]

-- Every number that the rebuilding gives a match is that of a fixture with the names of the match's
-- teams and a kick-off less than a minute from the match's; the other numbers were there before.
pub rebuild_pairs-Justified :
    (fixtures : List Fixture) (matches : List ChainMatch) (t : ServerMaps) (k v : ℕ)
    → lookup k (rebuild_pairs fixtures matches t).match_id_to_sports_id ≡ some v
    → (lookup k t.match_id_to_sports_id ≡ some v) ⊎ Justified matches fixtures k v
unfolding rebuild_pairs
rebuild_pairs-Justified fixtures [] t k v found = inl found
rebuild_pairs-Justified fixtures (r ∷ matches) t k v found =
    elim (rebuild_pairs-Justified fixtures matches (add_found r (find_fixture r fixtures) t) k v
      found) [
        | inr later ↦ inr (Justified-later r matches fixtures k v later)
        | inl before ↦
            added-Justified r matches fixtures t k v (find_fixture r fixtures) refl before
      ]
