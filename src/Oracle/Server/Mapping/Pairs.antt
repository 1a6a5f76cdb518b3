-- ===== src/Oracle/Server/Mapping/Pairs.antt =====
-- The two maps between the numbers as inverses of each other.
use smartcupleague.Prelude.{
  ℕ, ◌≡◌, ◌≢◌, ◌↔◌, sym, ◌∙◌, none, some, [], ◌∷◌, arith, nat_eq, ◌==◌, lookup, lookup-insert,
  Option-cases, inl, inr, if◌then◌else◌,
}
use smartcupleague.Oracle.Server.State.{ServerMaps, Entries}
use smartcupleague.Oracle.Server.Mapping.{add_match_mapping, add_entries}
use smartcupleague.Oracle.Server.Mapping.Objects.{IsMap}

-- A match has a number at the data service when that number has the match.
abbrev pub IsPaired : ServerMaps → Type 0
IsPaired t =
    (k v : ℕ)
    → (lookup k t.match_id_to_sports_id ≡ some v) ↔ (lookup v t.sports_id_to_match_id ≡ some k)

pub lookup-forward :
    (k v j : ℕ) (t : ServerMaps)
    → lookup j (add_match_mapping k v t).match_id_to_sports_id
      ≡ (if k == j then some v else lookup j t.match_id_to_sports_id)
unfolding add_match_mapping
lookup-forward k v j t = lookup-insert k j v t.match_id_to_sports_id

pub lookup-backward :
    (k v u : ℕ) (t : ServerMaps)
    → lookup u (add_match_mapping k v t).sports_id_to_match_id
      ≡ (if v == u then some k else lookup u t.sports_id_to_match_id)
unfolding add_match_mapping
lookup-backward k v u t = lookup-insert v u k t.sports_id_to_match_id

-- A pair of numbers that neither map has yet keeps the maps inverse to each other.
pub add_match_mapping-IsPaired :
    (k v : ℕ) (t : ServerMaps)
    → IsPaired t
    → lookup k t.match_id_to_sports_id ≡ none
    → lookup v t.sports_id_to_match_id ≡ none
    → IsPaired (add_match_mapping k v t)
add_match_mapping-IsPaired k v t paired k_new v_new j u =
    ground (arith, lookup-forward k v j t, lookup-backward k v u t, paired j u)

-- No two names have the same value.
abbrev pub IsInjective : Entries → Type 0
IsInjective entries = (i j v : ℕ) → lookup i entries ≡ some v → lookup j entries ≡ some v → i ≡ j

-- Neither number of an entry is in the maps.
abbrev pub IsNew : Entries → ServerMaps → Type 0
IsNew entries t =
    (k v : ℕ)
    → lookup k entries ≡ some v
    → (lookup k t.match_id_to_sports_id ≡ none) × (lookup v t.sports_id_to_match_id ≡ none)

module _ (k v : ℕ) (entries : Entries) where
  lookup-first : lookup k ((k, v) ∷ entries) ≡ some v
  unfolding lookup
  lookup-first = ground arith

  lookup-rest :
      (j u : ℕ)
      → lookup k entries ≡ none
      → lookup j entries ≡ some u
      → (k ≢ j) × (lookup j ((k, v) ∷ entries) ≡ some u)
  unfolding lookup
  lookup-rest j u missing found =
      let other : k ≢ j = λ same. ground (arith, rw same at missing) in (other, ground arith)

  IsInjective-rest : lookup k entries ≡ none → IsInjective ((k, v) ∷ entries) → IsInjective entries
  IsInjective-rest missing injective i j u i_found j_found =
      injective i j u (lookup-rest i u missing i_found).1 (lookup-rest j u missing j_found).1

  IsNew-rest :
      (t : ServerMaps)
      → lookup k entries ≡ none
      → IsInjective ((k, v) ∷ entries)
      → IsNew ((k, v) ∷ entries) t
      → IsNew entries (add_match_mapping k v t)
  IsNew-rest t missing injective new j u found =
      let (other, found_here) = lookup-rest j u missing found in
      let (j_new, u_new) = new j u found_here in
      let v_other : v ≢ u =
        λ same. other (injective k j u (lookup-first ∙ ground (arith, same)) found_here) in
      (ground (arith, lookup-forward k v j t), ground (arith, lookup-backward k v u t))

pub add_entries-IsPaired :
    (entries : Entries) (t : ServerMaps)
    → IsMap entries
    → IsInjective entries
    → IsNew entries t
    → IsPaired t
    → IsPaired (add_entries entries t)
unfolding add_entries
add_entries-IsPaired [] t is_map injective new paired = paired
add_entries-IsPaired ((k, v) ∷ entries) t is_map injective new paired =
    let (k_new, v_new) = new k v (lookup-first k v entries) in
    add_entries-IsPaired entries (add_match_mapping k v t) is_map.1
      (IsInjective-rest k v entries is_map.0 injective)
      (IsNew-rest k v entries t is_map.0 injective new)
      (add_match_mapping-IsPaired k v t paired k_new v_new)

-- Inverse maps whose forward lookups agree have backward lookups that agree.
pub IsPaired-same :
    (t t' : ServerMaps)
    → IsPaired t
    → IsPaired t'
    → ((j : ℕ) → lookup j t'.match_id_to_sports_id ≡ lookup j t.match_id_to_sports_id)
    → (v : ℕ) → lookup v t'.sports_id_to_match_id ≡ lookup v t.sports_id_to_match_id
IsPaired-same t t' paired paired' same v = elim (Option-cases (lookup v t'.sports_id_to_match_id)) [
  | inr (k, found) ↦ found ∙ sym ((paired k v).0 (sym (same k) ∙ (paired' k v).1 found))
  | inl missing' ↦ elim (Option-cases (lookup v t.sports_id_to_match_id)) [
    | inl missing ↦ missing' ∙ sym missing
    | inr (k, found) ↦ (paired' k v).0 (same k ∙ (paired k v).1 found) ∙ sym found
  ]
]
