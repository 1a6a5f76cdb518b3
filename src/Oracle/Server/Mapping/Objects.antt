-- ===== src/Oracle/Server/Mapping/Objects.antt =====
-- The object of a map: its names ascend, and it has the map's entries.
use smartcupleague.Prelude.{
  ℕ, ◌<◌, ◌≡◌, refl, sym, ◌∙◌, subst, ap, Option, none, some, [], ◌∷◌, arith, ltb, nat_eq, ◌==◌,
  if◌then◌else◌, JsMap, lookup, insert, lookup-insert, or_else, inl, inr, Bool-cases,
}
use smartcupleague.Oracle.Server.State.{Entries, ServerMaps}
use smartcupleague.Oracle.Server.Mapping.{
  put_key, put_all, as_object, add_match_mapping, add_kick_off, add_entries, add_kick_offs,
}

-- No key stands twice.
abbrev pub IsMap : JsMap ℕ ℕ → Type 0
IsMap [] = Unit
IsMap ((k, v) ∷ m) = (lookup k m ≡ none) × IsMap m

pub IsMap-insert : (k v : ℕ) (m : JsMap ℕ ℕ) → IsMap m → IsMap (insert k v m)
unfolding insert
IsMap-insert k v [] q = (unfold lookup in refl, tt)
IsMap-insert k v ((j, u) ∷ m) q = elim (Bool-cases (j == k)) [
  | inl same ↦ rw same q
  | inr other ↦ rw other (lookup-insert k j v m ∙ ground (arith, q.0), IsMap-insert k v m q.1)
]

-- Every name is larger than the given one, and they ascend.
abbrev pub Above : ℕ → Entries → Type 0
Above b [] = Unit
Above b ((k, v) ∷ entries) = (b < k) × Above k entries

abbrev pub IsAscending : Entries → Type 0
IsAscending [] = Unit
IsAscending ((k, v) ∷ entries) = Above k entries

Above-put_key :
    (b k v : ℕ) (entries : Entries) → b < k → Above b entries → Above b (put_key k v entries)
unfolding put_key
Above-put_key b k v [] h q = (h, tt)
Above-put_key b k v ((j, u) ∷ entries) h q = elim (Bool-cases (ltb k j)) [
  | inl before ↦ rw before (h, (ground arith, q.1))
  | inr not_before ↦ elim (Bool-cases (k == j)) [
    | inl same ↦
        rw (not_before, same)
          (h, subst (λ i. Above i entries) (sym ((nat_eq.same_iff k j).0 same)) q.1)
    | inr other ↦ rw (not_before, other) (q.0, Above-put_key j k v entries (ground arith) q.1)
  ]
]

IsAscending-put_key :
    (k v : ℕ) (entries : Entries) → IsAscending entries → IsAscending (put_key k v entries)
unfolding put_key
IsAscending-put_key k v [] q = tt
IsAscending-put_key k v ((j, u) ∷ entries) q = elim (Bool-cases (ltb k j)) [
  | inl before ↦ rw before (ground arith, q)
  | inr not_before ↦ elim (Bool-cases (k == j)) [
    | inl same ↦
        rw (not_before, same) (subst (λ i. Above i entries) (sym ((nat_eq.same_iff k j).0 same)) q)
    | inr other ↦ rw (not_before, other) (Above-put_key j k v entries (ground arith) q)
  ]
]

pub IsAscending-put_all :
    (m : JsMap ℕ ℕ) (entries : Entries) → IsAscending entries → IsAscending (put_all m entries)
unfolding put_all
IsAscending-put_all [] entries q = q
IsAscending-put_all ((k, v) ∷ m) entries q =
    IsAscending-put_all m (put_key k v entries) (IsAscending-put_key k v entries q)

lookup-Above : (b k : ℕ) (entries : Entries) → b < k → Above k entries → lookup b entries ≡ none
unfolding lookup
lookup-Above b k [] h q = refl
lookup-Above b k ((j, u) ∷ entries) h q =
    ground (arith, lookup-Above b j entries (ground arith) q.1)

Above-IsAscending : (b : ℕ) (entries : Entries) → Above b entries → IsAscending entries
Above-IsAscending b [] q = tt
Above-IsAscending b ((j, u) ∷ entries) q = q.1

Above-none : (b : ℕ) (entries : Entries) → Above b entries → lookup b entries ≡ none
unfolding lookup
Above-none b [] q = refl
Above-none b ((k, v) ∷ entries) q = ground (arith, lookup-Above b k entries q.0 q.1)

pub IsAscending-IsMap : (entries : Entries) → IsAscending entries → IsMap entries
IsAscending-IsMap [] q = tt
IsAscending-IsMap ((k, v) ∷ entries) q =
    (Above-none k entries q, IsAscending-IsMap entries (Above-IsAscending k entries q))

lookup-put_key :
    (k v j : ℕ) (entries : Entries)
    → lookup j (put_key k v entries) ≡ (if k == j then some v else lookup j entries)
unfolding lookup put_key
lookup-put_key k v j [] = refl
lookup-put_key k v j ((i, u) ∷ entries) = ground (arith, lookup-put_key k v j entries)

lookup-head :
    (k j v : ℕ) (m : JsMap ℕ ℕ) (rest : Option ℕ)
    → lookup k m ≡ none
    → or_else (lookup j m) (if k == j then some v else rest)
      ≡ or_else (if k == j then some v else lookup j m) rest
lookup-head k j v m rest h = elim (Bool-cases (k == j)) [
  | inl same ↦ rw (same, ← (nat_eq.same_iff k j).0 same, h)
  | inr other ↦ rw other refl
]

pub lookup-put_all :
    (j : ℕ) (m : JsMap ℕ ℕ) (entries : Entries)
    → IsMap m
    → lookup j (put_all m entries) ≡ or_else (lookup j m) (lookup j entries)
unfolding lookup put_all
lookup-put_all j [] entries q = refl
lookup-put_all j ((k, v) ∷ m) entries q =
    lookup-put_all j m (put_key k v entries) q.1
    ∙ ap (or_else (lookup j m)) (lookup-put_key k v j entries)
    ∙ (lookup-head k j v m (lookup j entries) q.0)

pub lookup-as_object : (j : ℕ) (m : JsMap ℕ ℕ) → IsMap m → lookup j (as_object m) ≡ lookup j m
lookup-as_object j m q = lookup-put_all j m [] q ∙ unfold lookup in ground arith

-- The loops of the loaders.
pub lookup-add_entries :
    (j : ℕ) (entries : Entries) (t : ServerMaps)
    → IsMap entries
    → lookup j (add_entries entries t).match_id_to_sports_id
      ≡ or_else (lookup j entries) (lookup j t.match_id_to_sports_id)
unfolding lookup add_entries add_match_mapping
lookup-add_entries j [] t q = refl
lookup-add_entries j ((k, v) ∷ entries) t q =
    lookup-add_entries j entries (add_match_mapping k v t) q.1
    ∙ ap (or_else (lookup j entries)) (lookup-insert k j v t.match_id_to_sports_id)
    ∙ (lookup-head k j v entries (lookup j t.match_id_to_sports_id) q.0)

pub lookup-add_kick_offs :
    (j : ℕ) (entries : Entries) (t : ServerMaps)
    → IsMap entries
    → lookup j (add_kick_offs entries t).kick_off_map
      ≡ or_else (lookup j entries) (lookup j t.kick_off_map)
unfolding lookup add_kick_offs add_kick_off
lookup-add_kick_offs j [] t q = refl
lookup-add_kick_offs j ((k, v) ∷ entries) t q =
    lookup-add_kick_offs j entries (add_kick_off k v t) q.1
    ∙ ap (or_else (lookup j entries)) (lookup-insert k j v t.kick_off_map)
    ∙ (lookup-head k j v entries (lookup j t.kick_off_map) q.0)
