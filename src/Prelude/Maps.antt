-- ===== src/Prelude/Maps.antt =====
-- A JavaScript `Map`: its entries in the order in which the keys were first set.
use mathlib.Core.Path.{◌≡◌, refl, sym, ◌∙◌}
use mathlib.Core.Logic.{inl, inr}
use mathlib.Core.Bool.{true, false}
use mathlib.Core.Option
use mathlib.Core.Option.{Option, none, some}
use mathlib.Core.List.{List, [], ◌∷◌}
use native.Mathlib.Omega.{arith}
use smartcupleague.Prelude.Lists.{is_nil}
use smartcupleague.Prelude.Tests.{Bool-cases, eq_flip, Equality, ◌==◌, if◌then◌else◌}

abbrev pub JsMap {ℓ κ} : Type ℓ → Type κ → Type (ℓ ⊔ κ)
JsMap K V = List (K × V)

-- `a ?? b`
abbrev pub or_else {ℓ} : {A : Type ℓ} → Option A → Option A → Option A
or_else none b = b
or_else (some a) b = some a

module _ {ℓ κ} {K : Type ℓ} {V : Type κ} ⦃ops : Equality K⦄ where
  -- `map.get(k)`
  unfoldable pub lookup : K → JsMap K V → Option V
  lookup key [] = none
  lookup key ((k, v) ∷ rest) = if k == key then some v else lookup key rest

  -- `map.set(k, v)`
  unfoldable pub insert : K → V → JsMap K V → JsMap K V
  insert key new [] = (key, new) ∷ []
  insert key new ((k, old) ∷ rest) =
      if k == key then (k, new) ∷ rest else (k, old) ∷ insert key new rest

  -- A change through the object that `map.get(k)` returns, when there is one.
  unfoldable pub modify : K → (V → V) → JsMap K V → JsMap K V
  modify k f [] = []
  modify k f ((j, v) ∷ m) = if j == k then (j, f v) ∷ m else (j, v) ∷ modify k f m

  -- `for (const v of vs) map.set(key(v), v)`
  unfoldable pub insert_all : (V → K) → List V → JsMap K V → JsMap K V
  insert_all key [] m = m
  insert_all key (v ∷ vs) m = insert_all key vs (insert (key v) v m)

  pub lookup-insert :
      (k j : K) (new : V) (map : JsMap K V)
      → lookup j (insert k new map) ≡ (if k == j then some new else lookup j map)
  unfolding insert lookup
  lookup-insert k j new [] = refl
  lookup-insert k j new ((i, old) ∷ rest) =
      ground
        (arith, lookup-insert k j new rest, ops.same_iff k j, ops.same_iff i k, ops.same_iff i j)

  pub lookup-insert_at :
      (k j : K) (v : V) (m : JsMap K V) → (k == j) ≡ true → lookup j (insert k v m) ≡ some v
  lookup-insert_at k j v m h = lookup-insert k j v m ∙ rw h

  pub lookup-insert_off :
      (k j : K) (v : V) (m : JsMap K V) → (k == j) ≡ false → lookup j (insert k v m) ≡ lookup j m
  lookup-insert_off k j v m h = lookup-insert k j v m ∙ rw h

  pub lookup-modify :
      (k j : K) (f : V → V) (m : JsMap K V)
      → lookup j (modify k f m) ≡ (if k == j then Option.map f (lookup j m) else lookup j m)
  unfolding lookup modify
  lookup-modify k j f [] = ground arith
  lookup-modify k j f ((i, w) ∷ m) =
      ground (arith, ops.same_iff k j, ops.same_iff i k, ops.same_iff i j, lookup-modify k j f m)

  lookup-nil : (j : K) → lookup j [] ≡ none
  unfolding lookup
  lookup-nil j = refl

  pub lookup-insert_all :
      (key : V → K) (j : K) (vs : List V) (m : JsMap K V)
      → lookup j (insert_all key vs m) ≡ or_else (lookup j (insert_all key vs [])) (lookup j m)
  unfolding insert_all
  lookup-insert_all key j [] m = ground (arith, lookup-nil j)
  lookup-insert_all key j (v ∷ vs) m = ground (
    arith,
    lookup-insert_all key j vs (insert (key v) v m),
    lookup-insert_all key j vs (insert (key v) v []),
    lookup-insert (key v) j v m,
    lookup-insert (key v) j v [],
    lookup-nil j,
  )

-- `[...map.values()]`
unfoldable pub values {ℓ κ} : {K : Type ℓ} {V : Type κ} → JsMap K V → List V
values [] = []
values ((k, v) ∷ m) = v ∷ values m

pub lookup-is_nil {ℓ κ} :
    {K : Type ℓ} {V : Type κ} ⦃ops : Equality K⦄ (k : K) (m : JsMap K V)
    → is_nil m ≡ true
    → lookup k m ≡ none
unfolding lookup
lookup-is_nil k [] h = refl
lookup-is_nil k (x ∷ m) h = cc

-- Every entry stands under the key of its value, and under no other.
module _ {ℓ κ} {K : Type ℓ} {V : Type κ} ⦃ops : Equality K⦄ (key : V → K) where
  abbrev pub IsKeyed : JsMap K V → Type (ℓ ⊔ κ)
  IsKeyed [] = Unit
  IsKeyed ((k, v) ∷ m) = (key v ≡ k) × (lookup k m ≡ none) × IsKeyed m

  pub IsKeyed-insert :
      (k : K) (v : V) (m : JsMap K V) → key v ≡ k → IsKeyed m → IsKeyed (insert k v m)
  unfolding insert
  IsKeyed-insert k v [] h q = (h, unfold lookup in refl, tt)
  IsKeyed-insert k v ((j, w) ∷ m) h q = elim (Bool-cases (j == k)) [
    | inl same ↦ rw same (h ∙ sym ((ops.same_iff j k).0 same), q.1, q.2)
    | inr other ↦
        rw other
          (q.0, lookup-insert k j v m ∙ rw (eq_flip j k other) q.1, IsKeyed-insert k v m h q.2)
  ]

  pub IsKeyed-lookup : (k : K) (m : JsMap K V) {v : V} → IsKeyed m → lookup k m ≡ some v → key v ≡ k
  unfolding lookup
  IsKeyed-lookup k [] q h = cc
  IsKeyed-lookup k ((j, w) ∷ m) {v} q h =
      ground (arith, ops.same_iff j k, IsKeyed-lookup k m {v = v} q.2)

  lookup-head :
      (k j : K) (v : V) (m : JsMap K V)
      → lookup k m ≡ none
      → or_else (lookup j m) (if k == j then some v else lookup j [])
        ≡ (if k == j then some v else lookup j m)
  lookup-head k j v m h = elim (Bool-cases (k == j)) [
    | inl same ↦ rw (same, ← (ops.same_iff k j).0 same, h)
    | inr other ↦ rw other (ground (arith, lookup-nil {V = V} j))
  ]

  -- A keyed map is rebuilt from its values.
  pub lookup-insert_all-values :
      (j : K) (m : JsMap K V) → IsKeyed m → lookup j (insert_all key (values m) []) ≡ lookup j m
  unfolding lookup insert_all values
  lookup-insert_all-values j [] q = refl
  lookup-insert_all-values j ((k, v) ∷ m) q =
      lookup-insert_all key j (values m) (insert (key v) v [])
      ∙ rw (lookup-insert_all-values j m q.2, lookup-insert (key v) j v [], q.0)
          (lookup-head k j v m q.1)
