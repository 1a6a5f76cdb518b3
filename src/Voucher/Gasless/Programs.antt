-- ===== src/Voucher/Gasless/Programs.antt =====
-- `normalizePrograms`: the programs of a request in lower case, each once.
use smartcupleague.Prelude.{
  ◌≡◌, refl, sym, subst, ◌∙◌, inl, inr, String, some, Bool, true, false, ◌||◌, List, [], ◌∷◌, ◌++◌,
  arith, map, includes, string_eq, ◌==◌, eq_flip, eq_iff, Bool-cases, to_lower_case, if◌then◌else◌,
}
use smartcupleague.Voucher.Gasless.{dedupe_from, normalize_programs}

-- No text of the list stands in it twice.
abbrev pub Distinct : List String → Type 0
Distinct [] = Unit
Distinct (x ∷ xs) = (includes x xs ≡ false) × Distinct xs

or_assoc : (x y z : Bool) → ((x || y) || z) ≡ (x || (y || z))
or_assoc true y z = refl
or_assoc false y z = refl

or_false : (x : Bool) → (x || false) ≡ x
or_false true = refl
or_false false = refl

includes-snoc :
    (p x : String) (xs : List String) → includes p (xs ++ x ∷ []) ≡ (includes p xs || x == p)
includes-snoc p x [] = ground arith
includes-snoc p x (y ∷ ys) =
    rw (includes-snoc p x ys) (sym (or_assoc (y == p) (includes p ys) (x == p)))

Distinct-snoc :
    (x : String) (xs : List String) → includes x xs ≡ false → Distinct xs → Distinct (xs ++ x ∷ [])
Distinct-snoc x [] h d = (refl, tt)
Distinct-snoc x (y ∷ ys) h (ny, d) =
    let ne : (y == x) ≡ false = ground arith in
    let out : includes x ys ≡ false = ground arith in
    (rw (includes-snoc y x ys, ny) (eq_flip y x ne), Distinct-snoc x ys out d)

-- The list after one more text.
abbrev add : List String → String → List String
add seen x = if includes x seen then seen else seen ++ x ∷ []

add-Distinct : (seen : List String) (x : String) → Distinct seen → Distinct (add seen x)
add-Distinct seen x d = elim (Bool-cases (includes x seen)) [
  | inl e ↦ rw e d
  | inr e ↦ rw e (Distinct-snoc x seen e d)
]

add-includes :
    (p x : String) (seen : List String) → includes p (add seen x) ≡ (includes p seen || x == p)
add-includes p x seen = elim (Bool-cases (includes x seen)) [
  | inl e ↦ elim (Bool-cases (x == p)) [
    | inl same ↦
        (let had : includes p seen ≡ true =
            subst (λ z. includes z seen ≡ true) ((eq_iff x p).0 same) e in
          rw (e, had) refl)
    | inr other ↦ rw (e, other) (sym (or_false (includes p seen)))
  ]
  | inr e ↦ rw e (includes-snoc p x seen)
]

dedupe-Distinct : (seen xs : List String) → Distinct seen → Distinct (dedupe_from seen xs)
unfolding dedupe_from
dedupe-Distinct seen [] d = d
dedupe-Distinct seen (x ∷ xs) d = dedupe-Distinct (add seen x) xs (add-Distinct seen x d)

dedupe-includes :
    (p : String) (seen xs : List String)
    → includes p (dedupe_from seen xs) ≡ (includes p seen || includes p xs)
unfolding dedupe_from
dedupe-includes p seen [] = ground arith
dedupe-includes p seen (x ∷ xs) =
    dedupe-includes p (add seen x) xs
    ∙ rw (add-includes p x seen) (or_assoc (includes p seen) (x == p) (includes p xs))

-- The normalised programs of a request are the requested ones in lower case, and none is there
-- twice, so that their number can be compared with the number of rows that are found.
pub normalize_programs-Distinct :
    (p : String) (programs : List String)
    → Distinct (normalize_programs (some programs))
      × (includes p (normalize_programs (some programs)) ≡ includes p (map to_lower_case programs))
unfolding normalize_programs
normalize_programs-Distinct p programs = (
  dedupe-Distinct [] (map to_lower_case programs) tt,
  dedupe-includes p [] (map to_lower_case programs),
)
