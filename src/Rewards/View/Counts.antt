-- ===== src/Rewards/View/Counts.antt =====
-- How many rows of a table pass a test.
use smartcupleague.Prelude.{
  ◌+◌, ◌≡◌, refl, none, some, Bool, true, List, [], ◌∷◌, ◌++◌, arith, length, select, if◌then◌else◌,
  Bool-cases, inl, inr, subst, of_some,
}
use smartcupleague.Rewards.XService.{find_first}

module _ {ℓ} {A : Type ℓ} where
  pub count-append :
      (p : A → Bool) (xs : List A) (x : A)
      → length (select p (xs ++ x ∷ [])) ≡ length (select p xs) + (if p x then 1 else 0)
  count-append p [] x = ground arith
  count-append p (y ∷ xs) x = ground (arith, count-append p xs x)

  pub count_none : (p : A → Bool) (xs : List A) → find_first p xs ≡ none → length (select p xs) ≡ 0
  count_none p [] h = refl
  count_none p (x ∷ xs) h = elim (Bool-cases (p x)) [
    | inl e ↦ absurd (ground arith)
    | inr e ↦ rw e (count_none p xs (rw e at h))
  ]

  pub find-append :
      (p : A → Bool) (xs : List A) (x : A)
      → p x ≡ true
      → find_first p xs ≡ none
      → find_first p (xs ++ x ∷ []) ≡ some x
  find-append p [] x h k = rw h refl
  find-append p (y ∷ xs) x h k = elim (Bool-cases (p y)) [
    | inl e ↦ absurd (ground arith)
    | inr e ↦ rw e (find-append p xs x h (rw e at k))
  ]

  pub find_some : (p : A → Bool) (xs : List A) (x : A) → find_first p xs ≡ some x → p x ≡ true
  find_some p [] x h = absurd (ground arith)
  find_some p (y ∷ xs) x h = elim (Bool-cases (p y)) [
    | inl e ↦ subst (λ z. p z ≡ true) (of_some (rw e at h)) e
    | inr e ↦ find_some p xs x (rw e at h)
  ]

  pub found-append :
      (p : A → Bool) (xs : List A) (x : A) → p x ≡ true → find_first p (xs ++ x ∷ []) ≡ none → ⊥
  found-append p [] x h k = absurd (ground arith)
  found-append p (y ∷ xs) x h k = elim (Bool-cases (p y)) [
    | inl e ↦ absurd (ground arith)
    | inr e ↦ found-append p xs x h (rw e at k)
  ]
