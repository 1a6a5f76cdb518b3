-- ===== src/Prelude/Sorting.antt =====
-- The stable sort of a list, and the first elements of one.
use Prim.Native.Nat.{ℕ, zero, suc, ◌≤◌}
use mathlib.Core.Path.{◌≡◌, refl, sym, ap, subst, ◌∙◌}
use mathlib.Core.Logic.{◌⊎◌, ◌↔◌, inl, inr}
use mathlib.Core.Bool.{Bool, true}
use mathlib.Core.List.{List, [], ◌∷◌, Memᴰ}
use native.Mathlib.Omega.{arith}
use smartcupleague.Prelude.Tests.{ltb, Bool-cases, if◌then◌else◌}
use smartcupleague.Prelude.Lists.{length, select}

module _ {ℓ} {A : Type ℓ} where
  -- `before a b` says that the comparison of a with b is negative.
  unfoldable pub insert_by : (A → A → Bool) → A → List A → List A
  insert_by before x [] = x ∷ []
  insert_by before x (y ∷ ys) = if before y x then y ∷ insert_by before x ys else x ∷ y ∷ ys

  -- `xs.sort(compare)`
  unfoldable pub sort_by : (A → A → Bool) → List A → List A
  sort_by before [] = []
  sort_by before (x ∷ xs) = insert_by before x (sort_by before xs)

  -- `xs.slice(0, n)`
  unfoldable pub take : ℕ → List A → List A
  take n [] = []
  take zero (x ∷ xs) = []
  take (suc n) (x ∷ xs) = x ∷ take n xs

  pub length-take : (n : ℕ) (xs : List A) → length (take n xs) ≤ n
  unfolding take
  length-take n [] = omega arith
  length-take zero (x ∷ xs) = omega arith
  length-take (suc n) (x ∷ xs) = omega (arith, length-take n xs)

  pub mem-take : {a : A} (n : ℕ) (xs : List A) → Memᴰ a (take n xs) → Memᴰ a xs
  unfolding take
  mem-take n [] h = h
  mem-take zero (x ∷ xs) h = elim h [ ]
  mem-take (suc n) (x ∷ xs) (Memᴰ.head e) = Memᴰ.head e
  mem-take (suc n) (x ∷ xs) (Memᴰ.tail h) = Memᴰ.tail (mem-take n xs h)

  mem-select_kept :
      {a : A} (p : A → Bool) (x : A) (xs : List A)
      → p x ≡ true
      → (Memᴰ a (select p xs) → Memᴰ a xs × (p a ≡ true))
      → Memᴰ a (x ∷ select p xs)
      → Memᴰ a (x ∷ xs) × (p a ≡ true)
  mem-select_kept p x xs yes_ rest (Memᴰ.head e) = (Memᴰ.head e, ap p e ∙ yes_)
  mem-select_kept p x xs yes_ rest (Memᴰ.tail h) = (Memᴰ.tail (rest h).0, (rest h).1)

  pub mem-select :
      {a : A} (p : A → Bool) (xs : List A) → Memᴰ a (select p xs) → Memᴰ a xs × (p a ≡ true)
  mem-select p [] h = elim h [ ]
  mem-select {a} p (x ∷ xs) h = elim (Bool-cases (p x)) [
    | inl yes_ ↦ mem-select_kept p x xs yes_ (mem-select p xs) (rw yes_ at h)
    | inr no_ ↦
        (let rest : Memᴰ a xs × (p a ≡ true) = mem-select p xs (rw no_ at h) in
          (Memᴰ.tail rest.0, rest.1))
  ]

  pub select-mem :
      {a : A} (p : A → Bool) (xs : List A) → Memᴰ a xs → p a ≡ true → Memᴰ a (select p xs)
  select-mem p [] h yes_ = h
  select-mem p (x ∷ xs) (Memᴰ.head e) yes_ = rw (sym (ap p e) ∙ yes_) (Memᴰ.head e)
  select-mem p (x ∷ xs) (Memᴰ.tail h) yes_ = elim (Bool-cases (p x)) [
    | inl kept ↦ rw kept (Memᴰ.tail (select-mem p xs h yes_))
    | inr dropped ↦ rw dropped (select-mem p xs h yes_)
  ]

  mem-swap : {a : A} (x y : A) (ys : List A) → Memᴰ a (x ∷ y ∷ ys) → Memᴰ a (y ∷ x ∷ ys)
  mem-swap x y ys (Memᴰ.head e) = Memᴰ.tail (Memᴰ.head e)
  mem-swap x y ys (Memᴰ.tail (Memᴰ.head e)) = Memᴰ.head e
  mem-swap x y ys (Memᴰ.tail (Memᴰ.tail h)) = Memᴰ.tail (Memᴰ.tail h)

  mem-cons :
      {a : A} (y : A) (xs ys : List A) → (Memᴰ a xs → Memᴰ a ys) → Memᴰ a (y ∷ xs) → Memᴰ a (y ∷ ys)
  mem-cons y xs ys f (Memᴰ.head e) = Memᴰ.head e
  mem-cons y xs ys f (Memᴰ.tail h) = Memᴰ.tail (f h)

  module _ (before : A → A → Bool) where
    mem-insert_by : {a : A} (x : A) (ys : List A) → Memᴰ a (insert_by before x ys) ↔ Memᴰ a (x ∷ ys)
    unfolding insert_by
    mem-insert_by x [] = (λ h. h, λ h. h)
    mem-insert_by x (y ∷ ys) = elim (Bool-cases (before y x)) [
      | inr here ↦ rw here (λ h. h, λ h. h)
      | inl later ↦ rw later (
        λ h. mem-swap y x ys (mem-cons y (insert_by before x ys) (x ∷ ys) (mem-insert_by x ys).0 h),
        λ h. mem-cons y (x ∷ ys) (insert_by before x ys) (mem-insert_by x ys).1 (mem-swap x y ys h),
      )
    ]

    -- A sorted list has the same elements.
    pub mem-sort_by : {a : A} (xs : List A) → Memᴰ a (sort_by before xs) ↔ Memᴰ a xs
    unfolding sort_by
    mem-sort_by [] = (λ h. h, λ h. h)
    mem-sort_by (x ∷ xs) = (
      λ h.
          mem-cons x (sort_by before xs) xs (mem-sort_by xs).0
            ((mem-insert_by x (sort_by before xs)).0 h),
      λ h.
          (mem-insert_by x (sort_by before xs)).1
            (mem-cons x xs (sort_by before xs) (mem-sort_by xs).1 h),
    )

  -- Lists that a key sorts.
  module _ (key : A → ℕ) where
    abbrev pub AtLeast : ℕ → List A → Type ℓ
    AtLeast b xs = (a : A) → Memᴰ a xs → b ≤ key a

    abbrev pub IsSorted : List A → Type ℓ
    IsSorted [] = Unit
    IsSorted (x ∷ xs) = AtLeast (key x) xs × IsSorted xs

    AtLeast-cons : (b : ℕ) (x : A) (xs : List A) → b ≤ key x → AtLeast b xs → AtLeast b (x ∷ xs)
    AtLeast-cons b x xs h q a (Memᴰ.head e) = subst (λ y. b ≤ key y) (sym e) h
    AtLeast-cons b x xs h q a (Memᴰ.tail m) = q a m

    pub IsSorted-select : (p : A → Bool) (xs : List A) → IsSorted xs → IsSorted (select p xs)
    IsSorted-select p [] q = tt
    IsSorted-select p (x ∷ xs) q = elim (Bool-cases (p x)) [
      | inl kept ↦ rw kept (λ a m. q.0 a (mem-select p xs m).0, IsSorted-select p xs q.1)
      | inr dropped ↦ rw dropped (IsSorted-select p xs q.1)
    ]

    module _ (before : A → A → Bool) (by_key : (a b : A) → before a b ≡ ltb (key a) (key b)) where
      IsSorted-insert_by : (x : A) (ys : List A) → IsSorted ys → IsSorted (insert_by before x ys)
      unfolding insert_by
      IsSorted-insert_by x [] q = (λ a m. elim m [ ], tt)
      IsSorted-insert_by x (y ∷ ys) q = elim (Bool-cases (before y x)) [
        | inr here ↦
            (let first : key x ≤ key y = ground (arith, by_key y x) in
              rw here (AtLeast-cons (key x) y ys first (λ a m. omega (arith, q.0 a m)), q))
        | inl later ↦
            (let first : key y ≤ key x = ground (arith, by_key y x) in
              rw later (
                λ a m. AtLeast-cons (key y) x ys first q.0 a ((mem-insert_by before x ys).0 m),
                IsSorted-insert_by x ys q.1,
              ))
      ]

      pub IsSorted-sort_by : (xs : List A) → IsSorted (sort_by before xs)
      unfolding sort_by
      IsSorted-sort_by [] = tt
      IsSorted-sort_by (x ∷ xs) = IsSorted-insert_by x (sort_by before xs) (IsSorted-sort_by xs)

    -- An element of a sorted list is among the first n, or these are n and none of them is larger.
    pub take-IsSorted :
        {a : A} (n : ℕ) (xs : List A)
        → IsSorted xs
        → Memᴰ a xs
        → Memᴰ a (take n xs)
          ⊎ ((length (take n xs) ≡ n) × ((c : A) → Memᴰ c (take n xs) → key c ≤ key a))
    unfolding take
    take-IsSorted zero [] q m = elim m [ ]
    take-IsSorted (suc n) [] q m = elim m [ ]
    take-IsSorted zero (x ∷ xs) q m = inr (refl, λ c m'. elim m' [ ])
    take-IsSorted (suc n) (x ∷ xs) q (Memᴰ.head e) = inl (Memᴰ.head e)
    take-IsSorted {a} (suc n) (x ∷ xs) q (Memᴰ.tail m) = elim (take-IsSorted n xs q.1 m) [
      | inl taken ↦ inl (Memᴰ.tail taken)
      | inr (full, bound) ↦ inr (ap suc full, upto x (take n xs) (q.0 a m) bound)
    ]
      where
        upto :
            (x : A) (ys : List A)
            → key x ≤ key a
            → ((c : A) → Memᴰ c ys → key c ≤ key a)
            → (c : A) → Memᴰ c (x ∷ ys)
            → key c ≤ key a
        upto x ys h q c (Memᴰ.head e) = subst (λ y. key y ≤ key a) (sym e) h
        upto x ys h q c (Memᴰ.tail m) = q c m
