-- ===== src/Rewards/Text/Laws.antt =====
-- What `normalizeActorId` returns, and that an actor id is read back as itself.
use Prim.Native.Char.{Char, code}
use Prim.Native.String.{String}
use smartcupleague.Prelude.{
  ℕ, zero, suc, ◌*◌, ◌/◌, ◌%◌, ◌<◌, ◌≡◌, ◌≢◌, ◌↔◌, ◌∙◌, refl, sym, ap, ap₂, subst, ◌⊎◌, inl, inr,
  Option, some, true, false, List, [], ◌∷◌, arith, length, nat_eq, ◌==◌, Bool-cases, Option-cases,
  ascii, lower_char, to_lower_case, to_lower_case_idem,
}
use smartcupleague.Action.{ok, result_inj}
use smartcupleague.Rewards.Text.{
  is_space, is_hex, is_hex_of, is_actor_id, is_empty, trim_start, trim_end, trim, hex_char, hex_of,
  zero_x, normalize_actor_id,
}

hex_char-lem :
    (n : ℕ) → n < 16 → (is_hex (hex_char n) ≡ true) × (lower_char (hex_char n) ≡ hex_char n)
unfolding hex_char ascii lower_char
hex_char-lem n h = (ground arith, ground arith)

is_hex-lower : (c : Char) → is_hex c ≡ true → is_hex (lower_char c) ≡ true
unfolding lower_char ascii
is_hex-lower c h = ground arith

is_hex-space : (c : Char) → is_hex c ≡ true → is_space c ≡ false
unfolding is_space
is_hex-space c h = ground arith

is_hex_of-lower : (n : ℕ) (s : String) → is_hex_of n s ≡ true → is_hex_of n (to_lower_case s) ≡ true
unfolding is_hex_of to_lower_case
is_hex_of-lower zero String.[] h = refl
is_hex_of-lower zero (String.◌∷◌ c s) h = absurd (ground arith)
is_hex_of-lower (suc n) String.[] h = absurd (ground arith)
is_hex_of-lower (suc n) (String.◌∷◌ c s) h = ground (arith, is_hex-lower c, is_hex_of-lower n s)

trim_end-hex : (n : ℕ) (s : String) → is_hex_of n s ≡ true → trim_end s ≡ s
unfolding is_hex_of trim_end
trim_end-hex zero String.[] h = refl
trim_end-hex zero (String.◌∷◌ c s) h = absurd (ground arith)
trim_end-hex (suc n) String.[] h = refl
trim_end-hex (suc n) (String.◌∷◌ c s) h = ground (arith, is_hex-space c, trim_end-hex n s)

-- The two parts of an actor id.
is_actor_id-inv :
    (s : String)
    → is_actor_id s ≡ true
    → (c : Char) × (d : Char) × (rest : String) × (s ≡ String.◌∷◌ c (String.◌∷◌ d rest))
      × ((code c == b'0') ≡ true)
      × ((code d == b'x') ≡ true)
      × (is_hex_of 64 rest ≡ true)
unfolding is_actor_id
is_actor_id-inv String.[] h = absurd (ground arith)
is_actor_id-inv (String.◌∷◌ c String.[]) h = absurd (ground arith)
is_actor_id-inv (String.◌∷◌ c (String.◌∷◌ d s)) h =
    (c, d, s, refl, ground arith, ground arith, ground arith)

zero_x-plain :
    (c : Char) (n : ℕ)
    → (n ≡ 48) ⊎ (n ≡ 120)
    → (code c == n) ≡ true
    → (is_space c ≡ false) × (code (lower_char c) ≡ n)
unfolding is_space lower_char ascii
zero_x-plain c n k h = ground arith

actor_id-lower : (s : String) → is_actor_id s ≡ true → is_actor_id (to_lower_case s) ≡ true
unfolding is_actor_id to_lower_case
actor_id-lower String.[] h = absurd (ground arith)
actor_id-lower (String.◌∷◌ c String.[]) h = absurd (ground arith)
actor_id-lower (String.◌∷◌ c (String.◌∷◌ d s)) h =
    ground
      (arith, zero_x-plain c 48 (inl refl), zero_x-plain d 120 (inr refl), is_hex_of-lower 64 s)

trim_end-cons :
    (c : Char) (s : String)
    → is_space c ≡ false
    → trim_end s ≡ s
    → trim_end (String.◌∷◌ c s) ≡ String.◌∷◌ c s
unfolding trim_end
trim_end-cons c s h k = elim (Bool-cases (is_empty (trim_end s))) [
  | inl e ↦ rw (e, h, k) refl
  | inr e ↦ rw (e, k) refl
]

actor_id-trim : (s : String) → is_actor_id s ≡ true → trim s ≡ s
unfolding trim trim_start
actor_id-trim s h =
    let (c, d, rest, whole, zero_, x, hex) = is_actor_id-inv s h in
    let (c_full, c_low) = zero_x-plain c 48 (inl refl) zero_ in
    let (d_full, d_low) = zero_x-plain d 120 (inr refl) x in
    subst (λ v. trim v ≡ v) (sym whole)
      (rw c_full (
        trim_end-cons c (String.◌∷◌ d rest) c_full
          (trim_end-cons d rest d_full (trim_end-hex 64 rest hex))))

-- Each is the value of a byte.
abbrev pub AllBytes : List ℕ → Type 0
AllBytes [] = Unit
AllBytes (byte ∷ bytes) = (byte < 256) × AllBytes bytes

hex_of-lem :
    (bytes : List ℕ)
    → AllBytes bytes
    → (is_hex_of (2 * length bytes) (hex_of bytes) ≡ true)
      × (to_lower_case (hex_of bytes) ≡ hex_of bytes)
unfolding is_hex_of hex_of to_lower_case
hex_of-lem [] h = (refl, refl)
hex_of-lem (byte ∷ bytes) (small, rest) =
    let (hex, lower) = hex_of-lem bytes rest in
    let (hex1, lower1) = hex_char-lem (byte / 16) (omega (arith, small)) in
    let (hex2, lower2) = hex_char-lem (byte % 16) (omega arith) in
    let double : 2 * length (byte ∷ bytes) ≡ suc (suc (2 * length bytes)) = omega arith in
    (
      subst
          (λ n.
            is_hex_of n
              (String.◌∷◌ (hex_char (byte / 16)) (String.◌∷◌ (hex_char (byte % 16)) (hex_of bytes)))
            ≡ true)
          (sym double) (rw (hex1, hex2) hex),
      ap₂ String.◌∷◌ lower1 (ap₂ String.◌∷◌ lower2 lower),
    )

-- A string is hexadecimal of one length.
is_hex_of-length : (n m : ℕ) (s : String) → is_hex_of n s ≡ true → is_hex_of m s ≡ true → n ≡ m
unfolding is_hex_of
is_hex_of-length zero zero s h k = refl
is_hex_of-length zero (suc m) String.[] h k = absurd (ground arith)
is_hex_of-length zero (suc m) (String.◌∷◌ c s) h k = absurd (ground arith)
is_hex_of-length (suc n) m String.[] h k = absurd (ground arith)
is_hex_of-length (suc n) zero (String.◌∷◌ c s) h k = absurd (ground arith)
is_hex_of-length (suc n) (suc m) (String.◌∷◌ c s) h k =
    ap suc (is_hex_of-length n m s (ground arith) (ground arith))

zero_x-lower :
    (bytes : List ℕ)
    → AllBytes bytes
    → to_lower_case (zero_x (hex_of bytes)) ≡ zero_x (hex_of bytes)
unfolding to_lower_case lower_char ascii zero_x
zero_x-lower bytes small = ap zero_x ((hex_of-lem bytes small).1)

zero_x-is_actor_id :
    (bytes : List ℕ) → is_actor_id (zero_x (hex_of bytes)) ≡ is_hex_of 64 (hex_of bytes)
unfolding is_actor_id zero_x
zero_x-is_actor_id bytes = refl

-- Bytes are written as an actor id exactly when they are 32.
decoded-IsActorId :
    (bytes : List ℕ)
    → AllBytes bytes
    → (is_actor_id (zero_x (hex_of bytes)) ≡ true) ↔ (length bytes ≡ 32)
decoded-IsActorId bytes small =
    let (hex, lower) = hex_of-lem bytes small in
    (
      λ form.
          let twice : 2 * length bytes ≡ 64 =
            is_hex_of-length (2 * length bytes) 64 (hex_of bytes) hex
              (sym (zero_x-is_actor_id bytes) ∙ form) in
          omega (arith, twice),
      λ exact.
          let twice : 2 * length bytes ≡ 64 = omega (arith, exact) in
          zero_x-is_actor_id bytes ∙ subst (λ n. is_hex_of n (hex_of bytes) ≡ true) twice hex,
    )

true_ne_false : true ≡ false → ⊥
true_ne_false h = cc

module _ (decode : String → Option (List ℕ)) where
  -- The address decodes to a number of bytes that an actor id does not have.
  abbrev pub Misfit : String → Type 0
  Misfit address = (bytes : List ℕ) × (decode address ≡ some bytes) × (length bytes ≢ 32)

  actor_id-same :
      (id : String)
      → is_actor_id id ≡ true
      → to_lower_case id ≡ id
      → normalize_actor_id decode id ≡ ok id
  unfolding normalize_actor_id
  actor_id-same id form low = rw (actor_id-trim id form, form, low) refl

  -- When an address decodes to numbers below 256, what `normalizeActorId` returns is in lower
  -- case. Either it is an actor id, and read back as itself, or it is no actor id, and the wallet is
  -- none and decodes to a number of bytes other than 32.
  pub normalize_actor_id-reads :
      (wallet id : String)
      → ((address : String) (bytes : List ℕ) → decode address ≡ some bytes → AllBytes bytes)
      → normalize_actor_id decode wallet ≡ ok id
      → (to_lower_case id ≡ id)
        × (((is_actor_id id ≡ true) × (normalize_actor_id decode id ≡ ok id))
            ⊎ ((is_actor_id id ≡ false)
                × (is_actor_id (trim wallet) ≡ false)
                × Misfit (trim wallet)))
  unfolding normalize_actor_id
  normalize_actor_id-reads wallet id are_bytes h = elim (Bool-cases (is_actor_id (trim wallet))) [
    | inl e ↦
        (let same : to_lower_case (trim wallet) ≡ id = result_inj (rw e at h) in
          let form : is_actor_id id ≡ true =
            subst (λ v. is_actor_id v ≡ true) same (actor_id-lower (trim wallet) e) in
          let low : to_lower_case id ≡ id =
            subst (λ v. to_lower_case v ≡ v) same (to_lower_case_idem (trim wallet)) in
          (low, inl (form, actor_id-same id form low)))
    | inr e ↦ elim (Option-cases (decode (trim wallet))) [
      | inl none_ ↦ absurd (ground arith)
      | inr (bytes, some_) ↦
          (let same : zero_x (hex_of bytes) ≡ id = result_inj (rw (e, some_) at h) in
            let small = are_bytes (trim wallet) bytes some_ in
            let low : to_lower_case id ≡ id =
              subst (λ v. to_lower_case v ≡ v) same (zero_x-lower bytes small) in
            let fits : (is_actor_id id ≡ true) ↔ (length bytes ≡ 32) =
              subst (λ v. (is_actor_id v ≡ true) ↔ (length bytes ≡ 32)) same
                (decoded-IsActorId bytes small) in
            (
              low,
              elim (Bool-cases (is_actor_id id)) [
                | inl form ↦ inl (form, actor_id-same id form low)
                | inr bad ↦
                    inr (bad, e, (bytes, some_, λ exact. true_ne_false (sym (fits.1 exact) ∙ bad)))
              ],
            ))
    ]
  ]
