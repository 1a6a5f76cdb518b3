-- ===== src/Voucher/Gasless/Whitelist.antt =====
-- What a request must have passed before anything of the wallet is looked at.
use smartcupleague.Prelude.{
  ◌≡◌, refl, sym, ap, ap₂, subst, ◌∙◌, ◌⊎◌, inl, inr, String, some, true, false, not, List, [], ◌∷◌,
  arith, Bool-cases, Option-cases, length, select, is_nil, nat_eq, ◌==◌,
}
use smartcupleague.Action.{Result, ok, bind-ok, ok_inj, catch_throw-ok}
use smartcupleague.Voucher.Backend.{
  Backend, Config, GaslessProgram, GaslessProgramStatus, enabled, disabled,
}
use smartcupleague.Voucher.Lock.{with_advisory_lock}
use smartcupleague.Voucher.Gasless.{
  RequestVoucherResult, RequestBody, normalize_programs, is_enabled, is_legacy, as_http,
  check_whitelist, request_under_lock, request_voucher,
}

-- Every row is that of an enabled program.
abbrev pub AllEnabled : List GaslessProgram → Type 0
AllEnabled [] = Unit
AllEnabled (r ∷ rs) = (r.status ≡ enabled) × AllEnabled rs

status-cases : (s : GaslessProgramStatus) → (s ≡ enabled) ⊎ (s ≡ disabled)
status-cases enabled = inl refl
status-cases disabled = inr refl

none_disabled :
    (rows : List GaslessProgram)
    → is_nil (select (λ r. not (is_enabled r)) rows) ≡ true
    → AllEnabled rows
none_disabled [] h = tt
none_disabled (r ∷ rs) h = elim (status-cases r.status) [
  | inl e ↦ (e, none_disabled rs (ground arith))
  | inr e ↦ absurd (ground arith)
]

module _ (b : Backend) (config : Config) where
  check_whitelist-inv :
      (programs : List String) (rows : List GaslessProgram) (w w' : b.World)
      → check_whitelist b config programs w ≡ (ok rows, w')
      → (b.find_programs programs w ≡ (ok rows, w'))
        × (length rows ≡ length programs)
        × AllEnabled rows
  unfolding check_whitelist
  check_whitelist-inv programs rows w w' h =
      let (rs, w1, found, rest) = bind-ok (b.find_programs programs) _ w h in
      elim (Bool-cases (length rs == length programs)) [
        | inr e ↦ absurd (ground arith)
        | inl e ↦ elim (Bool-cases (is_nil (select (λ r. not (is_enabled r)) rs))) [
          | inr f ↦ absurd (ground arith)
          | inl f ↦
              (let same : Path (Result (List GaslessProgram) × b.World) (ok rs, w1) (ok rows, w') =
                  ground arith in
                let (p, q) = ok_inj same in
                (
                  found ∙ ap₂ (λ x y. (ok x, y)) p q,
                  sym (ap (λ (x : List GaslessProgram). length x) p)
                      ∙ (nat_eq.same_iff (length rs) (length programs)).0 e,
                  subst AllEnabled p (none_disabled rs f),
                ))
        ]
      ]

  -- A request that is answered names an account that decodes and at least one program, uses no
  -- legacy field, and the table holds as many rows for its programs as it names, each enabled. The
  -- answer is then that of the work under the account's lock, its errors made into HTTP exceptions.
  pub request_voucher-inv :
      (body : RequestBody) (ip : String) (r : RequestVoucherResult) (w w' : b.World)
      → request_voucher b config body ip w ≡ (ok r, w')
      → (address : String) × (rows : List GaslessProgram) × (w1 : b.World) × (b.decode_address
            body.account
          ≡ some address)
        × (is_legacy b config body ≡ false)
        × (is_nil (normalize_programs body.programs) ≡ false)
        × (b.find_programs (normalize_programs body.programs) w ≡ (ok rows, w1))
        × (length rows ≡ length (normalize_programs body.programs))
        × AllEnabled rows
        × (with_advisory_lock b address
              (request_under_lock b config ip address (normalize_programs body.programs) rows)
              w1
            ≡ (ok r, w'))
  unfolding request_voucher
  request_voucher-inv body ip r w w' h = elim (Bool-cases (is_legacy b config body)) [
    | inl l ↦ absurd (ground arith)
    | inr l ↦ elim (Option-cases (b.decode_address body.account)) [
      | inl d ↦ absurd (ground arith)
      | inr (address, d) ↦ elim (Bool-cases (is_nil (normalize_programs body.programs))) [
        | inl n ↦ absurd (ground arith)
        | inr n ↦
            let (rows, w1, checked, rest) =
              bind-ok (check_whitelist b config (normalize_programs body.programs)) _ w
                (rw (l, d, n) at h) in
            let (found, same, enabled_all) =
              check_whitelist-inv (normalize_programs body.programs) rows w w1 checked in
            (
              address,
              rows,
              w1,
              d,
              l,
              n,
              found,
              same,
              enabled_all,
              catch_throw-ok
                  (with_advisory_lock b address (
                    request_under_lock b config ip address (normalize_programs body.programs) rows))
                  (as_http b config) w1 rest,
            )
      ]
    ]
  ]
