-- ===== src/Action.antt =====
-- An asynchronous method: it changes the world, and returns or throws. What was done before it
-- throws stays done.
pub mod Returns
use Prim.Native.String.{String, ◌++◌ as append}
use mathlib.Core.Option.{none, some}
use mathlib.Core.Bool.{Bool, true, false}
use text.Mathlib.Text.{find?}
use mathlib.Core.Path.{◌≡◌, refl, ap}
use mathlib.Core.Logic.{◌⊎◌, inl, inr}
use native.Mathlib.Omega.{arith}

-- What is thrown: an `HttpException` by its class, the lock's `AdvisoryLockTimeoutError`, and any
-- other error by its message.
pub data Thrown : Type 0 where
  bad_request conflict forbidden not_found : String → Thrown
  service_unavailable : Thrown
  internal_server_error : Thrown
  lock_timeout : Thrown
  failure : String → Thrown

pub data Result (A : Type 0) : Type 0 where
  ok : A → Result A
  err : Thrown → Result A

abbrev pub Action : Type 0 → Type 0 → Type 0
Action W A = W → Result A × W

module _ {W A : Type 0} where
  abbrev pub pure : A → Action W A
  pure a w = (ok a, w)

  abbrev pub throw : Thrown → Action W A
  throw e w = (err e, w)

  abbrev pub gets : (W → A) → Action W A
  gets f w = (ok (f w), w)

  -- A value or an error that is computed without the world.
  abbrev pub lift : Result A → Action W A
  lift r w = (r, w)

  abbrev catch_result : Result A × W → (Thrown → Action W A) → Result A × W
  catch_result (ok a, w) handler = (ok a, w)
  catch_result (err e, w) handler = handler e w

  -- `try { m } catch (e) { handler }`
  abbrev pub try_catch : Action W A → (Thrown → Action W A) → Action W A
  try_catch m handler w = catch_result (m w) handler

infixl 5 ◌>>=◌ ◌>>◌
abbrev bind_result : {W A B : Type 0} → Result A × W → (A → Action W B) → Result B × W
bind_result (ok a, w) f = f a w
bind_result (err e, w) f = (err e, w)

abbrev pub ◌>>=◌ : {W A B : Type 0} → Action W A → (A → Action W B) → Action W B
◌>>=◌ m f w = bind_result (m w) f

abbrev pub ◌>>◌ : {W A B : Type 0} → Action W A → Action W B → Action W B
m >> k = m >>= λ _. k

pub result_inj : {A : Type 0} {a a' : A} → Path (Result A) (ok a) (ok a') → a ≡ a'
result_inj h = cc

-- An action that returned, taken apart.
module _ {W A : Type 0} where
  pub ok_inj :
      {a a' : A} {w w' : W} → Path (Result A × W) (ok a, w) (ok a', w') → (a ≡ a') × (w ≡ w')
  ok_inj h = (cc, ap (λ (x : Result A × W). x.1) h)

  pub ran-cases :
      (x : Result A × W)
      → ((a : A) × (w : W) × (x ≡ (ok a, w))) ⊎ ((e : Thrown) × (w : W) × (x ≡ (err e, w)))
  ran-cases (ok a, w) = inl (a, w, refl)
  ran-cases (err e, w) = inr (e, w, refl)

  catch_result-ok :
      (x : Result A × W) (g : Thrown → Thrown) {a : A} {w' : W}
      → catch_result x (λ e. throw (g e)) ≡ (ok a, w')
      → x ≡ (ok a, w')
  catch_result-ok (ok a, w) g h = h
  catch_result-ok (err e, w) g h = absurd (ground arith)

  pub catch_throw-ok :
      (m : Action W A) (g : Thrown → Thrown) (w : W) {a : A} {w' : W}
      → try_catch m (λ e. throw (g e)) w ≡ (ok a, w')
      → m w ≡ (ok a, w')
  catch_throw-ok m g w h = catch_result-ok (m w) g h

pub err_ne_ok :
    {W A : Type 0} {e : Thrown} {w w' : W} {a : A} → Path (Result A × W) (err e, w) (ok a, w') → ⊥
err_ne_ok h = ground arith

module _ {W A B : Type 0} where
  bind_result-ok :
      (x : Result A × W) (f : A → Action W B) {b : B} {w' : W}
      → bind_result x f ≡ (ok b, w')
      → (a : A) × (w1 : W) × (x ≡ (ok a, w1)) × (f a w1 ≡ (ok b, w'))
  bind_result-ok (ok a, w) f h = (a, w, refl, h)
  bind_result-ok (err e, w) f h = absurd (ground arith)

  bind_result-elim {ℓ} :
      (P : Result B × W → Type ℓ) (x : Result A × W) (f : A → Action W B)
      → ((a : A) (w' : W) → x ≡ (ok a, w') → P (f a w'))
      → ((e : Thrown) (w' : W) → x ≡ (err e, w') → P (err e, w'))
      → P (bind_result x f)
  bind_result-elim P (ok a, w) f returns throws = returns a w refl
  bind_result-elim P (err e, w) f returns throws = throws e w refl

  -- What holds of a sequence, by what its first part does.
  pub bind-elim {ℓ} :
      (P : Result B × W → Type ℓ) (m : Action W A) (f : A → Action W B) (w : W)
      → ((a : A) (w' : W) → m w ≡ (ok a, w') → P (f a w'))
      → ((e : Thrown) (w' : W) → m w ≡ (err e, w') → P (err e, w'))
      → P ((m >>= f) w)
  bind-elim P m f w returns throws = bind_result-elim P (m w) f returns throws

  pub bind-ok :
      (m : Action W A) (f : A → Action W B) (w : W) {b : B} {w' : W}
      → (m >>= f) w ≡ (ok b, w')
      → (a : A) × (w1 : W) × (m w ≡ (ok a, w1)) × (f a w1 ≡ (ok b, w'))
  bind-ok m f w h = bind_result-ok (m w) f h

  catch_then-ok :
      (x : Result B × W) (k : Action W A) {b : B} {w' : W}
      → catch_result x (λ e. k >> throw e) ≡ (ok b, w')
      → x ≡ (ok b, w')
  catch_then-ok (ok b, w) k h = h
  catch_then-ok (err e, w) k h =
      let (a, w1, ran, rest) = bind-ok k (λ _. throw e) w h in absurd (err_ne_ok rest)

  pub catch_then_throw-ok :
      (m : Action W B) (k : Action W A) (w : W) {b : B} {w' : W}
      → try_catch m (λ e. k >> throw e) w ≡ (ok b, w')
      → m w ≡ (ok b, w')
  catch_then_throw-ok m k w h = catch_then-ok (m w) k h

-- `text.includes(part)`
abbrev pub text_includes : String → String → Bool
text_includes text part = elim (find? text part) [ none ↦ false | some _ ↦ true ]

-- The text that `formatUnknownError` makes of an error, without the stack.
abbrev pub text_of : Thrown → String
text_of (bad_request message) = message
text_of (conflict message) = message
text_of (forbidden message) = message
text_of (not_found message) = message
text_of service_unavailable = "ServiceUnavailableException"
text_of internal_server_error = "InternalServerErrorException"
text_of lock_timeout = "AdvisoryLockTimeoutError"
text_of (failure message) = append "Error: " message

-- `e.message`, without the operation and the time of a lock that timed out.
abbrev pub message_of : Thrown → String
message_of (bad_request message) = message
message_of (conflict message) = message
message_of (forbidden message) = message
message_of (not_found message) = message
message_of service_unavailable = "Service Unavailable"
message_of internal_server_error = "Internal Server Error"
message_of lock_timeout = "Timed out waiting for advisory lock"
message_of (failure message) = message
