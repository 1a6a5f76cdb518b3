-- ===== src/Action/Returns.antt =====
-- What an action keeps of the world, whether it returns or throws, and what it returns.
use mathlib.Core.Path.{subst}
use smartcupleague.Action.{
  Action, Result, ok, err, Thrown, pure, try_catch, ◌>>=◌, bind-elim, ran-cases,
}
use mathlib.Core.Logic.{inl, inr}

module _ {W : Type 0} (I : W → Type 0) where
  -- A run ends well: the world keeps I, and a value that is returned has Q.
  abbrev pub Ends : {A : Type 0} → (A → Type 0) → Result A × W → Type 0
  Ends Q (ok a, w) = I w × Q a
  Ends Q (err e, w) = I w

  abbrev pub Returns : {A : Type 0} → (A → Type 0) → Action W A → Type 0
  Returns Q m = (w : W) → I w → Ends Q (m w)

  -- It keeps I.
  abbrev pub Keeps : {A : Type 0} → Action W A → Type 0
  Keeps m = Returns (λ a. Unit {0}) m

  module _ {A : Type 0} (Q : A → Type 0) where
    pub Ends-kept : (x : Result A × W) → Ends Q x → I (x.1)
    Ends-kept (ok a, w) h = h.0
    Ends-kept (err e, w) h = h

    pub Returns-pure : (a : A) → Q a → Returns Q (pure a)
    Returns-pure a q w i = (i, q)

    pub Returns-catch :
        (m : Action W A) (handler : Thrown → Action W A)
        → Returns Q m
        → ((e : Thrown) → Returns Q (handler e))
        → Returns Q (try_catch m handler)
    Returns-catch m handler h k w i = elim (ran-cases (m w)) [
      | inl (a, w', ran) ↦ rw ran (subst (Ends Q) ran (h w i))
      | inr (e, w', ran) ↦ rw ran (k e w' (subst (Ends Q) ran (h w i)))
    ]

    module _ {B : Type 0} (R : B → Type 0) where
      pub Returns-bind :
          (m : Action W A) (f : A → Action W B)
          → Returns Q m
          → ((a : A) → Q a → Returns R (f a))
          → Returns R (m >>= f)
      Returns-bind m f h k w i =
          bind-elim (Ends R) m f w
            (λ a w' ran. let ended = subst (Ends Q) ran (h w i) in k a ended.1 w' ended.0)
            (λ e w' ran. subst (Ends Q) ran (h w i))
