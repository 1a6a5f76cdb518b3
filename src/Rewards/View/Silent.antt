-- ===== src/Rewards/View/Silent.antt =====
-- Actions that change nothing of a view of the world, and actions that keep what it satisfies.
use smartcupleague.Prelude.{
  ◌≡◌, sym, ap, ◌∙◌, subst, Option, none, some, Bool, true, false, if◌then◌else◌, inl, inr,
}
use smartcupleague.Action.{Action, Result, bind-elim, ran-cases, ◌>>=◌, Thrown, try_catch}
use smartcupleague.Rewards.Backend.{Backend}

module _ (b : Backend) {X : Type 0} (view : b.World → X) where
  abbrev pub Silent : {A : Type 0} → Action b.World A → Type 0
  Silent m = (w : b.World) → view ((m w).1) ≡ view w

  -- The view that an action reaches is that of the world that it returns.
  pub view_kept :
      {A : Type 0} (m : Action b.World A) {r : Result A} (w w' : b.World)
      → Silent m
      → m w ≡ (r, w')
      → view w' ≡ view w
  view_kept m w w' s ran = sym (ap (λ x. view (x.1)) ran) ∙ s w

  pub Silent-bind :
      {A B : Type 0} (m : Action b.World A) (f : A → Action b.World B)
      → Silent m
      → ((a : A) → Silent (f a))
      → Silent (m >>= f)
  Silent-bind m f s t w =
      bind-elim (λ x. view (x.1) ≡ view w) m f w (λ a w' ran. t a w' ∙ view_kept m w w' s ran)
        (λ e w' ran. view_kept m w w' s ran)

  pub Silent-catch :
      {A : Type 0} (m : Action b.World A) (handler : Thrown → Action b.World A)
      → Silent m
      → ((e : Thrown) → Silent (handler e))
      → Silent (try_catch m handler)
  Silent-catch m handler s t w = elim (ran-cases (m w)) [
    | inl (a, w', ran) ↦ rw ran (view_kept m w w' s ran)
    | inr (e, w', ran) ↦ rw ran (t e w' ∙ view_kept m w w' s ran)
  ]

  -- Each run of the action moves the view by the relation.
  abbrev pub Moves : (X → X → Type 0) → {A : Type 0} → Action b.World A → Type 0
  Moves R m = (w : b.World) → R (view w) (view ((m w).1))

  pub Moves-after :
      (R : X → X → Type 0) {A B : Type 0} (m : Action b.World A) (f : A → Action b.World B)
      → ((v : X) → R v v)
      → Silent m
      → ((a : A) → Moves R (f a))
      → Moves R (m >>= f)
  Moves-after R m f stays s moves w =
      bind-elim (λ x. R (view w) (view (x.1))) m f w
        (λ a w' ran. subst (λ v. R v (view ((f a w').1))) (view_kept m w w' s ran) (moves a w'))
        (λ e w' ran. subst (R (view w)) (sym (view_kept m w w' s ran)) (stays (view w)))

  pub Moves-before :
      (R : X → X → Type 0) {A B : Type 0} (m : Action b.World A) (f : A → Action b.World B)
      → Moves R m
      → ((a : A) → Silent (f a))
      → Moves R (m >>= f)
  Moves-before R m f moves s w =
      bind-elim (λ x. R (view w) (view (x.1))) m f w
        (λ a w' ran. subst (R (view w)) (ap (λ x. view (x.1)) ran ∙ sym (s a w')) (moves w))
        (λ e w' ran. subst (R (view w)) (ap (λ x. view (x.1)) ran) (moves w))

  pub Silent-if :
      {A : Type 0} (t : Bool) (m n : Action b.World A)
      → Silent m
      → Silent n
      → Silent (if t then m else n)
  Silent-if true m n s r = s
  Silent-if false m n s r = r

  pub Silent-option :
      {A B : Type 0} (o : Option A) (m : Action b.World B) (f : A → Action b.World B)
      → Silent m
      → ((a : A) → Silent (f a))
      → Silent (elim o [ none ↦ m | some a ↦ f a ])
  Silent-option none m f s r = s
  Silent-option (some a) m f s r = r a

  -- Each run of the action keeps what the view satisfies.
  abbrev pub Keeps : (X → Type 0) → {A : Type 0} → Action b.World A → Type 0
  Keeps P m = (w : b.World) → P (view w) → P (view ((m w).1))

  pub Keeps-Silent : (P : X → Type 0) {A : Type 0} (m : Action b.World A) → Silent m → Keeps P m
  Keeps-Silent P m s w h = subst P (sym (s w)) h

  pub Keeps-bind :
      (P : X → Type 0) {A B : Type 0} (m : Action b.World A) (f : A → Action b.World B)
      → Keeps P m
      → ((a : A) → Keeps P (f a))
      → Keeps P (m >>= f)
  Keeps-bind P m f k l w h =
      bind-elim (λ x. P (view (x.1))) m f w
        (λ a w' ran. l a w' (subst P (ap (λ x. view (x.1)) ran) (k w h)))
        (λ e w' ran. subst P (ap (λ x. view (x.1)) ran) (k w h))

  pub Keeps-if :
      (P : X → Type 0) {A : Type 0} (t : Bool) (m n : Action b.World A)
      → Keeps P m
      → Keeps P n
      → Keeps P (if t then m else n)
  Keeps-if P true m n k l = k
  Keeps-if P false m n k l = l

  pub Keeps-option :
      (P : X → Type 0) {A B : Type 0} (o : Option A) (m : Action b.World B)
      (f : A → Action b.World B)
      → Keeps P m
      → ((a : A) → Keeps P (f a))
      → Keeps P (elim o [ none ↦ m | some a ↦ f a ])
  Keeps-option P none m f k l = k
  Keeps-option P (some a) m f k l = l a

pub Silent-map :
    (b : Backend) {X Y : Type 0} (view : b.World → X) (part : X → Y) {A : Type 0}
    (m : Action b.World A)
    → Silent b view m
    → Silent b (λ w. part (view w)) m
Silent-map b view part m s w = ap part (s w)
