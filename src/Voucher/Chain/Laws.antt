-- ===== src/Voucher/Chain/Laws.antt =====
-- What the promise around `signAndSend` resolves with.
use smartcupleague.Prelude.{
  ◌≡◌, refl, ◌↔◌, ◌⊎◌, inl, inr, String, Option, some, List, [], ◌∷◌, arith, Option-cases,
}
use smartcupleague.Action.{ok}
use smartcupleague.Voucher.Backend.{
  TxEvent, TxStatus, not_included, in_block, other_status, StatusUpdate,
}
use smartcupleague.Voucher.Chain.{find_event, failed_message, settle}

-- The updates say that the transaction landed in the block `h` with what is wanted: the first
-- update that is decisive is of that block, and holds the wanted event.
pub data Lands {A : Type 0} (wanted : TxEvent → Option A) (a : A) (h : String)
    : List StatusUpdate → Type 0 where
  here :
      (u : StatusUpdate) (us : List StatusUpdate)
      → u.status ≡ in_block h
      → find_event wanted u.events ≡ some a
      → Lands wanted a h (u ∷ us)
  later :
      (u : StatusUpdate) (us : List StatusUpdate)
      → u.status ≡ other_status
      → Lands wanted a h us
      → Lands wanted a h (u ∷ us)

status-cases :
    (s : TxStatus)
    → (((t : String) × (s ≡ not_included t)) ⊎ (s ≡ other_status))
      ⊎ ((h : String) × (s ≡ in_block h))
status-cases (not_included t) = inl (inl (t, refl))
status-cases other_status = inl (inr refl)
status-cases (in_block h) = inr (h, refl)

module _ {A : Type 0} (wanted : TxEvent → Option A) (suffix missing timed_out : String) (a : A)
    (h : String) where
  Lands-settle :
      (us : List StatusUpdate)
      → Lands wanted a h us
      → settle wanted suffix missing timed_out us ≡ ok (a, h)
  unfolding settle
  Lands-settle _ (here u us e f) = rw (e, f)
  Lands-settle _ (later u us e l) = rw e (Lands-settle us l)

  settle_landed :
      (us : List StatusUpdate)
      → settle wanted suffix missing timed_out us ≡ ok (a, h)
      → Lands wanted a h us
  unfolding settle
  settle_landed [] e = absurd (ground arith)
  settle_landed (u ∷ us) e = elim (status-cases u.status) [
    | inl (inl (t, s)) ↦ absurd (ground arith)
    | inl (inr s) ↦ later u us s (settle_landed us (ground arith))
    | inr (k, s) ↦ elim (Option-cases (find_event wanted u.events)) [
      | inl f ↦ absurd (elim (Option-cases (find_event failed_message u.events)) [
        | inl g ↦ ground arith
        | inr (x, g) ↦ ground arith
      ])
      | inr (x, f) ↦ here u us (ground arith) (ground arith)
    ]
  ]

  -- The issuer counts a transaction as done, with the value and the block that it reads, exactly
  -- when the first decisive status update is of that block and holds the wanted event; an error
  -- status, a block without the event, and a list that ends undecided never do.
  pub settle-Lands :
      (us : List StatusUpdate)
      → (settle wanted suffix missing timed_out us ≡ ok (a, h)) ↔ Lands wanted a h us
  settle-Lands us = (settle_landed us, Lands-settle us)
