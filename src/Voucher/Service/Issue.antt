-- ===== src/Voucher/Service/Issue.antt =====
-- What a voucher that was issued on the chain rests on.
use smartcupleague.Prelude.{
  ℕ, ◌+◌, ◌*◌, ◌≤◌, ◌≡◌, ap, ap₂, ◌∙◌, inl, inr, String, List, arith, ltb, Bool-cases,
}
use smartcupleague.Action.{Result, ok, bind-ok, ok_inj}
use smartcupleague.Voucher.Backend.{Backend, StatusUpdate}
use smartcupleague.Voucher.Chain.{planck_per_vara, min_reserve_vara, issued_id, settle, clamp}
use smartcupleague.Voucher.Chain.Laws.{Lands, settle-Lands}
use smartcupleague.Voucher.Service.{issue_on_chain, lift, not_included_suffix}

module _ (b : Backend) where
  -- The send of an issue that returns found a balance of the issuer that covers the amount and the
  -- reserve of 10 VARA, sent the amount and the requested duration clamped to the node's bounds, and
  -- returns the id in a VoucherIssued event of the block that the first decisive status update names,
  -- with the number of that block.
  pub issue_on_chain-inv :
      (account : String) (programs : List String) (amount requested : ℕ) (r : String × ℕ)
      (w w' : b.World)
      → issue_on_chain b account programs amount requested w ≡ (ok r, w')
      → (balance : ℕ) × (w1 : b.World) × (updates : List StatusUpdate) × (w2 : b.World)
        × (hash : String) × (b.balance_of b.issuer_address w ≡ (ok balance, w1))
        × (amount * planck_per_vara + min_reserve_vara * planck_per_vara ≤ balance)
        × (b.send_issue account
              (amount * planck_per_vara)
              (clamp requested b.min_duration b.max_duration)
              programs
              w1
            ≡ (ok updates, w2))
        × Lands issued_id r.0 hash updates
        × (b.block_number_of hash w2 ≡ (ok r.1, w'))
  unfolding issue_on_chain
  issue_on_chain-inv account programs amount requested r w w' h =
      let (balance, w1, known, rest) = bind-ok (b.balance_of b.issuer_address) _ w h in
      elim (Bool-cases
        (ltb balance (amount * planck_per_vara + min_reserve_vara * planck_per_vara))) [
          | inl short ↦ absurd (ground arith)
          | inr enough ↦
              let (updates, w2, sent, rest2) =
                bind-ok
                  (b.send_issue account (amount * planck_per_vara)
                    (clamp requested b.min_duration b.max_duration) programs)
                  _ w1 (rw enough at rest) in
              let outcome =
                settle issued_id not_included_suffix "VoucherIssued event not found"
                  "signAndSend timed out after 180s — transaction may or may not have landed"
                  updates in
              let (landed, w3, settled, rest3) = bind-ok (lift outcome) _ w2 rest2 in
              let (n, w4, numbered, ends) = bind-ok (b.block_number_of landed.1) _ w3 rest3 in
              let (same, last) = ok_inj ends in
              let settles : outcome ≡ ok landed =
                ap (λ (x : Result (String × String) × b.World). x.0) settled in
              let unmoved : w2 ≡ w3 =
                ap (λ (x : Result (String × String) × b.World). x.1) settled in
              let id : landed.0 ≡ r.0 = ap (λ (x : String × ℕ). x.0) same in
              let number : n ≡ r.1 = ap (λ (x : String × ℕ). x.1) same in
              (
                balance,
                w1,
                updates,
                w2,
                landed.1,
                known,
                ground arith,
                sent,
                (settle-Lands issued_id not_included_suffix "VoucherIssued event not found"
                      "signAndSend timed out after 180s — transaction may or may not have landed"
                      r.0 landed.1 updates).0
                    (settles ∙ ap (λ x. ok (x, landed.1)) id),
                ap (b.block_number_of landed.1) unmoved
                    ∙ numbered
                    ∙ ap₂ (λ x y. (ok x, y)) number last,
              )
        ]
