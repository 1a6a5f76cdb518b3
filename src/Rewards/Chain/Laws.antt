-- ===== src/Rewards/Chain/Laws.antt =====
-- A grant on the ledger changes no table, and sends at most the one grant.
use smartcupleague.Prelude.{
  ℕ, ◌≡◌, refl, sym, ap, ◌∙◌, ◌⊎◌, inl, inr, String, Option, none, [], ◌∷◌, ◌++◌, Bool-cases,
  if◌then◌else◌,
}
use smartcupleague.Action.{try_catch, pure, throw, failure, ok, Result, ok_inj, bind-ok}
use smartcupleague.Rewards.Backend.{Backend, Config, Grant}
use smartcupleague.Rewards.Chain.{
  ensure_connected, grant_ledger_freebet, with_timeout, sign_and_send_timeout_ms,
}
use smartcupleague.Rewards.View.{View, Laws, with_grant}
use smartcupleague.Rewards.View.Silent.{
  Silent, Silent-bind, Silent-catch, view_kept, Moves-after, Moves-before,
}

module _ (b : Backend) (config : Config) (laws : Laws b) where
  open laws use {view}

  connected-Silent : Silent b laws.view (ensure_connected b config)
  unfolding ensure_connected
  connected-Silent w = elim (Bool-cases (b.chain.is_connected w)) [
    | inl e ↦ rw e refl
    | inr e ↦ rw e (
        Silent-bind b laws.view (try_catch b.chain.disconnect (λ _. pure tt)) (λ _. b.chain.connect)
          (Silent-catch b laws.view b.chain.disconnect (λ _. pure tt) laws.disconnects
            (λ _ w'. refl))
          (λ _. laws.connects) w)
  ]

  answered-Silent : (g : Grant) → Silent b laws.view (with_timeout b config g)
  unfolding with_timeout
  answered-Silent g w =
      Silent-bind b laws.view (b.chain.response g sign_and_send_timeout_ms)
        (λ answered.
          if answered
          then pure tt
          else throw (failure "freebet ledger grant timed out after 180000ms"))
        (laws.responds g sign_and_send_timeout_ms)
        (λ answered w'. elim (Bool-cases answered) [ inl e ↦ rw e refl | inr e ↦ rw e refl ]) w

  abbrev pub grant_of : (actor_id : String) → ℕ → (grant_id reason : String) → Grant
  grant_of actor_id amount_planck grant_id reason = record {
    actor_id = actor_id;
    grant_id = grant_id;
    reason = reason;
    value = amount_planck;
  }

  -- Nothing was sent, or the grant.
  abbrev pub SentAtMost : Grant → View → View → Type 0
  SentAtMost g v v' = (v' ≡ v) ⊎ (v' ≡ with_grant g v)

  pub grant-SentAtMost :
      (actor_id : String) (amount_planck : ℕ) (grant_id reason : String) (w : b.World)
      → SentAtMost
          (grant_of actor_id amount_planck grant_id reason)
          (view w)
          (view ((grant_ledger_freebet b config actor_id amount_planck grant_id reason w).1))
  unfolding grant_ledger_freebet
  grant-SentAtMost actor_id amount_planck grant_id reason w =
      let g = grant_of actor_id amount_planck grant_id reason in
      elim (Bool-cases config.chain_disabled) [
        | inl e ↦ rw e (inl refl)
        | inr e ↦ rw e (
            Moves-after b laws.view (SentAtMost g) (ensure_connected b config) _ (λ v. inl refl)
              connected-Silent
              (λ _.
                Moves-after b laws.view (SentAtMost g) (b.chain.calculate_gas g) _ (λ v. inl refl)
                  (laws.calculates_gas g)
                  (λ _.
                    Moves-before b laws.view (SentAtMost g) (b.chain.sign_and_send g) _
                      (laws.sends g)
                      (λ hash.
                        Silent-bind b laws.view (with_timeout b config g) (λ _. pure hash)
                          (answered-Silent g) (λ _ w'. refl))))
              w)
      ]

  -- What the view is when a grant returned.
  abbrev pub after_grant : Grant → View → View
  after_grant g v = if config.chain_disabled then v else with_grant g v

  pub after_grant-tables :
      (g : Grant) (v : View)
      → ((after_grant g v).submissions ≡ v.submissions) × ((after_grant g v).rewards ≡ v.rewards)
  after_grant-tables g v = elim (Bool-cases config.chain_disabled) [
    | inl e ↦ rw e (refl, refl)
    | inr e ↦ rw e (refl, refl)
  ]

  pub after_grant-sent :
      (g : Grant) (v v' : View)
      → v.sent ≡ v'.sent
      → (after_grant g v).sent ≡ (after_grant g v').sent
  after_grant-sent g v v' same = elim (Bool-cases config.chain_disabled) [
    | inl e ↦ rw e same
    | inr e ↦ rw e (ap (λ grants. grants ++ g ∷ []) same)
  ]

  pub grant-ok :
      (actor_id : String) (amount_planck : ℕ) (grant_id reason : String) (w w' : b.World)
      → (hash : Option String)
      → grant_ledger_freebet b config actor_id amount_planck grant_id reason w ≡ (ok hash, w')
      → view w' ≡ after_grant (grant_of actor_id amount_planck grant_id reason) (view w)
  unfolding grant_ledger_freebet
  grant-ok actor_id amount_planck grant_id reason w w' hash h =
      let g = grant_of actor_id amount_planck grant_id reason in
      elim (Bool-cases config.chain_disabled) [
        | inl e ↦
            (let same : Path (Result (Option String) × b.World) (ok none, w) (ok hash, w') =
                rw e at h in
              rw e (sym (ap view ((ok_inj same).1))))
        | inr e ↦
            (let (t, w1, joined, rest) = bind-ok (ensure_connected b config) _ w (rw e at h) in
              let (u, w2, priced, rest2) = bind-ok (b.chain.calculate_gas g) _ w1 rest in
              let (hash2, w3, signed, rest3) = bind-ok (b.chain.sign_and_send g) _ w2 rest2 in
              let (v, w4, answered, rest4) = bind-ok (with_timeout b config g) _ w3 rest3 in
              let quiet =
                view_kept b view (with_timeout b config g) w3 w4 (answered-Silent g) answered in
              let sent = laws.sent_ok g w2 w3 hash2 signed in
              let before =
                view_kept b view (b.chain.calculate_gas g) w1 w2 (laws.calculates_gas g) priced
                ∙ view_kept b view (ensure_connected b config) w w1 connected-Silent joined in
              rw e (sym (ap view ((ok_inj rest4).1)) ∙ quiet ∙ sent ∙ ap (with_grant g) before))
      ]
