-- ===== src/Oracle/Server/Laws.antt =====
-- What is proposed of a request that is answered.
use smartcupleague.Prelude.{
  ℕ, ◌≤◌, ◌<◌, ◌≡◌, ap, ◌∙◌, subst, Option, none, some, true, arith, Bool-cases, Option-cases, inl,
  inr, nat_eq, ◌==◌, ltb,
}
use smartcupleague.Action.{ok, lift, bind-ok, ok_inj, err_ne_ok, result_inj}
use smartcupleague.Oracle.Result.{PenaltyWinner}
use smartcupleague.Oracle.Server.{
  Gateway, ProposeBody, StateMatch, BolaoState, as_match_id, as_goals, as_penalty_winner,
  find_match, weight_of, is_knockout, check_draw, check_phase, send_checked, propose_result,
}

match_id-range : (x : Option ℕ) (n : ℕ) → as_match_id x ≡ ok n → (x ≡ some n) × (n ≤ 10_000)
unfolding as_match_id
match_id-range x n h = ground arith

goals-range : (x : Option ℕ) (n : ℕ) → as_goals x ≡ ok n → (x ≡ some n) × (n ≤ 255)
unfolding as_goals
goals-range x n h = ground arith

knockout-found :
    (match_id : ℕ) (state : BolaoState)
    → is_knockout match_id state ≡ ok true
    → (m : StateMatch) × (find_match match_id state.matches ≡ some m)
      × (1 < weight_of m.phase state.phases)
unfolding is_knockout
knockout-found match_id state h = elim (Option-cases (find_match match_id state.matches)) [
  | inl e ↦ absurd (ground arith)
  | inr (m, e) ↦
      (let heavy : ltb 1 (weight_of m.phase state.phases) ≡ true =
          result_inj (rw (e, is_knockout) at h) in
        (m, e, ground arith))
]

module _ (b : Gateway) where
  -- Without a penalty winner anything goes; with one, the score is a draw, and a state that was read
  -- has the match in a phase whose points weigh more than one.
  abbrev pub MayHaveWinner : (match_id home away : ℕ) → Option PenaltyWinner → Type 0
  MayHaveWinner match_id home away none = Unit
  MayHaveWinner match_id home away (some winner) =
      (home ≡ away)
      × (state : BolaoState) × (w : b.World) × (w' : b.World) × (m : StateMatch) × (b.query_state w
          ≡ (ok state, w'))
      × (find_match match_id state.matches ≡ some m)
      × (1 < weight_of m.phase state.phases)

  checks-ok :
      (match_id home away : ℕ) (winner : Option PenaltyWinner) (w w1 w2 w3 : b.World)
      → check_draw b home away winner w ≡ (ok tt, w1)
      → check_phase b match_id winner w2 ≡ (ok tt, w3)
      → MayHaveWinner match_id home away winner
  unfolding check_draw check_phase
  checks-ok match_id home away none w w1 w2 w3 draw phase = tt
  checks-ok match_id home away (some winner) w w1 w2 w3 draw phase =
      elim (Bool-cases (home == away)) [
        | inr e ↦ absurd (err_ne_ok (rw e at draw))
        | inl e ↦
            (let (state, w4, queried, rest) = bind-ok b.query_state _ w2 phase in
              let (knockout, w5, known, rest2) =
                bind-ok (lift (is_knockout match_id state)) _ w4 rest in
              elim (Bool-cases knockout) [
                | inr no_ ↦ absurd (err_ne_ok (rw no_ at rest2))
                | inl yes_ ↦
                    (let (m, found, heavy) =
                        knockout-found match_id state (ap (λ x. x.0) known ∙ ap ok yes_) in
                      ((nat_eq.same_iff home away).0 e, state, w2, w4, m, queried, found, heavy))
              ])
      ]

  -- What stands behind an answer.
  abbrev pub Proposed : ProposeBody → b.World → ℕ × ℕ × ℕ × Option PenaltyWinner → Type 0
  Proposed body w' (match_id, home, away, winner) =
      ((body.match_id ≡ some match_id) × (match_id ≤ 10_000))
      × ((body.home ≡ some home) × (home ≤ 255))
      × ((body.away ≡ some away) × (away ≤ 255))
      × (as_penalty_winner body.penalty_winner ≡ ok winner)
      × MayHaveWinner match_id home away winner
      × ((w1 : b.World) × (b.send_propose_result match_id home away winner w1 ≡ (ok tt, w')))

  send_checked-Proposed :
      (body : ProposeBody) (match_id home away : ℕ) (winner : Option PenaltyWinner) (w w' : b.World)
      (answer : ℕ × ℕ × ℕ × Option PenaltyWinner)
      → (body.match_id ≡ some match_id) × (match_id ≤ 10_000)
      → (body.home ≡ some home) × (home ≤ 255)
      → (body.away ≡ some away) × (away ≤ 255)
      → as_penalty_winner body.penalty_winner ≡ ok winner
      → send_checked b match_id home away winner w ≡ (ok answer, w')
      → Proposed body w' answer
  unfolding send_checked
  send_checked-Proposed body match_id home away winner w w' answer m h a p ran =
      let (t5, w5, draw, h5) = bind-ok (check_draw b home away winner) _ w ran in
      let (t6, w6, connected, h6) = bind-ok b.get_api _ w5 h5 in
      let (t7, w7, phase, h7) = bind-ok (check_phase b match_id winner) _ w6 h6 in
      let (t8, w8, sent, h8) = bind-ok (b.send_propose_result match_id home away winner) _ w7 h7 in
      let (same, reached) = ok_inj h8 in
      subst (Proposed body w') same (
        m,
        h,
        a,
        p,
        checks-ok match_id home away winner w w5 w6 w7 draw phase,
        (w7, sent ∙ ap (λ z. (ok tt, z)) reached),
      )

  -- A request that is answered had its result sent: of a match from 0 to 10 000 with at most 255 goals
  -- a side, the numbers of the request; and with a penalty winner only for a draw of a match that
  -- BolaoCore's state, as it was read, has in a phase of the knockout.
  pub propose_result-Proposed :
      (body : ProposeBody) (w w' : b.World) (answer : ℕ × ℕ × ℕ × Option PenaltyWinner)
      → propose_result b body w ≡ (ok answer, w')
      → Proposed body w' answer
  unfolding propose_result
  propose_result-Proposed body w w' answer h =
      let (match_id, w1, r1, h1) = bind-ok (lift (as_match_id body.match_id)) _ w h in
      let (home, w2, r2, h2) = bind-ok (lift (as_goals body.home)) _ w1 h1 in
      let (away, w3, r3, h3) = bind-ok (lift (as_goals body.away)) _ w2 h2 in
      let (winner, w4, r4, h4) = bind-ok (lift (as_penalty_winner body.penalty_winner)) _ w3 h3 in
      send_checked-Proposed body match_id home away winner w4 w' answer
        (match_id-range body.match_id match_id (ap (λ x. x.0) r1))
        (goals-range body.home home (ap (λ x. x.0) r2))
        (goals-range body.away away (ap (λ x. x.0) r3)) (ap (λ x. x.0) r4) h4
