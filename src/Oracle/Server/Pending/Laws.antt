-- ===== src/Oracle/Server/Pending/Laws.antt =====
-- The two routes of the pending matches agree, and what they show of a match that is finalized.
use mathlib.Core.List.Memᴰ
use smartcupleague.Prelude.{
  ℕ, ◌<◌, ◌≡◌, refl, sym, ap, ◌∙◌, subst, none, some, true, false, List, [], ◌∷◌, arith, nat_eq,
  string_eq, ◌==◌, lookup, insert, insert_all, if◌then◌else◌, lookup-insert, lookup-insert_all,
  or_else, select-mem, includes, Memᴰ, Bool-cases, inl, inr, of_some,
}
use smartcupleague.Action.{ok}
use smartcupleague.Oracle.Finalization.{unresolved}
use smartcupleague.Oracle.Finalization.Laws.{actions-classify}
use smartcupleague.Oracle.Server.State.{ChainMatch, finalized_result, BolaoMatch, BolaoContract}
use smartcupleague.Oracle.Server.Pending.{
  PendingMatchEntry, bolao_status_of, derive_pending_match, phase_map, is_pending, is_finalized,
  pending_entries, find_bolao, find_result, status_of,
}

-- No two of the oracle's entries have the same number.
abbrev pub AreDistinct : List ChainMatch → Type 0
AreDistinct [] = Unit
AreDistinct (r ∷ results) = (find_result r.match_id results ≡ none) × AreDistinct results

abbrev id_of : ChainMatch → ℕ
id_of e = e.match_id

find_result-same :
    (id j : ℕ) (results : List ChainMatch)
    → (id == j) ≡ true
    → find_result id results ≡ none
    → find_result j results ≡ none
find_result-same id j results same missing =
    subst (λ k. find_result k results ≡ none) ((nat_eq.same_iff id j).0 same) missing

-- The map of the entries has for a number the first entry with it, when no number comes twice.
lookup-find_result :
    (j : ℕ) (results : List ChainMatch)
    → AreDistinct results
    → lookup j (insert_all id_of results []) ≡ find_result j results
unfolding lookup insert_all find_result
lookup-find_result j [] q = refl
lookup-find_result j (r ∷ results) q =
    lookup-insert_all id_of j results (insert r.match_id r [])
    ∙ (ap (λ o. or_else o (lookup j (insert r.match_id r []))) (lookup-find_result j results q.1)
        ∙ (ap (or_else (find_result j results)) (lookup-insert r.match_id j r []) ∙ last))
  where
    last :
        or_else (find_result j results) (if r.match_id == j then some r else lookup j [])
        ≡ (if r.match_id == j then some r else find_result j results)
    last = elim (Bool-cases (r.match_id == j)) [
      | inl same ↦ rw (same, find_result-same r.match_id j results same q.0) refl
      | inr other ↦ rw other (ground arith)
    ]

find_bolao-mem :
    (id : ℕ) (matches : List BolaoMatch) (m : BolaoMatch)
    → find_bolao id matches ≡ some m
    → Memᴰ m matches × (m.match_id ≡ id)
unfolding find_bolao
find_bolao-mem id [] m found = absurd (ground arith)
find_bolao-mem id (n ∷ matches) m found = elim (Bool-cases (n.match_id == id)) [
  | inl yes_ ↦
      (let same : n ≡ m = of_some (rw (yes_, find_bolao) at found) in
        (
          Memᴰ.head (sym same),
          ap (λ (x : BolaoMatch). x.match_id) (sym same) ∙ (nat_eq.same_iff n.match_id id).0 yes_,
        ))
  | inr no_ ↦
      (let (in_rest, same) = find_bolao-mem id matches m (rw (no_, find_bolao) at found) in
        (Memᴰ.tail in_rest, same))
]

module _ (challenge_window_ms : ℕ) (state : BolaoContract) (results : List ChainMatch) where
  -- What /bolao/match-status answers of a match that has been played and is not finalized is among the
  -- entries of /bolao/pending-finalization, when no two of the oracle's entries have the same number.
  pub status_of-pending :
      (now match_id : ℕ) (m : BolaoMatch)
      → AreDistinct results
      → find_bolao match_id state.matches ≡ some m
      → m.kick_off < now
      → is_finalized m.result ≡ false
      → (entry : PendingMatchEntry) × (status_of challenge_window_ms match_id state results
          ≡ ok entry)
        × Memᴰ entry (pending_entries challenge_window_ms now state results)
  unfolding status_of pending_entries is_pending
  status_of-pending now match_id m distinct found played open_ =
      let (in_state, same) = find_bolao-mem match_id state.matches m found in
      (
        derive_pending_match challenge_window_ms m (find_result match_id results)
            (phase_map state.phases []),
        rw found refl,
        subst
            (λ o.
              Memᴰ (derive_pending_match challenge_window_ms m o (phase_map state.phases []))
                (pending_entries challenge_window_ms now state results))
            (lookup-find_result m.match_id results distinct
              ∙ ap (λ id. find_result id results) same)
            (Memᴰ.map
              (λ n.
                derive_pending_match challenge_window_ms n
                  (lookup n.match_id (insert_all id_of results [])) (phase_map state.phases []))
              (select-mem (is_pending now) state.matches in_state (rw open_ (ground arith)))),
      )

  -- A match that is finalized is shown as unresolved by /bolao/match-status, and the proposal of a
  -- result is offered for it.
  pub status_of-finalized :
      (match_id home away : ℕ) (m : BolaoMatch)
      → find_bolao match_id state.matches ≡ some m
      → m.result ≡ finalized_result home away
      → (entry : PendingMatchEntry) × (status_of challenge_window_ms match_id state results
          ≡ ok entry)
        × (entry.bolao_status ≡ unresolved)
        × (includes "propose-from-oracle" entry.available_actions ≡ true)
  unfolding status_of derive_pending_match bolao_status_of
  status_of-finalized match_id home away m found is =
      let entry =
        derive_pending_match challenge_window_ms m (find_result match_id results)
          (phase_map state.phases []) in
      let unresolved_status : bolao_status_of m.result ≡ unresolved = rw is refl in
      (
        entry,
        rw found refl,
        unresolved_status,
        (actions-classify (bolao_status_of m.result) entry.oracle_status
              entry.oracle_submissions).2.1
            unresolved_status,
      )
