-- ===== src/Oracle/Server/Finalize/Laws.antt =====
-- When the timers of a scan run out.
use mathlib.Core.List.Memᴰ
use smartcupleague.Prelude.{
  ℕ, ◌+◌, ◌-◌, ◌*◌, ◌≤◌, ◌≡◌, refl, sym, ap, ◌∙◌, subst, List, [], ◌∷◌, arith, leb, Memᴰ,
  Bool-cases, inl, inr, ◌⊎◌,
}
use smartcupleague.Oracle.Server.State.{
  BolaoMatch, MatchResult, unresolved_result, proposed_result, finalized_result,
}
use smartcupleague.Oracle.Server.Finalize.{
  Timer, Scan, scan_match, scan_matches, expired_timers, recovery_timers,
}

-- A match of the list has this number and a proposal, whose challenge window and the safety buffer
-- after it have passed at the given time.
abbrev pub WindowOver : (window buffer : ℕ) → List BolaoMatch → ℕ → ℕ → Type 0
WindowOver window buffer matches match_id time =
    (m : BolaoMatch) × (home : ℕ) × (away : ℕ) × (proposed_at : ℕ) × Memᴰ m matches
    × (m.match_id ≡ match_id)
    × (m.result ≡ proposed_result home away proposed_at)
    × (proposed_at + window + buffer ≤ time)

module _ (window buffer now : ℕ) where
  abbrev Over : List BolaoMatch → ℕ → ℕ → Type 0
  Over = WindowOver window buffer

  Over-later :
      (m : BolaoMatch) (matches : List BolaoMatch) (id time : ℕ)
      → Over matches id time
      → Over (m ∷ matches) id time
  Over-later m matches id time (m', home, away, at, in_rest, same, is, over) =
      (m', home, away, at, Memᴰ.tail in_rest, same, is, over)

  abbrev Sound : Scan → List BolaoMatch → Type 0
  Sound s matches =
      ((x : Timer) → Memᴰ x s.0 → Over matches x.0 (now + x.1))
      × ((id : ℕ) → Memᴰ id s.1 → Over matches id now)

  Sound-later :
      (m : BolaoMatch) (s : Scan) (matches : List BolaoMatch)
      → Sound s matches
      → Sound s (m ∷ matches)
  Sound-later m s matches (timers, expired) = (
    λ x h. Over-later m matches x.0 (now + x.1) (timers x h),
    λ id h. Over-later m matches id now (expired id h),
  )

  mem-either :
      {A : Type 0} (P : A → Type 0) (x : A) (xs : List A)
      → P x
      → ((y : A) → Memᴰ y xs → P y)
      → (y : A) → Memᴰ y (x ∷ xs)
      → P y
  mem-either P x xs p q y (Memᴰ.head e) = subst P (sym e) p
  mem-either P x xs p q y (Memᴰ.tail h) = q y h

  scan_match-Sound :
      (m : BolaoMatch) (matches : List BolaoMatch) (s : Scan) (r : MatchResult)
      → m.result ≡ r
      → Sound s matches
      → Sound (scan_match window buffer now m.match_id r s) (m ∷ matches)
  scan_match-Sound m matches s unresolved_result is sound = Sound-later m s matches sound
  scan_match-Sound m matches s (finalized_result home away) is sound = Sound-later m s matches sound
  scan_match-Sound m matches s (proposed_result home away at) is sound =
      let later = Sound-later m s matches sound in
      elim (Bool-cases (leb (at + window + buffer) now)) [
        | inl expired ↦ rw expired (
          later.0,
          mem-either (λ id. Over (m ∷ matches) id now) m.match_id s.1
              (m, home, away, at, Memᴰ.head refl, refl, is, ground arith) later.1,
        )
        | inr open_ ↦ rw open_ (
          mem-either (λ (x : Timer). Over (m ∷ matches) x.0 (now + x.1))
              (m.match_id, at + window + buffer - now) s.0
              (m, home, away, at, Memᴰ.head refl, refl, is, ground arith) later.0,
          later.1,
        )
      ]

  scan_matches-Sound :
      (matches : List BolaoMatch) → Sound (scan_matches window buffer now matches) matches
  unfolding scan_matches
  scan_matches-Sound [] = (λ x h. elim h [ ], λ id h. elim h [ ])
  scan_matches-Sound (m ∷ matches) =
      scan_match-Sound m matches (scan_matches window buffer now matches) m.result refl
        (scan_matches-Sound matches)

  mem-expired_timers :
      (i : ℕ) (ids : List ℕ) (x : Timer) → Memᴰ x (expired_timers i ids) → Memᴰ (x.0) ids
  unfolding expired_timers
  mem-expired_timers i [] x h = elim h [ ]
  mem-expired_timers i (id ∷ ids) x (Memᴰ.head e) = Memᴰ.head (ap (λ (y : Timer). y.0) e)
  mem-expired_timers i (id ∷ ids) x (Memᴰ.tail h) = Memᴰ.tail (mem-expired_timers (i + 1) ids x h)

  -- A timer that a scan sets is for a match that has a proposal, and it does not run out before the
  -- proposal's challenge window and the safety buffer are over.
  pub recovery_timers-WindowOver :
      (matches : List BolaoMatch) (match_id delay : ℕ)
      → Memᴰ (match_id, delay) (recovery_timers window buffer now matches)
      → WindowOver window buffer matches match_id (now + delay)
  unfolding recovery_timers
  recovery_timers-WindowOver matches match_id delay h =
      let scan = scan_matches window buffer now matches in
      let sound = scan_matches-Sound matches in
      elim (Memᴰ.append_cases scan.0 h) [
        | inl set ↦ sound.0 (match_id, delay) set
        | inr queued ↦
            (let (m, home, away, at, in_list, same, is, over) =
                sound.1 match_id (mem-expired_timers 0 scan.1 (match_id, delay) queued) in
              (m, home, away, at, in_list, same, is, omega (arith, over)))
      ]

  abbrev due_of : ℕ → ℕ
  due_of proposed_at = proposed_at + window + buffer

  -- The timers and the queue of a scan have the match, which is queued only when it is due.
  abbrev Scanned : ℕ → ℕ → Scan → Type 0
  Scanned id due s = Memᴰ (id, due - now) s.0 × (now ≤ due) ⊎ Memᴰ id s.1 × (due ≤ now)

  Scanned-behind :
      (id due other : ℕ) (r : MatchResult) (s : Scan)
      → Scanned id due s
      → Scanned id due (scan_match window buffer now other r s)
  Scanned-behind id due other unresolved_result s h = h
  Scanned-behind id due other (finalized_result home away) s h = h
  Scanned-behind id due other (proposed_result home away at) s h =
      elim (Bool-cases (leb (due_of at) now)) [
        | inl expired ↦
            rw expired (elim h [ inl (t, l) ↦ inl (t, l) | inr (q, l) ↦ inr (Memᴰ.tail q, l) ])
        | inr open_ ↦
            rw open_ (elim h [ inl (t, l) ↦ inl (Memᴰ.tail t, l) | inr (q, l) ↦ inr (q, l) ])
      ]

  Scanned-here :
      (id at home away : ℕ) (s : Scan)
      → Scanned id (due_of at) (scan_match window buffer now id (proposed_result home away at) s)
  Scanned-here id at home away s = elim (Bool-cases (leb (due_of at) now)) [
    | inl expired ↦ rw expired (inr (Memᴰ.head refl, ground arith))
    | inr open_ ↦ rw open_ (inl (Memᴰ.head refl, ground arith))
  ]

  scan_matches-Scanned :
      (matches : List BolaoMatch) (m : BolaoMatch) (home away at : ℕ)
      → Memᴰ m matches
      → m.result ≡ proposed_result home away at
      → Scanned m.match_id (due_of at) (scan_matches window buffer now matches)
  unfolding scan_matches
  scan_matches-Scanned [] m home away at h is = elim h [ ]
  scan_matches-Scanned (n ∷ matches) m home away at (Memᴰ.head e) is =
      subst (λ id. Scanned id (due_of at) (scan_matches window buffer now (n ∷ matches)))
        (sym (ap (λ (x : BolaoMatch). x.match_id) e))
        (rw (sym (ap (λ (x : BolaoMatch). x.result) e) ∙ is)
          (Scanned-here n.match_id at home away (scan_matches window buffer now matches)))
  scan_matches-Scanned (n ∷ matches) m home away at (Memᴰ.tail h) is =
      Scanned-behind m.match_id (due_of at) n.match_id n.result
        (scan_matches window buffer now matches) (scan_matches-Scanned matches m home away at h is)

  expired_timers-each :
      (i : ℕ) (ids : List ℕ) (id : ℕ)
      → Memᴰ id ids
      → (delay : ℕ) × Memᴰ (id, delay) (expired_timers i ids)
  unfolding expired_timers
  expired_timers-each i [] id h = elim h [ ]
  expired_timers-each i (j ∷ ids) id (Memᴰ.head e) =
      (i * 3_000, Memᴰ.head (ap (λ k. (k, i * 3_000)) e))
  expired_timers-each i (j ∷ ids) id (Memᴰ.tail h) =
      let (delay, found) = expired_timers-each (i + 1) ids id h in (delay, Memᴰ.tail found)

  -- Every match with a proposal gets a timer from a scan, which runs out exactly when the challenge
  -- window and the safety buffer are over, unless they were over when the scan was made.
  pub recovery_timers-each :
      (matches : List BolaoMatch) (m : BolaoMatch) (home away proposed_at : ℕ)
      → Memᴰ m matches
      → m.result ≡ proposed_result home away proposed_at
      → (delay : ℕ) × Memᴰ (m.match_id, delay) (recovery_timers window buffer now matches)
        × ((now + delay ≡ proposed_at + window + buffer) ⊎ (proposed_at + window + buffer ≤ now))
  unfolding recovery_timers
  recovery_timers-each matches m home away at h is =
      let scan = scan_matches window buffer now matches in
      elim (scan_matches-Scanned matches m home away at h is) [
        | inl (set, open_) ↦ (
          due_of at - now,
          Memᴰ.append_left (expired_timers 0 scan.1) set,
          inl (omega (arith, open_)),
        )
        | inr (queued, over) ↦
            (let (delay, found) = expired_timers-each 0 scan.1 m.match_id queued in
              (delay, Memᴰ.append_right scan.0 found, inr over))
      ]
