-- ===== src/Oracle/Server/Feed/Batch.antt =====
-- Which matches a cycle of the feeder processes.
use smartcupleague.Prelude.{
  ℕ, ◌≤◌, ◌≡◌, some, true, List, arith, ltb, JsMap, nat_eq, lookup, Option-cases, inl, inr, ◌⊎◌,
  length, Memᴰ, select, sort_by, length-take, mem-take, mem-select, select-mem, mem-sort_by,
  IsSorted, IsSorted-sort_by, IsSorted-select, take-IsSorted,
}
use smartcupleague.Oracle.Server.State.{ServerMaps}
use smartcupleague.Oracle.Server.Feed.{kick_off_of, comes_before, has_started, to_process}

-- The comparison is that of the kick-offs.
comes_before-ltb :
    (now : ℕ) (t : ServerMaps) (a c : ℕ)
    → comes_before now t a c ≡ ltb (kick_off_of t a) (kick_off_of t c)
unfolding comes_before
comes_before-ltb now t a c = ground arith

-- The kick-off of the match is known, and it has passed.
abbrev pub StartedBy : JsMap ℕ ℕ → ℕ → ℕ → Type 0
StartedBy kick_offs now match_id =
    (kick_off : ℕ) × (lookup match_id kick_offs ≡ some kick_off) × (kick_off ≤ now)

abbrev pub Started : ℕ → ServerMaps → ℕ → Type 0
Started now t match_id = StartedBy t.kick_off_map now match_id

has_started-Started :
    (now : ℕ) (t : ServerMaps) (match_id : ℕ)
    → has_started now t match_id ≡ true
    → Started now t match_id
unfolding has_started
has_started-Started now t match_id h = elim (Option-cases (lookup match_id t.kick_off_map)) [
  | inl missing ↦ absurd (ground arith)
  | inr (kick_off, found) ↦ (kick_off, found, ground arith)
]

Started-has_started :
    (now : ℕ) (t : ServerMaps) (match_id : ℕ)
    → Started now t match_id
    → has_started now t match_id ≡ true
unfolding has_started
Started-has_started now t match_id (kick_off, found, passed) = ground arith

module _ (batch_size now : ℕ) (t : ServerMaps) (pending : List ℕ) where
  abbrev batch : List ℕ
  batch = to_process batch_size now t pending

  abbrev started : List ℕ
  started = select (has_started now t) (sort_by (comes_before now t) pending)

  pub batch-Started :
      (match_id : ℕ) → Memᴰ match_id batch → Memᴰ match_id pending × Started now t match_id
  unfolding to_process
  batch-Started match_id m =
      let (sorted, yes_) =
        mem-select (has_started now t) (sort_by (comes_before now t) pending)
          (mem-take batch_size started m) in
      ((mem-sort_by (comes_before now t) pending).0 sorted, has_started-Started now t match_id yes_)

  started-IsSorted : IsSorted (kick_off_of t) started
  started-IsSorted =
      IsSorted-select (kick_off_of t) (has_started now t) (sort_by (comes_before now t) pending)
        (IsSorted-sort_by (kick_off_of t) (comes_before now t) (comes_before-ltb now t) pending)

  -- A pending match that has started is among those that a cycle processes, or these are as many as a
  -- batch may have and none of them starts later; there are never more than that.
  pub to_process-first :
      (match_id : ℕ)
      → Memᴰ match_id pending
      → Started now t match_id
      → (length batch ≤ batch_size)
        × (Memᴰ match_id batch
            ⊎ ((length batch ≡ batch_size)
                × ((other : ℕ) → Memᴰ other batch → kick_off_of t other ≤ kick_off_of t match_id)))
  unfolding to_process
  to_process-first match_id m yes_ = (
    length-take batch_size started,
    take-IsSorted (kick_off_of t) batch_size started started-IsSorted (
        select-mem (has_started now t) (sort_by (comes_before now t) pending)
          ((mem-sort_by (comes_before now t) pending).1 m)
          (Started-has_started now t match_id yes_)),
  )
