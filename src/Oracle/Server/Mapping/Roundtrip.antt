-- ===== src/Oracle/Server/Mapping/Roundtrip.antt =====
-- The mapping that is saved and read back.
use smartcupleague.Prelude.{ℕ, ◌≡◌, refl, sym, ◌∙◌, some, [], arith, nat_eq, lookup, or_else}
use smartcupleague.Action.{ok}
use smartcupleague.Oracle.Server.State.{ServerMaps, Outside, Entries}
use smartcupleague.Oracle.Server.Mapping.{as_object, add_entries, clear_mapping}
use smartcupleague.Oracle.Server.Mapping.Objects.{
  IsMap, IsAscending-put_all, IsAscending-IsMap, lookup-as_object, lookup-add_entries,
}
use smartcupleague.Oracle.Server.Mapping.Pairs.{
  IsPaired, IsInjective, IsNew, add_entries-IsPaired, IsPaired-same,
}
use smartcupleague.Oracle.Server.Mapping.Files.{save_match_mapping, load_match_mapping}

-- Both maps answer alike.
abbrev pub SameMapping : ServerMaps → ServerMaps → Type 0
SameMapping t t' =
    ((k : ℕ) → lookup k t'.match_id_to_sports_id ≡ lookup k t.match_id_to_sports_id)
    × ((v : ℕ) → lookup v t'.sports_id_to_match_id ≡ lookup v t.sports_id_to_match_id)

module _ (t : ServerMaps) (t' : ServerMaps) (is_map : IsMap t.match_id_to_sports_id)
    (paired : IsPaired t) where
  abbrev saved : Entries
  saved = as_object t.match_id_to_sports_id

  saved-IsMap : IsMap saved
  saved-IsMap = IsAscending-IsMap saved (IsAscending-put_all t.match_id_to_sports_id [] tt)

  saved-IsInjective : IsInjective saved
  saved-IsInjective i j v i_found j_found =
      let i_paired =
        (paired i v).0 (sym (lookup-as_object i t.match_id_to_sports_id is_map) ∙ i_found) in
      let j_paired =
        (paired j v).0 (sym (lookup-as_object j t.match_id_to_sports_id is_map) ∙ j_found) in
      ground arith

  cleared-IsPaired : IsPaired (clear_mapping t')
  unfolding lookup
  cleared-IsPaired k v = ground arith

  cleared-IsNew : IsNew saved (clear_mapping t')
  unfolding lookup
  cleared-IsNew k v found = (refl, refl)

  or_else-nil : (k : ℕ) → or_else (lookup k saved) (lookup k []) ≡ lookup k saved
  unfolding lookup
  or_else-nil k = ground arith

  loaded-same : SameMapping t (add_entries saved (clear_mapping t'))
  loaded-same =
      let forward : (k : ℕ)
          → lookup k (add_entries saved (clear_mapping t')).match_id_to_sports_id
            ≡ lookup k t.match_id_to_sports_id =
        λ k.
          lookup-add_entries k saved (clear_mapping t') saved-IsMap
          ∙ (or_else-nil k ∙ lookup-as_object k t.match_id_to_sports_id is_map) in
      (
        forward,
        IsPaired-same t (add_entries saved (clear_mapping t')) paired
            (add_entries-IsPaired saved (clear_mapping t') saved-IsMap saved-IsInjective
              cleared-IsNew cleared-IsPaired)
            forward,
      )

-- A file that was written reads as what was written.
abbrev pub ReadsBack : Outside → Type 0
ReadsBack b =
    (entries : Entries) (w w1 : b.World)
    → b.write_mapping entries w ≡ (ok tt, w1)
    → (w2 : b.World) × (b.read_mapping w1 ≡ (ok (some entries), w2))

-- Maps that are inverse to each other and are saved to a file that reads back are the ones that a
-- restarted server, with whatever it has in its memory, loads: every number has the match that it
-- had, and every match its number.
pub load-save :
    (b : Outside) (t t' : ServerMaps) (w w1 : b.World)
    → ReadsBack b
    → IsMap t.match_id_to_sports_id
    → IsPaired t
    → b.write_mapping (as_object t.match_id_to_sports_id) w ≡ (ok tt, w1)
    → (w2 : b.World) × (saved_ : ServerMaps) × (loaded : ServerMaps) × (save_match_mapping b (t, w)
        ≡ (ok tt, (saved_, w1)))
      × (load_match_mapping b (t', w1) ≡ (ok tt, (loaded, w2)))
      × SameMapping t loaded
unfolding save_match_mapping load_match_mapping
load-save b t t' w w1 reads_back is_map paired written =
    let (w2, read_) = reads_back (as_object t.match_id_to_sports_id) w w1 written in
    (
      w2,
      t,
      add_entries (as_object t.match_id_to_sports_id) (clear_mapping t'),
      rw written refl,
      rw read_ refl,
      loaded-same t t' is_map paired,
    )
