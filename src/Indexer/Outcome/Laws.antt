-- ===== src/Indexer/Outcome/Laws.antt =====
-- The spelling of a penalty winner.
use Prim.Native.Char.{Char}
use text.Mathlib.TextLemmas.{cons≢nil}
use Prim.Native.String.{String as Text}
use smartcupleague.Prelude.{
  ℕ, ◌≡◌, refl, sym, ◌∙◌, eq_of_ne, String, some, false, ◌==◌, string_eq, to_lower_case,
  to_lower_case_idem,
}
use smartcupleague.Indexer.Outcome.{normalize_penalty_winner, score_outcome}

not_empty : (c : Char) (s : String) → (Text.◌∷◌ c s == "") ≡ false
not_empty c s = eq_of_ne (Text.◌∷◌ c s) "" (λ e. cons≢nil e)

is_empty-to_lower_case : (v : String) → (to_lower_case v == "") ≡ (v == "")
unfolding to_lower_case
is_empty-to_lower_case Text.[] = refl
is_empty-to_lower_case (Text.◌∷◌ c s) = not_empty _ _ ∙ sym (not_empty c s)

-- The spelling of the penalty winner does not matter to the outcome.
pub score_outcome-spelling :
    (h a : ℕ) (v : String) → score_outcome h a (some (to_lower_case v)) ≡ score_outcome h a (some v)
unfolding score_outcome normalize_penalty_winner
score_outcome-spelling h a v = rw (is_empty-to_lower_case, to_lower_case_idem)
