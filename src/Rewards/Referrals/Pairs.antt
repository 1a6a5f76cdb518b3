-- ===== src/Rewards/Referrals/Pairs.antt =====
-- Who invited whom: one referrer for each friend, who is another wallet.
use smartcupleague.Prelude.{
  ◌≤◌, ◌≡◌, sym, ap, subst, ◌∙◌, inl, inr, String, Option, none, some, Bool, false, List, [], ◌∷◌,
  ◌++◌, arith, length, select, string_eq, ◌==◌, eq_iff, Bool-cases,
}
use smartcupleague.Action.{bind-elim, pure, throw, conflict}
use smartcupleague.Rewards.Backend.{Backend, Config, Referral}
use smartcupleague.Rewards.Service.{RegisterReferral, actor_id_of}
use smartcupleague.Rewards.Referrals.{
  new_referral, accept_referral, register_pair, register_referral,
}
use smartcupleague.Rewards.XService.{find_first}
use smartcupleague.Rewards.View.{View, Laws}
use smartcupleague.Rewards.View.Counts.{count-append, count_none}
use smartcupleague.Rewards.View.Silent.{view_kept, Keeps, Keeps-bind, Keeps-if}

abbrev pub of_friend : (friend : String) → Referral → Bool
of_friend friend row = row.friend_actor_id == friend

abbrev pub is_self : Referral → Bool
is_self row = row.referrer_actor_id == row.friend_actor_id

-- A friend has one referral at most, and none is of a wallet to itself.
abbrev pub OneReferrer : List Referral → Type 0
OneReferrer rows =
    (length (select is_self rows) ≡ 0)
    × ((friend : String) → length (select (of_friend friend) rows) ≤ 1)

OneReferrer-append :
    (rows : List Referral) (row : Referral)
    → OneReferrer rows
    → is_self row ≡ false
    → length (select (of_friend row.friend_actor_id) rows) ≡ 0
    → OneReferrer (rows ++ row ∷ [])
OneReferrer-append rows row (nobody, single) other fresh = (
  rw (count-append is_self rows row, other) (omega (arith, nobody)),
  λ friend.
      rw (count-append (of_friend friend) rows row) (elim (Bool-cases (of_friend friend row)) [
        | inl e ↦
            (let none_yet = rw ((eq_iff row.friend_actor_id friend).0 e) at fresh in
              rw e (omega (arith, none_yet)))
        | inr e ↦ rw e (omega (arith, single friend))
      ]),
)

module _ (b : Backend) (config : Config) (laws : Laws b) where
  open laws use {view}

  abbrev pub referrals_of : b.World → List Referral
  referrals_of w = (view w).referrals

  accept_referral-OneReferrer :
      (body : RegisterReferral) (referrer friend : String) (existing : Option Referral)
      → (referrer == friend) ≡ false
      → (w : b.World) → existing ≡ find_first (of_friend friend) (referrals_of w)
      → OneReferrer (referrals_of w)
      → OneReferrer (referrals_of ((accept_referral b config body referrer friend existing w).1))
  unfolding accept_referral
  accept_referral-OneReferrer body referrer friend (some row) other w found kept =
      Keeps-if b referrals_of OneReferrer (row.referrer_actor_id == referrer) (pure row)
        (throw (conflict "friend already accepted another referral")) (λ w' h. h) (λ w' h. h) w kept
  accept_referral-OneReferrer body referrer friend none other w found kept =
      let row = new_referral b config body referrer friend (b.date_now w) in
      let added =
        OneReferrer-append (referrals_of w) row kept other
          (count_none (of_friend friend) (referrals_of w) (sym found)) in
      bind-elim (λ x. OneReferrer (referrals_of (x.1))) (b.repositories.insert_referral row)
        (λ _. pure row) w
        (λ a w' ran.
          subst (λ (v : View). OneReferrer v.referrals) (sym (laws.inserted_referral row w w' ran))
            added)
        (λ e w' ran. elim (laws.inserts_referral row w) [
          | inl same ↦
              subst (λ (v : View). OneReferrer v.referrals) (sym same ∙ ap (λ x. view (x.1)) ran)
                kept
          | inr more ↦
              subst (λ (v : View). OneReferrer v.referrals) (sym more ∙ ap (λ x. view (x.1)) ran)
                added
        ])

  register_pair-OneReferrer :
      (body : RegisterReferral) (referrer friend : String)
      → Keeps b referrals_of OneReferrer (register_pair b config body referrer friend)
  unfolding register_pair
  register_pair-OneReferrer body referrer friend w kept = elim (Bool-cases (referrer == friend)) [
    | inl e ↦ rw e kept
    | inr e ↦
        (let find = b.repositories.find_referral (of_friend friend) in
          let quiet = laws.finds_referral (of_friend friend) in
          rw e (
            bind-elim (λ x. OneReferrer (referrals_of (x.1))) find
              (accept_referral b config body referrer friend) w
              (λ existing w' ran.
                let same = view_kept b view find w w' quiet ran in
                accept_referral-OneReferrer body referrer friend existing e w'
                  (laws.found_referral (of_friend friend) w w' existing ran
                    ∙ ap (λ (v : View). find_first (of_friend friend) v.referrals) (sym same))
                  (subst (λ (v : View). OneReferrer v.referrals) (sym same) kept))
              (λ err_ w' ran.
                subst (λ (v : View). OneReferrer v.referrals)
                  (sym (view_kept b view find w w' quiet ran)) kept)))
  ]

  pub register_referral-OneReferrer :
      (body : RegisterReferral) → Keeps b referrals_of OneReferrer (register_referral b config body)
  unfolding register_referral
  register_referral-OneReferrer body =
      Keeps-bind b referrals_of OneReferrer (actor_id_of b body.referrer) _ (λ w h. h)
        (λ referrer.
          Keeps-bind b referrals_of OneReferrer (actor_id_of b body.friend)
            (register_pair b config body referrer) (λ w h. h)
            (register_pair-OneReferrer body referrer))
