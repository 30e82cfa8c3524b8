-- ===== src/UseCases/Trials/Clears.antt =====
-- What the expiry of the trials leaves.
use mathlib.Core.List.{append-nil, append_assoc}
use native.Mathlib.Nat.{add-zero, zero-add}
use venue_backend.Common.{
  ℕ, suc, ◌+◌, ◌==◌, ◌≡◌, ◌≢◌, refl, sym, ap, ◌∙◌, true, false, List, [], ◌∷◌, ◌++◌, arith, length,
  All, select, find, is_some, Bool-cases, inl, inr, ◌⊎◌, map, if◌then◌else◌, AreKeyed, overwrites,
  overwrites-select, map_agree,
}
use venue_backend.Subscriptions.{OwnerSubscription}
use venue_backend.Store.{
  World, done, pure, ◌>>=◌, notify, update_subscription, revise, is_expired_trial,
  list_trialing_with_expiry_before,
}
use venue_backend.Store.Equations.{bind_done}
use venue_backend.UseCases.Trials.{save_inactive, ended, end_all, expire_trials}
use venue_backend.UseCases.Trials.Ended.{
  IsSub, trial_notices, IsEnded, ended_lem, has_id, has_id-revise, IsSub-has_id, revised, expiry,
  columns_of, ended-expiry,
}

module _ (days now : ℕ) where
  -- The rows after the loop.
  abbrev pub ended_rows : List OwnerSubscription → List OwnerSubscription → List OwnerSubscription
  ended_rows [] rows = rows
  ended_rows (s ∷ l) rows = ended_rows l (revise (ended days now s) rows)

  ended_rows_cases :
      (l rows : List OwnerSubscription) (x : OwnerSubscription)
      → All (λ s. is_expired_trial now s ≡ true) l
      → IsSub x (ended_rows l rows)
      → IsEnded x ⊎ (IsSub x rows × All (λ s. x.id ≢ s.id) l)
  ended_rows_cases [] rows x h m = inr (m, tt)
  ended_rows_cases (s ∷ l) rows x h m =
      let (same_id, same_owner, is_ended) = ended_lem days now s h.0 in
      elim (ended_rows_cases l (revise (ended days now s) rows) x h.1 m) [
        | inl e ↦ inl e
        | inr (old, apart) ↦ elim (revised (ended days now s) rows x is_ended old) [
          | inl e ↦ inl e
          | inr (row, ne) ↦ inr (row, (λ e. ne (e ∙ sym same_id), apart))
        ]
      ]

  -- A subscription that the loop can end.
  abbrev CanEnd : List OwnerSubscription → OwnerSubscription → Type 0
  CanEnd rows s = (is_expired_trial now s ≡ true) × (has_id s.id rows ≡ true)

  CanEnd-revise :
      (s : OwnerSubscription) (rows l : List OwnerSubscription)
      → All (CanEnd rows) l
      → All (CanEnd (revise s rows)) l
  CanEnd-revise s rows [] h = tt
  CanEnd-revise s rows (c ∷ l) h =
      ((h.0.0, has_id-revise c.id s rows ∙ h.0.1), CanEnd-revise s rows l h.1)

  save_inactive_passes :
      (s : OwnerSubscription) (w : World)
      → CanEnd w.subscriptions s
      → save_inactive (ended days now s) w
        ≡ done 1 (record w {
          subscriptions = revise (ended days now s) w.subscriptions;
          notices = w.notices ++ trial_notices (s ∷ []);
        })
  unfolding save_inactive ◌>>=◌ notify update_subscription has_id
  save_inactive_passes s w h =
      let (same_id, same_owner, is_ended) = ended_lem days now s h.0 in
      let row : is_some (find (λ y. y.id == (ended days now s).id) w.subscriptions) ≡ true =
        rw same_id h.1 in
      rw (row, same_owner) refl

  end_all_settles :
      (count : ℕ) (l : List OwnerSubscription) (w : World)
      → All (CanEnd w.subscriptions) l
      → end_all days now count l w
        ≡ done (count + length l) (record w {
          subscriptions = ended_rows l w.subscriptions;
          notices = w.notices ++ trial_notices l;
        })
  unfolding end_all pure
  end_all_settles count [] w h = rw (append-nil, add-zero) refl
  end_all_settles count (s ∷ l) w h =
      bind_done _ _ w 1 _ (save_inactive_passes s w h.0)
      ∙ end_all_settles (count + 1) l _ (CanEnd-revise (ended days now s) w.subscriptions l h.1)
      ∙ rw (append_assoc, one_more count (length l)) refl
    where
      one_more : (count n : ℕ) → count + 1 + n ≡ count + suc n
      one_more count n = omega arith

  select-CanEnd :
      (rows l : List OwnerSubscription)
      → ((s : OwnerSubscription) → IsSub s l → IsSub s rows)
      → All (CanEnd rows) (select (is_expired_trial now) l)
  select-CanEnd rows [] sub = tt
  select-CanEnd rows (y ∷ l) sub =
      let rest = select-CanEnd rows l (λ s m. sub s (inr m)) in
      elim (Bool-cases (is_expired_trial now y)) [
        | inl kept ↦ rw kept ((kept, IsSub-has_id rows y (sub y (inl refl))), rest)
        | inr dropped ↦ rw dropped rest
      ]

  weaken :
      (rows l : List OwnerSubscription)
      → All (CanEnd rows) l
      → All (λ s. is_expired_trial now s ≡ true) l
  weaken rows [] h = tt
  weaken rows (s ∷ l) h = (h.0.0, weaken rows l h.1)

  selected :
      (rows : List OwnerSubscription) (x : OwnerSubscription)
      → IsSub x rows
      → is_expired_trial now x ≡ true
      → IsSub x (select (is_expired_trial now) rows)
  selected [] x m h = m
  selected (y ∷ rows) x (inl e) h =
      let kept : is_expired_trial now y ≡ true = ap (is_expired_trial now) e ∙ h in rw kept (inl e)
  selected (y ∷ rows) x (inr m) h = elim (Bool-cases (is_expired_trial now y)) [
    | inl kept ↦ rw kept (inr (selected rows x m h))
    | inr dropped ↦ rw dropped (selected rows x m h)
  ]

  not_member :
      (l : List OwnerSubscription) (x : OwnerSubscription)
      → All (λ s. x.id ≢ s.id) l
      → IsSub x l
      → ⊥
  not_member [] x h m = m
  not_member (s ∷ l) x h (inl e) = h.0 (ap (λ t. t.id) (sym e))
  not_member (s ∷ l) x h (inr m) = not_member l x h.1 m

  ended_rows-overwrites :
      (l rows : List OwnerSubscription)
      → All (λ s. is_expired_trial now s ≡ true) l
      → ended_rows l rows ≡ overwrites (λ s. s.id) (λ s y. columns_of (ended days now s) y) l rows
  ended_rows-overwrites [] rows h = refl
  ended_rows-overwrites (s ∷ l) rows h =
      ended_rows-overwrites l _ h.1
      ∙ ap
          (λ i.
            overwrites (λ s. s.id) (λ s y. columns_of (ended days now s) y) l
              (map (λ y. if y.id == i then columns_of (ended days now s) y else y) rows))
          (ended_lem days now s h.0).0

  expires_or_stays :
      (s : OwnerSubscription)
      → (if is_expired_trial now s then columns_of (ended days now s) s else s)
        ≡ (if is_expired_trial now s then expiry now s else s)
  expires_or_stays s = elim (Bool-cases (is_expired_trial now s)) [
    | inl hit ↦ rw hit (ended-expiry days now s hit)
    | inr miss ↦ rw miss refl
  ]

  ended_rows-map :
      (rows : List OwnerSubscription)
      → All (λ s. is_expired_trial now s ≡ true) (select (is_expired_trial now) rows)
      → AreKeyed (λ s. s.id) rows
      → ended_rows (select (is_expired_trial now) rows) rows
        ≡ map (λ s. if is_expired_trial now s then expiry now s else s) rows
  ended_rows-map rows h keyed =
      ended_rows-overwrites (select (is_expired_trial now) rows) rows h
      ∙ overwrites-select (λ s. s.id) (λ s y. columns_of (ended days now s) y) (λ s. refl)
          (is_expired_trial now) rows keyed
      ∙ map_agree _ _ rows (λ s m. expires_or_stays s)

  -- Where the ids of the subscriptions are distinct, the expiry of the trials returns: it counts every
  -- trial whose end has passed; the table is the old one with each of these rows, and no other, made
  -- INACTIVE since now, with no end of a trial and its other columns as they were; no trial whose end
  -- has passed is left, and the owners of the trials that were counted are notified.
  pub expire_trials_clears :
      (w : World)
      → AreKeyed (λ s. s.id) w.subscriptions
      → let expired = list_trialing_with_expiry_before now w in
        (w' : World) × (expire_trials days now w ≡ done (length expired) w')
        × (w'.subscriptions
            ≡ map (λ s. if is_expired_trial now s then expiry now s else s) w.subscriptions)
        × ((x : OwnerSubscription) → IsSub x w'.subscriptions → is_expired_trial now x ≡ false)
        × (w'.notices ≡ w.notices ++ trial_notices expired)
  unfolding expire_trials ◌>>=◌
  expire_trials_clears w keyed =
      let expired = list_trialing_with_expiry_before now w in
      let can = select-CanEnd w.subscriptions w.subscriptions (λ s m. m) in
      let after : World = record w {
        subscriptions = ended_rows expired w.subscriptions;
        notices = w.notices ++ trial_notices expired;
      } in
      (
        after,
        end_all_settles 0 expired w can ∙ ap (λ n. done n after) (zero-add (length expired)),
        ended_rows-map w.subscriptions (weaken w.subscriptions _ can) keyed,
        left w.subscriptions can,
        refl,
      )
    where
      left :
          (rows : List OwnerSubscription)
          → All (CanEnd rows) (select (is_expired_trial now) rows)
          → (x : OwnerSubscription) → IsSub x (ended_rows (select (is_expired_trial now) rows) rows)
          → is_expired_trial now x ≡ false
      left rows can x m =
          elim (ended_rows_cases (select (is_expired_trial now) rows) rows x (weaken rows _ can)
            m) [
              | inl e ↦ ground (arith, e.0)
              | inr (old, apart) ↦ elim (Bool-cases (is_expired_trial now x)) [
                | inr miss ↦ miss
                | inl hit ↦ absurd (not_member _ x apart (selected rows x old hit))
              ]
            ]
