-- ===== src/Entitlements/Grace.antt =====
-- The grace period of packages/shared/src/entitlements/derive.ts (`nextGrace`) and what it grants
-- (`subscriptionValidUntil`).
use whiteboard_ai.Base.{
  ℕ, ◌+◌, ◌*◌, ◌≡◌, refl, ◌∙◌, true, false, ◌||◌, Option, none, some, List, [], ◌∷◌, All, arith,
}
use whiteboard_ai.Entitlements.{
  SubscriptionStatus, SubscriptionState, until, is_failed, is_ended, is_paid, next_grace,
  subscription_valid_until,
}

-- The grace after a history of status changes, each with its instant.
unfoldable pub grace_after : Option ℕ → List (SubscriptionStatus × ℕ) → Option ℕ
grace_after grace [] = grace
grace_after grace ((status, now) ∷ events) = grace_after (next_grace grace status now) events

next_grace_keeps :
    (t : ℕ) (s : SubscriptionStatus) (now : ℕ)
    → is_paid s ≡ false
    → next_grace (some t) s now ≡ some t
unfolding next_grace
next_grace_keeps t s now h = ground arith

grace_after_keeps :
    (t : ℕ) (events : List (SubscriptionStatus × ℕ))
    → All (λ e. is_paid e.0 ≡ false) events
    → grace_after (some t) events ≡ some t
unfolding grace_after
grace_after_keeps t [] h = refl
grace_after_keeps t ((s, now) ∷ events) h =
    rw (next_grace_keeps t s now h.0) (grace_after_keeps t events h.1)

next_grace_starts :
    (s : SubscriptionStatus) (now : ℕ)
    → is_failed s ≡ true
    → next_grace none s now ≡ some (now + 604800000)
unfolding next_grace
next_grace_starts s now h = ground arith

valid_in_grace :
    (sub : SubscriptionState) (t : ℕ)
    → (is_failed sub.status || is_ended sub.status) ≡ true
    → sub.grace_until ≡ some t
    → subscription_valid_until sub ≡ until t
unfolding subscription_valid_until
valid_in_grace sub t h g = ground arith

-- A payment fails at `first` when there was no grace. As long as no later status is a paid one, a
-- subscription that failed or ended grants its plan until seven days after `first`, whatever
-- statuses came between, however late, and whatever its paid period is.
pub grace_runs_from_first_failure :
    (s : SubscriptionStatus) (first : ℕ) (events : List (SubscriptionStatus × ℕ))
    (sub : SubscriptionState)
    → is_failed s ≡ true
    → All (λ e. is_paid e.0 ≡ false) events
    → (is_failed sub.status || is_ended sub.status) ≡ true
    → sub.grace_until ≡ grace_after none ((s, first) ∷ events)
    → subscription_valid_until sub ≡ until (first + 7 * 24 * 60 * 60 * 1000)
unfolding grace_after
grace_runs_from_first_failure s first events sub failed unpaid status grace =
    valid_in_grace sub (first + 604800000) status (grace ∙ started)
  where
    started : grace_after none ((s, first) ∷ events) ≡ some (first + 604800000)
    started =
        rw (next_grace_starts s first failed) (grace_after_keeps (first + 604800000) events unpaid)
