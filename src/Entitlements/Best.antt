-- ===== src/Entitlements/Best.antt =====
-- `effectiveEntitlement` of packages/shared/src/entitlements/derive.ts picks the best valid grant.
use whiteboard_ai.Base.{
  ℕ, ◌≤◌, ◌≡◌, refl, ap, ◌⊎◌, inl, inr, ◌∙◌, sym, true, false, none, some, List, [], ◌∷◌, Memᴰ, All,
  All-mem, arith, Bool-cases,
}
use mathlib.Core.Bool.{false≢true}
use whiteboard_ai.Entitlements.{
  EntitlementGrant, plan_rank, is_grant_active, outranks, prefer, choose, effective_entitlement,
  free_entitlement, entitlement_of,
}

outranks_irrefl : (g : EntitlementGrant) → outranks g g ≡ false
unfolding outranks
outranks_irrefl g = ground arith

-- What does not outrank `b` does not outrank a grant that does.
outranks_trans :
    (h b g : EntitlementGrant) → outranks h b ≡ false → outranks g b ≡ true → outranks h g ≡ false
unfolding outranks
outranks_trans h b g p q = ground arith

outranks_asym : (g b : EntitlementGrant) → outranks g b ≡ true → outranks b g ≡ false
unfolding outranks
outranks_asym g b p = ground arith

outranks_total :
    (h b g : EntitlementGrant) → outranks h b ≡ false → outranks b g ≡ false → outranks h g ≡ false
unfolding outranks
outranks_total h b g p q = ground arith

-- No grant of the list that counts at `now` outranks `g`.
abbrev pub IsUnbeaten : ℕ → EntitlementGrant → List EntitlementGrant → Type 0
IsUnbeaten now g = All (λ h. is_grant_active h now ≡ true → outranks h g ≡ false)

-- `g` is in the list and counts at `now`.
abbrev pub IsHeld : ℕ → EntitlementGrant → List EntitlementGrant → Type 0
IsHeld now g gs = Memᴰ g gs × (is_grant_active g now ≡ true)

record Chosen (now : ℕ) (b : EntitlementGrant) (gs : List EntitlementGrant) : Type 0 where
  winner : EntitlementGrant
  chosen : choose (some b) gs now ≡ some winner
  listed : (winner ≡ b) ⊎ IsHeld now winner gs
  unbeaten : IsUnbeaten now winner gs
  start : outranks b winner ≡ false

choose_from : (now : ℕ) (b : EntitlementGrant) (gs : List EntitlementGrant) → Chosen now b gs
unfolding choose
choose_from now b [] = record {
  winner = b;
  chosen = refl;
  listed = inl refl;
  unbeaten = tt;
  start = outranks_irrefl b;
}
choose_from now b (x ∷ gs) = elim (Bool-cases (is_grant_active x now)) [
  | inr idle ↦
      let c = choose_from now b gs in
      record {
        winner = c.winner;
        chosen = rw idle c.chosen;
        listed = later c.listed;
        unbeaten = ((λ act. cc), c.unbeaten);
        start = c.start;
      }
  | inl act ↦ elim (Bool-cases (outranks x b)) [
    | inl better ↦
        let c = choose_from now x gs in
        record {
          winner = c.winner;
          chosen = rw (act, better) c.chosen;
          listed = from_head act c.listed;
          unbeaten = ((λ _. c.start), c.unbeaten);
          start = outranks_total b x c.winner (outranks_asym x b better) c.start;
        }
    | inr worse ↦
        let c = choose_from now b gs in
        record {
          winner = c.winner;
          chosen = rw (act, worse) c.chosen;
          listed = later c.listed;
          unbeaten = ((λ _. outranks_total x b c.winner worse c.start), c.unbeaten);
          start = c.start;
        }
  ]
]
  where
    later : {g : EntitlementGrant} → (g ≡ b) ⊎ IsHeld now g gs → (g ≡ b) ⊎ IsHeld now g (x ∷ gs)
    later (inl e) = inl e
    later (inr (m, a)) = inr (Memᴰ.tail m, a)

    from_head :
        {g : EntitlementGrant}
        → is_grant_active x now ≡ true
        → (g ≡ x) ⊎ IsHeld now g gs
        → (g ≡ b) ⊎ IsHeld now g (x ∷ gs)
    from_head act (inl e) = inr (Memᴰ.head e, ap (λ h. is_grant_active h now) e ∙ act)
    from_head act (inr (m, a)) = inr (Memᴰ.tail m, a)

choose-none :
    (now : ℕ) (gs : List EntitlementGrant)
    → ((choose none gs now ≡ none) × All (λ h. is_grant_active h now ≡ false) gs)
      ⊎ ((g : EntitlementGrant) × (choose none gs now ≡ some g)
          × IsHeld now g gs
          × IsUnbeaten now g gs)
unfolding choose prefer
choose-none now [] = inl (refl, tt)
choose-none now (x ∷ gs) = elim (Bool-cases (is_grant_active x now)) [
  | inr idle ↦ elim (choose-none now gs) [
    | inl (e, all) ↦ inl (rw idle e, (idle, all))
    | inr (g, e, (m, a), u) ↦ inr (g, rw idle e, (Memᴰ.tail m, a), ((λ act. cc), u))
  ]
  | inl act ↦
      let c = choose_from now x gs in
      inr (c.winner, rw act c.chosen, held act c.listed, ((λ _. c.start), c.unbeaten))
]
  where
    held :
        {g : EntitlementGrant}
        → is_grant_active x now ≡ true
        → (g ≡ x) ⊎ IsHeld now g gs
        → IsHeld now g (x ∷ gs)
    held act (inl e) = (Memᴰ.head e, ap (λ h. is_grant_active h now) e ∙ act)
    held act (inr (m, a)) = (Memᴰ.tail m, a)

-- Either no grant counts at `now` and the user has the free entitlement, or the entitlement is that
-- of a listed grant which counts at `now` and which no listed grant that counts outranks.
pub effective_is_best :
    (grants : List EntitlementGrant) (now : ℕ)
    → ((effective_entitlement grants now ≡ free_entitlement)
        × All (λ h. is_grant_active h now ≡ false) grants)
      ⊎ ((g : EntitlementGrant) × (effective_entitlement grants now ≡ entitlement_of g)
          × IsHeld now g grants
          × IsUnbeaten now g grants)
unfolding effective_entitlement
effective_is_best grants now = elim (choose-none now grants) [
  | inl (e, all) ↦ inl (rw (e, effective_entitlement), all)
  | inr (g, e, held, best) ↦ inr (g, rw (e, effective_entitlement), held, best)
]

active_earlier :
    (g : EntitlementGrant) (now later : ℕ)
    → now ≤ later
    → is_grant_active g later ≡ true
    → is_grant_active g now ≡ true
unfolding is_grant_active
active_earlier g now later h a = ground arith

rank-le_of_unbeaten :
    (h g : EntitlementGrant) → outranks h g ≡ false → plan_rank h.plan ≤ plan_rank g.plan
unfolding outranks
rank-le_of_unbeaten h g e = ground arith

-- With the same grants, waiting never gives a higher plan.
pub effective_rank_antitone :
    (grants : List EntitlementGrant) (now later : ℕ)
    → now ≤ later
    → plan_rank (effective_entitlement grants later).plan
      ≤ plan_rank (effective_entitlement grants now).plan
unfolding free_entitlement entitlement_of plan_rank
effective_rank_antitone grants now later h = elim (effective_is_best grants later) [
  | inl (e, _) ↦ rw e (omega arith)
  | inr (g, e, (m, act), _) ↦ elim (effective_is_best grants now) [
    | inl (_, idle) ↦
        absurd (false≢true (sym (All-mem _ g grants idle m) ∙ active_earlier g now later h act))
    | inr (g', e', _, best) ↦
        rw (e, e')
          (rank-le_of_unbeaten g g' (All-mem _ g grants best m (active_earlier g now later h act)))
  ]
]
