-- ===== src/LimitedWrites/Fair.antt =====
-- What apps/server/src/persistence/limitedWrites.ts promises.
use whiteboard_ai.Base.{
  ℕ, ◌+◌, ◌≤◌, ◌≡◌, refl, sym, ap, ◌∙◌, ◌⊎◌, inl, inr, List, [], ◌∷◌, ◌++◌, append_assoc,
  append-nil, arith, leb, Bool-cases,
}
use whiteboard_ai.LimitedWrites.{begin_write, end_write}
use whiteboard_ai.LimitedWrites.System.{System, requests, ends, request, finish, Reach, here, next}

record Fair (most : ℕ) (w : System) : Type 0 where
  counted : w.limiter.running ≡ w.in_flight
  bounded : w.in_flight ≤ most
  busy : (w.limiter.waiting ≡ []) ⊎ (w.in_flight ≡ most)
  in_order : w.started ++ w.limiter.waiting ≡ w.requested

request-Fair : (most write : ℕ) (w : System) → Fair most w → Fair most (requests most write w)
unfolding begin_write
request-Fair most write w v = elim (Bool-cases (leb most w.limiter.running)) [
  | inl t ↦
      rw (t, begin_write)
        (record {
          counted = v.counted;
          bounded = v.bounded;
          busy = inr (let c = v.counted in let b = v.bounded in ground arith);
          in_order =
              sym (append_assoc w.started w.limiter.waiting (write ∷ []))
              ∙ ap (λ x. x ++ write ∷ []) v.in_order;
        })
  | inr f ↦
      let room : w.in_flight + 1 ≤ most = let c = v.counted in ground arith in
      let idle : w.limiter.waiting ≡ [] = elim v.busy [
        | inl e ↦ e
        | inr e ↦ absurd (omega (arith, room, e))
      ] in
      let order : w.started ≡ w.requested =
        sym (append-nil w.started) ∙ ap (λ x. w.started ++ x) (sym idle) ∙ v.in_order in
      rw (f, begin_write)
        (record {
          counted = ap (λ x. x + 1) v.counted;
          bounded = room;
          busy = inl idle;
          in_order =
              ap (λ x. (w.started ++ write ∷ []) ++ x) idle
              ∙ append-nil _
              ∙ ap (λ x. x ++ write ∷ []) order;
        })
]

List-cases : (xs : List ℕ) → (xs ≡ []) ⊎ ((x : ℕ) × (rest : List ℕ) × (xs ≡ x ∷ rest))
List-cases [] = inl refl
List-cases (x ∷ rest) = inr (x, rest, refl)

end-Fair : (most n : ℕ) (w : System) → w.in_flight ≡ n + 1 → Fair most w → Fair most (ends n w)
unfolding end_write
end-Fair most n w e v = elim (List-cases w.limiter.waiting) [
  | inl h ↦
      rw (h, end_write)
        (record {
          counted = let c = v.counted in omega (arith, c, e);
          bounded = let b = v.bounded in omega (arith, b, e);
          busy = inl h;
          in_order = v.in_order;
        })
  | inr (x, rest, h) ↦
      let full : w.in_flight ≡ most = elim v.busy [
        | inl k ↦ absurd (let no : ◌≡◌ {A = List ℕ} (x ∷ rest) [] = sym h ∙ k in ground arith)
        | inr k ↦ k
      ] in
      rw (h, end_write)
        (record {
          counted = v.counted ∙ e;
          bounded = let b = v.bounded in omega (arith, b, e);
          busy = inr (sym e ∙ full);
          in_order =
              append_assoc w.started (x ∷ []) rest ∙ ap (λ y. w.started ++ y) (sym h) ∙ v.in_order;
        })
]

reach-Fair : (most : ℕ) {w : System} → Reach most w → Fair most w
reach-Fair most here = record {
  counted = refl;
  bounded = omega arith;
  busy = inl refl;
  in_order = refl;
}
reach-Fair most (next r (request w write)) = request-Fair most write w (reach-Fair most r)
reach-Fair most (next r (finish w n e)) = end-Fair most n w e (reach-Fair most r)

-- Whatever writes are requested and end, in any interleaving: no more than `most` are with the
-- database, which is what `inFlight` says; writes start in the order in which they were requested,
-- and those that have not started wait; none waits unless `most` are with the database.
pub writes_are_limited :
    (most : ℕ) {w : System}
    → Reach most w
    → (w.in_flight ≤ most)
      × (w.limiter.running ≡ w.in_flight)
      × (w.started ++ w.limiter.waiting ≡ w.requested)
      × ((w.limiter.waiting ≡ []) ⊎ (w.in_flight ≡ most))
writes_are_limited most r = let v = reach-Fair most r in (v.bounded, v.counted, v.in_order, v.busy)
