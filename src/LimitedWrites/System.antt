-- ===== src/LimitedWrites/System.antt =====
-- The writes that pass apps/server/src/persistence/limitedWrites.ts, as steps.
use whiteboard_ai.Base.{ℕ, ◌+◌, ◌≡◌, none, some, List, [], ◌∷◌, ◌++◌, if◌then◌else◌}
use whiteboard_ai.LimitedWrites.{LimitedWrites, empty_limiter, begin_write, end_write}

-- `in_flight` writes are with the database; `requested` and `started` are the writes so far, in
-- order.
pub record System : Type 0 where
  pub limiter : LimitedWrites
  pub in_flight : ℕ
  pub requested : List ℕ
  pub started : List ℕ

abbrev pub initial : System
initial = record { limiter = empty_limiter; in_flight = 0; requested = []; started = [] }

abbrev pub requests : ℕ → ℕ → System → System
requests most write w =
    let (limiter, now) = begin_write most write w.limiter in
    record {
      limiter = limiter;
      in_flight = if now then w.in_flight + 1 else w.in_flight;
      requested = w.requested ++ write ∷ [];
      started = if now then w.started ++ write ∷ [] else w.started;
    }

-- One of `n + 1` writes ends, and with it starts the next one, if any waits.
abbrev pub ends : ℕ → System → System
ends n w =
    let (limiter, next) = end_write w.limiter in
    record w {
      limiter = limiter;
      in_flight = elim next [ none ↦ n | some _ ↦ n + 1 ];
      started = elim next [ none ↦ w.started | some write ↦ w.started ++ write ∷ [] ];
    }

pub data Step (most : ℕ) : System → System → Type 0 where
  request : (w : System) (write : ℕ) → Step most w (requests most write w)
  finish : (w : System) (n : ℕ) → w.in_flight ≡ n + 1 → Step most w (ends n w)

pub data Reach (most : ℕ) : System → Type 0 where
  here : Reach most initial
  next : {w u : System} → Reach most w → Step most w u → Reach most u
