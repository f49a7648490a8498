-- ===== src/WindowLimiter.antt =====
-- The limiter of one process in apps/server/src/http/windowLimiter.ts: a fixed-window counter. The
-- limiter over Redis counts the same way there, in a key of each window, and is not modelled.
pub mod Entries
pub mod Bound
mod Tests
use whiteboard_ai.Base.{
  ℕ, ◌+◌, ◌/◌, Bool, true, false, not, Option, none, some, List, [], ◌∷◌, ltb, leb, ◌==◌, filter,
  length, if◌then◌else◌,
}

pub record Entry : Type 0 where
  pub key : ℕ
  pub window : ℕ
  pub count : ℕ

-- `counts`, a map: at most one entry for each key.
abbrev pub Counts : Type 0
Counts = List Entry

-- `counts.get(key)`
abbrev pub get : ℕ → Counts → Option Entry
get key [] = none
get key (e ∷ es) = let rest = get key es in if e.key == key then some e else rest

-- `counts.set(key, ...)`
abbrev pub set : Entry → Counts → Counts
set entry [] = entry ∷ []
set entry (e ∷ es) = let rest = set entry es in if e.key == entry.key then entry ∷ es else e ∷ rest

-- The map does not grow without bound: past 10,000 keys the finished windows go.
abbrev pub forget : ℕ → Counts → Counts
forget window counts =
    if ltb 10000 (length counts) then filter (λ e. e.window == window) counts else counts

abbrev pub next_count : ℕ → Option Entry → ℕ
next_count window none = 1
next_count window (some e) = if e.window == window then e.count + 1 else 1

-- `now()` is the argument `now`.
pub hit : (most window_ms now key : ℕ) → Counts → Counts × Bool
hit most window_ms now key counts =
    let window = now / window_ms in
    let kept = forget window counts in
    let count = next_count window (get key kept) in
    (set (record { key = key; window = window; count = count }) kept, leb count most)
