-- ===== src/RoomPersistence/Phase.antt =====
-- The phases of a room's writer (apps/server/src/sync/roomPersistence.ts), and how the parts of a
-- step carry them on. What is said here of the document stands in Durable.antt.
use whiteboard_ai.Base.{
  ℕ, ◌≡◌, refl, sym, ap, subst, ◌⊎◌, inl, inr, ◌≢◌, ◌∙◌, Bool, true, false, Option, List, [], ◌∷◌,
  ◌++◌, All, All-append, arith, append_assoc, append-nil, take, drop, take-append-drop, Sub,
  Sub-append_right, Sub-grow, Sub-insert,
}
use whiteboard_ai.RoomPersistence.{
  NewUpdate, Task, catch_up_task, Running, idle, appending, compacting, catching_up,
}
use whiteboard_ai.RoomPersistence.System.{edits_of}

abbrev pub NoCatchUp : List Task → Type 0
NoCatchUp = All (λ t. t ≢ catch_up_task)

module _ {B M : Type 0} where
  abbrev pub batch_of : Running B M → List (NewUpdate B)
  batch_of (appending batch cut last) = batch
  batch_of _ = []

  -- Neither writing nor reading the database's updates.
  abbrev pub IsQuiet : Running B M → Type 0
  IsQuiet idle = Unit {0}
  IsQuiet (compacting last) = Unit {0}
  IsQuiet _ = ⊥

module _ {B E : Type 0} (edits : B → List E) where
  pub edits_of-append :
      (us vs : List (NewUpdate B))
      → edits_of edits (us ++ vs) ≡ edits_of edits us ++ edits_of edits vs
  edits_of-append [] vs = refl
  edits_of-append (u ∷ us) vs =
      rw (edits_of-append us vs, append_assoc (edits u.update) (edits_of edits us)) refl

module _ {B M E : Type 0} (edits : B → List E) where
  -- `gone`: the board was purged. `resting`: another instance writes. `queued` and `reading`: this
  -- one has become the writer and its catch-up is next, or on its way. `writing`: whatever the
  -- document holds is stored, in the batch on its way, or pending.
  pub data Phase (purged active disposed : Bool) (running : Running B M) (chain : List Task)
      (pending : List (NewUpdate B)) (doc stored : List E) : Type 0 where
    gone : purged ≡ true → Phase purged active disposed running chain pending doc stored
    disposing :
        disposed ≡ true
        → active ≡ false
        → Phase purged active disposed running chain pending doc stored
    resting :
        active ≡ false
        → pending ≡ []
        → IsQuiet running
        → NoCatchUp chain
        → Phase purged active disposed running chain pending doc stored
    queued :
        (ts : List Task)
        → active ≡ true
        → running ≡ idle
        → chain ≡ catch_up_task ∷ ts
        → NoCatchUp ts
        → Phase purged active disposed running chain pending doc stored
    reading :
        active ≡ true
        → running ≡ catching_up
        → NoCatchUp chain
        → Phase purged active disposed running chain pending doc stored
    writing :
        active ≡ true
        → running ≢ catching_up
        → NoCatchUp chain
        → Sub doc (stored ++ edits_of edits (batch_of running ++ pending))
        → Phase purged active disposed running chain pending doc stored

module _ {B M E : Type 0} (edits : B → List E) {g a d : Bool} {r : Running B M} {c : List Task}
    {p : List (NewUpdate B)} {doc stored : List E} where
  pub Phase-enqueue_task :
      (t : Task)
      → t ≢ catch_up_task
      → Phase edits g a d r c p doc stored
      → Phase edits g a d r (c ++ t ∷ []) p doc stored
  Phase-enqueue_task t n (gone e) = gone e
  Phase-enqueue_task t n (disposing e f) = disposing e f
  Phase-enqueue_task t n (resting e f q k) = resting e f q (All-append _ c _ k (n, tt))
  Phase-enqueue_task t n (queued ts e f h k) =
      queued (ts ++ t ∷ []) e f (ap (λ x. x ++ t ∷ []) h) (All-append _ ts _ k (n, tt))
  Phase-enqueue_task t n (reading e f k) = reading e f (All-append _ c _ k (n, tt))
  Phase-enqueue_task t n (writing e f k s) = writing e f (All-append _ c _ k (n, tt)) s

  pub Phase-stored :
      (es : List E)
      → Phase edits g a d r c p doc stored
      → Phase edits g a d r c p doc (stored ++ es)
  Phase-stored es (gone e) = gone e
  Phase-stored es (disposing e f) = disposing e f
  Phase-stored es (resting e f q k) = resting e f q k
  Phase-stored es (queued ts e f h k) = queued ts e f h k
  Phase-stored es (reading e f k) = reading e f k
  Phase-stored es (writing e f k s) = writing e f k (Sub-insert _ _ es _ s)

  -- An update that is no pending one, because another instance writes.
  pub Phase-passive :
      (es : List E)
      → a ≡ false
      → Phase edits g a d r c p doc stored
      → Phase edits g a d r c p (doc ++ es) stored
  Phase-passive es i (gone e) = gone e
  Phase-passive es i (disposing e f) = disposing e f
  Phase-passive es i (resting e f q k) = resting e f q k
  Phase-passive es i (queued ts e f h k) = queued ts e f h k
  Phase-passive es i (reading e f k) = reading e f k
  Phase-passive es i (writing e f k s) = absurd (grind arith)

  pub Phase-receive :
      (u : NewUpdate B)
      → a ≡ true
      → Phase edits g a d r c p doc stored
      → Phase edits g a d r c (p ++ u ∷ []) (doc ++ edits u.update) stored
  Phase-receive u i (gone e) = gone e
  Phase-receive u i (disposing e f) = disposing e f
  Phase-receive u i (resting e f q k) = absurd (grind arith)
  Phase-receive u i (queued ts e f h k) = queued ts e f h k
  Phase-receive u i (reading e f k) = reading e f k
  Phase-receive u i (writing e f k s) = writing e f k (subst (Sub _) same (Sub-grow _ _ _ s))
    where
      same :
          (stored ++ edits_of edits (batch_of r ++ p)) ++ edits u.update
          ≡ stored ++ edits_of edits (batch_of r ++ (p ++ u ∷ []))
      same = simp (edits_of-append, append_assoc, append-nil)

-- A task starts or ends: from `running = r` and the chain `c` to `r'` and `c'`.
module _ {B M E : Type 0} (edits : B → List E) {g a d : Bool} {r : Running B M} {c c' : List Task}
    {p : List (NewUpdate B)} {doc stored stored' : List E} (not_reading : r ≢ catching_up)
    (not_queued : (ts : List Task) → r ≡ idle → c ≢ catch_up_task ∷ ts)
    (shorter : NoCatchUp c → NoCatchUp c') where
  pub Phase-proceed :
      {r' : Running B M} {p' : List (NewUpdate B)}
      → IsQuiet r'
      → (p ≡ [] → IsQuiet r → p' ≡ [])
      → (Sub doc (stored ++ edits_of edits (batch_of r ++ p))
          → Sub doc (stored' ++ edits_of edits (batch_of r' ++ p')))
      → Phase edits g a d r c p doc stored
      → Phase edits g a d r' c' p' doc stored'
  Phase-proceed q n f (gone e) = gone e
  Phase-proceed q n f (disposing e h) = disposing e h
  Phase-proceed q n f (resting e h k l) = resting e (n h k) q (shorter l)
  Phase-proceed q n f (queued ts e h k l) = absurd (not_queued ts h k)
  Phase-proceed q n f (reading e h k) = absurd (not_reading h)
  Phase-proceed q n f (writing e h k s) = writing e (λ x. subst IsQuiet x q) (shorter k) (f s)

  -- The end of the flush that `deactivate` awaits.
  pub Phase-leave :
      Phase edits g a d r c p doc stored → Phase {M = M} edits g false d idle c' [] doc stored'
  Phase-leave (gone e) = gone e
  Phase-leave (disposing e h) = disposing e refl
  Phase-leave (resting e h k l) = resting refl refl tt (shorter l)
  Phase-leave (queued ts e h k l) = absurd (not_queued ts h k)
  Phase-leave (reading e h k) = absurd (not_reading h)
  Phase-leave (writing e h k s) = resting refl refl tt (shorter k)

module _ {B M E : Type 0} (edits : B → List E) {g a d : Bool} {r : Running B M} {c : List Task}
    {p : List (NewUpdate B)} {doc stored : List E} where
  -- The catch-up is over: the document is covered by what is stored and by `missing`.
  pub Phase-caught_up :
      (missing : List (NewUpdate B))
      → r ≡ catching_up
      → Sub doc (stored ++ edits_of edits missing)
      → Phase edits g a d r c p doc stored
      → Phase {M = M} edits g a d idle c (missing ++ p) doc stored
  Phase-caught_up missing i s (gone e) = gone e
  Phase-caught_up missing i s (disposing e h) = disposing e h
  Phase-caught_up missing i s (resting e h k l) = absurd (subst IsQuiet i k)
  Phase-caught_up missing i s (queued ts e h k l) =
      absurd (subst IsQuiet i (subst IsQuiet (sym h) tt))
  Phase-caught_up missing i s (reading e h k) = writing e (λ x. cc) k covered
    where
      covered : Sub doc (stored ++ edits_of edits (missing ++ p))
      covered = rw (edits_of-append edits missing p, ← append_assoc) (Sub-append_right _ s)
  Phase-caught_up missing i s (writing e h k t) = absurd (h i)

  -- The catch-up is next in the chain, and starts.
  pub Phase-read :
      (ts : List Task)
      → r ≡ idle
      → c ≡ catch_up_task ∷ ts
      → Phase edits g a d r c p doc stored
      → Phase {M = M} edits g a d catching_up ts p doc stored
  Phase-read ts i n (gone e) = gone e
  Phase-read ts i n (disposing e h) = disposing e h
  Phase-read ts i n (resting e h k l) = absurd ((subst NoCatchUp n l).0 refl)
  Phase-read ts i n (queued us e h k l) =
      let same : us ≡ ts = cc in reading e refl (subst NoCatchUp same l)
  Phase-read ts i n (reading e h k) = absurd (subst IsQuiet (sym i ∙ h) tt)
  Phase-read ts i n (writing e h k t) = absurd ((subst NoCatchUp n k).0 refl)

  -- The next batch is cut from the pending updates.
  pub Phase-cut :
      (k : ℕ) (cut : Option M) (last : Bool) (ts : List Task)
      → r ≡ idle
      → (NoCatchUp c → NoCatchUp ts)
      → ((us : List Task) → c ≢ catch_up_task ∷ us)
      → p ≢ []
      → Phase edits g a d r c p doc stored
      → Phase edits g a d (appending (take k p) cut last) ts (drop k p) doc stored
  Phase-cut k cut last ts i n m q (gone e) = gone e
  Phase-cut k cut last ts i n m q (disposing e h) = disposing e h
  Phase-cut k cut last ts i n m q (resting e h f l) = absurd (q h)
  Phase-cut k cut last ts i n m q (queued us e h f l) = absurd (m us f)
  Phase-cut k cut last ts i n m q (reading e h f) = absurd (subst IsQuiet (sym i ∙ h) tt)
  Phase-cut k cut last ts i n m q (writing e h f s) =
      writing e (λ x. cc) (n f)
        (subst (λ x. Sub doc (stored ++ edits_of edits x))
          (ap (λ x. batch_of x ++ p) i ∙ sym (take-append-drop k p)) s)

  -- Outside a catch-up, a writer's document is covered.
  pub Phase-covers :
      r ≢ catching_up
      → ((ts : List Task) → r ≡ idle → c ≢ catch_up_task ∷ ts)
      → d ≡ false
      → p ≢ []
      → Phase edits g a d r c p doc stored
      → (g ≡ true) ⊎ Sub doc (stored ++ edits_of edits (batch_of r ++ p))
  Phase-covers i n live q (gone e) = inl e
  Phase-covers i n live q (disposing e h) = cc
  Phase-covers i n live q (resting e h f l) = absurd (q h)
  Phase-covers i n live q (queued us e h f l) = absurd (n us h f)
  Phase-covers i n live q (reading e h f) = absurd (i h)
  Phase-covers i n live q (writing e h f s) = inr s
