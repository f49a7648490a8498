-- ===== src/EncryptedRoom/Synced.antt =====
-- What the connections of a private room hold (encryptedRoom.ts): each that was welcomed has every
-- entry of the log.
use whiteboard_ai.Base.{
  ℕ, ◌≡◌, refl, sym, subst, inl, inr, ◌||◌, ◌&&◌, not, Bool, true, false, Option, List, [], ◌∷◌,
  ◌++◌, arith, ◌==◌, ==_iff, any, any-append, filter, map, includes, includes-append,
  includes-filter, includes-map_append, Bool-cases, if◌then◌else◌,
}
use whiteboard_ai.CipherLog.{CipherEntry}
use whiteboard_ai.EncryptedRoom.{
  Message, welcome_message, state_message, update_message, awareness_message, peer_left_message,
  persisted_message, request_message, posts, is_not, without, add_once,
}

module _ (hash : ℕ → ℕ) where
  -- Some blob of the message has the hash `h`.
  abbrev pub carries : ℕ → Message → Bool
  carries h (welcome_message id) = false
  carries h (state_message snapshot blobs) = includes h (map hash blobs)
  carries h (update_message blob) = hash blob == h
  carries h (awareness_message id blob) = false
  carries h (peer_left_message id) = false
  carries h (persisted_message marker) = false
  carries h (request_message id seq_upto) = false

  abbrev pub was_sent : ℕ → ℕ → List (ℕ × Message) → Bool
  was_sent p h sent = any (λ (m, message). m == p && carries h message) sent

  abbrev pub has_delivered : ℕ → ℕ → List (ℕ × ℕ) → Bool
  has_delivered p h received = any (λ (m, blob). m == p && hash blob == h) received

  -- The connection `p` was sent bytes with the hash `h`, or it is the one that delivered them.
  abbrev pub holds : ℕ → ℕ → List (ℕ × Message) → List (ℕ × ℕ) → Bool
  holds p h sent received = was_sent p h sent || has_delivered p h received

  abbrev pub is_listed : ℕ → List CipherEntry → Bool
  is_listed h es = includes h (map (λ e. hash e.blob) es)

  -- The connections that were welcomed are members, and hold what the entries list.
  pub record Synced (ms ps : List ℕ) (es : List CipherEntry) (sent : List (ℕ × Message))
      (received : List (ℕ × ℕ)) : Type 0 where
    pub joined : (p : ℕ) → includes p ps ≡ true → includes p ms ≡ true
    pub held :
        (p h : ℕ) → includes p ps ≡ true → is_listed h es ≡ true → holds p h sent received ≡ true

  module _ {ms ps : List ℕ} {es : List CipherEntry} {s : List (ℕ × Message)} {rc : List (ℕ × ℕ)}
      (v : Synced ms ps es s rc) where
    pub sent_more : (x : List (ℕ × Message)) → Synced ms ps es (s ++ x) rc
    sent_more x = record {
      joined = v.joined;
      held = λ p h a b.
          let old = v.held p h a b in
          let both = any-append (λ (m, message). m == p && carries h message) s x in ground arith;
    }

    pub received_more : (x : List (ℕ × ℕ)) → Synced ms ps es s (rc ++ x)
    received_more x = record {
      joined = v.joined;
      held = λ p h a b.
          let old = v.held p h a b in
          let both = any-append (λ (m, blob). m == p && hash blob == h) rc x in ground arith;
    }

    pub fewer :
        (es' : List CipherEntry)
        → ((h : ℕ) → is_listed h es' ≡ true → is_listed h es ≡ true)
        → Synced ms ps es' s rc
    fewer es' f = record { joined = v.joined; held = λ p h a b. v.held p h a (f h b) }

    pub joined_by : (m : ℕ) → Synced (add_once m ms) ps es s rc
    joined_by m = elim (Bool-cases (includes m ms)) [
      | inl t ↦ rw t v
      | inr f ↦ rw f (record {
        joined = λ p a.
            let old = v.joined p a in let both = includes-append p ms (m ∷ []) in ground arith;
        held = v.held;
      })
    ]

    pub left_by : (m : ℕ) → Synced (without m ms) (without m ps) es s rc
    left_by m = record {
      joined = λ p a.
          let both = includes-filter (λ k. not (k == m)) p ps in
          let all = includes-filter (λ k. not (k == m)) p ms in
          let old = v.joined p (ground arith) in ground arith;
      held = λ p h a b.
          let both = includes-filter (λ k. not (k == m)) p ps in v.held p h (ground arith) b;
    }

  was_sent-posts :
      (p h : ℕ) (message : Message) (ms : List ℕ)
      → was_sent p h (map (λ m. (m, message)) ms) ≡ (includes p ms && carries h message)
  was_sent-posts p h message [] = refl
  was_sent-posts p h message (m ∷ ms) = let rest = was_sent-posts p h message ms in ground arith

  -- A broadcast reaches each member but the one excepted.
  pub posted :
      (p b : ℕ) (except : Option ℕ) (ms : List ℕ)
      → includes p ms ≡ true
      → is_not except p ≡ true
      → was_sent p (hash b) (posts (update_message b) except ms) ≡ true
  posted p b except ms m n =
      let all = was_sent-posts p (hash b) (update_message b) (filter (is_not except) ms) in
      let kept = includes-filter (is_not except) p ms in
      let same = (==_iff (hash b) (hash b)).1 refl in ground arith

  pub is_listed-push :
      (h : ℕ) (es : List CipherEntry) (e : CipherEntry)
      → is_listed h (es ++ e ∷ []) ≡ (is_listed h es || hash e.blob == h)
  is_listed-push h es e =
      let both = includes-map_append (λ f. hash f.blob) h es (e ∷ []) in ground arith

  is_listed-blobs :
      (h : ℕ) (es : List CipherEntry)
      → includes h (map hash (map (λ e. e.blob) es)) ≡ is_listed h es
  is_listed-blobs h [] = refl
  is_listed-blobs h (e ∷ es) = let rest = is_listed-blobs h es in ground arith

  module _ {ms ps : List ℕ} {es : List CipherEntry} {s : List (ℕ × Message)} {rc : List (ℕ × ℕ)}
      (v : Synced ms ps es s rc) where
    -- A new entry is sent to every member but the connection that delivered it.
    pub added :
        (e : CipherEntry) (except : Option ℕ)
        → ((p : ℕ) → is_not except p ≡ false → has_delivered p (hash e.blob) rc ≡ true)
        → Synced ms ps (es ++ e ∷ []) (s ++ posts (update_message e.blob) except ms) rc
    added e except own = record {
      joined = v.joined;
      held = λ p h a b.
          let both =
            any-append (λ (m, message). m == p && carries h message) s
              (posts (update_message e.blob) except ms) in
          let listed = is_listed-push h es e in
          elim (Bool-cases (is_listed h es)) [
            | inl t ↦ let old = v.held p h a t in ground arith
            | inr f ↦
                let same : hash e.blob ≡ h = (==_iff _ _).0 (ground arith) in
                subst (λ k. holds p k (s ++ posts (update_message e.blob) except ms) rc ≡ true) same
                  (new p a)
          ];
    }
      where
        new :
            (p : ℕ)
            → includes p ps ≡ true
            → holds p (hash e.blob) (s ++ posts (update_message e.blob) except ms) rc ≡ true
        new p a =
            let both =
              any-append (λ (m, message). m == p && carries (hash e.blob) message) s
                (posts (update_message e.blob) except ms) in
            elim (Bool-cases (is_not except p)) [
              | inl t ↦ let sent = posted p e.blob except ms (v.joined p a) t in ground arith
              | inr f ↦ let theirs = own p f in ground arith
            ]

    -- A newcomer is sent all entries.
    pub welcomed :
        (p id : ℕ) (snapshot : Option ℕ) (x : List (ℕ × Message))
        → includes p ms ≡ true
        → Synced ms
            (add_once p ps)
            es
            (s
              ++ ((p, welcome_message id) ∷ (p, state_message snapshot (map (λ e. e.blob) es)) ∷ x))
            rc
    welcomed p id snapshot x m = record {
      joined = λ q a. elim (Bool-cases (q == p)) [
        | inl t ↦ let same : q ≡ p = (==_iff _ _).0 t in rw same m
        | inr f ↦ v.joined q (old_peer q f a)
      ];
      held = λ q h a b.
          let both =
            any-append (λ (k, message). k == q && carries h message) s
              ((p, welcome_message id) ∷ (p, state_message snapshot (map (λ e. e.blob) es)) ∷ x) in
          elim (Bool-cases (q == p)) [
            | inl t ↦
                let same = ==_iff p q in
                let again : q ≡ p = (==_iff _ _).0 t in
                let listed = is_listed-blobs h es in let here = same.1 (sym again) in ground arith
            | inr f ↦ let old = v.held q h (old_peer q f a) b in ground arith
          ];
    }
      where
        old_peer :
            (q : ℕ) → (q == p) ≡ false → includes q (add_once p ps) ≡ true → includes q ps ≡ true
        old_peer q f a = elim (Bool-cases (includes p ps)) [
          | inl t ↦ subst (λ b. includes q (if b then ps else ps ++ p ∷ []) ≡ true) t a
          | inr t ↦
              let b = subst (λ b. includes q (if b then ps else ps ++ p ∷ []) ≡ true) t a in
              let both = includes-append q ps (p ∷ []) in
              let same = ==_iff p q in let other = ==_iff q p in ground arith
        ]
