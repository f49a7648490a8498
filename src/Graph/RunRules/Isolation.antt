-- ===== src/Graph/RunRules/Isolation.antt =====
-- What runRules reports: all findings of the rules that return, in order, and the rules that throw.
use whiteboard_ai.Base.{
  ℕ, ◌≡◌, ◌⊎◌, inl, inr, refl, ap, ◌∙◌, Bool, true, ◌||◌, List, [], ◌∷◌, map, arith, includes, Memᴰ,
  Bool-cases, Sub, All, All-map, All-of_Mem, All-append, insert, sort, sort-Sorted, Sorted, IsOrder,
  All-sort, ◌==◌, ==_iff, ltb,
}
use whiteboard_ai.Base.Memᴰ
use whiteboard_ai.Graph.{DesignGraph, Finding}
use whiteboard_ai.Graph.RunRules.{
  Rule, RuleError, RuleResults, CheckOptions, set_finding, set_findings, severity_rank, rule_order,
  min_position, record_result, run_all, by_key, finding_before, run_rules,
}

by_key-IsOrder :
    (key : Finding → ℕ) (next : Finding → Finding → Bool) → IsOrder next → IsOrder (by_key key next)
by_key-IsOrder key next o = record {
  asym = λ a b h.
      let k = o.asym a b in
      elim (Bool-cases (next a b)) [ inl t ↦ let j = k t in ground arith | inr f ↦ ground arith ];
  trans = λ a b c h k. elim (Bool-cases (next b a)) [
    | inl t ↦ elim (Bool-cases (next c b)) [ inl u ↦ ground arith | inr u ↦ ground arith ]
    | inr t ↦ elim (Bool-cases (next c b)) [
      | inl u ↦ ground arith
      | inr u ↦ let j = o.trans a b c t u in ground arith
    ]
  ];
}

by_id-IsOrder : IsOrder {A = Finding} (λ a b. ltb a.id b.id)
by_id-IsOrder = record { asym = λ a b h. ground arith; trans = λ a b c h k. ground arith }

finding_before-IsOrder : (g : DesignGraph) (rules : List Rule) → IsOrder (finding_before g rules)
unfolding finding_before
finding_before-IsOrder g rules =
    by_key-IsOrder (λ f. severity_rank f.severity) _
      (by_key-IsOrder (rule_order rules) _
        (by_key-IsOrder (λ f. min_position g f.shape_ids) (λ a b. ltb a.id b.id) by_id-IsOrder))

abbrev pub ids_of : List Finding → List ℕ
ids_of fs = map (λ f. f.id) fs

includes-set_finding :
    (f : Finding) (all : List Finding) (v : ℕ)
    → includes v (ids_of (set_finding f all)) ≡ (f.id == v || includes v (ids_of all))
unfolding set_finding
includes-set_finding f [] v = refl
includes-set_finding f (x ∷ xs) v = elim (Bool-cases (x.id == f.id)) [
  | inl t ↦ let same = ap (λ y. y == v) ((==_iff _ _).0 t) in rw t (ground arith)
  | inr n ↦ let rest = includes-set_finding f xs v in rw n (ground arith)
]

includes-set_findings :
    (fs all : List Finding) (v : ℕ)
    → includes v (ids_of (set_findings fs all))
      ≡ (includes v (ids_of fs) || includes v (ids_of all))
unfolding set_findings
includes-set_findings [] all v = refl
includes-set_findings (f ∷ fs) all v =
    let rest = includes-set_findings fs (set_finding f all) v in
    let first = includes-set_finding f all v in ground arith

-- What the loop has recorded of a rule.
abbrev pub IsRecorded : RuleResults → ℕ → List Finding ⊎ ℕ → Type 0
IsRecorded r rule (inl fs) =
    (v : ℕ) → includes v (ids_of fs) ≡ true → includes v (ids_of r.findings) ≡ true
IsRecorded r rule (inr message) = Memᴰ (record { rule_id = rule; message = message }) r.rule_errors

record-IsRecorded :
    (rule : ℕ) (r : RuleResults) (result : List Finding ⊎ ℕ)
    → IsRecorded (record_result rule r result) rule result
record-IsRecorded rule r (inl fs) =
    λ v m. let all = includes-set_findings fs r.findings v in ground arith
record-IsRecorded rule r (inr message) = Memᴰ.append_right r.rule_errors (Memᴰ.head refl)

record-keeps :
    (rule : ℕ) (r : RuleResults) (result : List Finding ⊎ ℕ) (other : ℕ) (kept : List Finding ⊎ ℕ)
    → IsRecorded r other kept
    → IsRecorded (record_result rule r result) other kept
record-keeps rule r (inl fs) other (inl ks) h =
    λ v m. let k = h v m in let all = includes-set_findings fs r.findings v in ground arith
record-keeps rule r (inl fs) other (inr message) h = h
record-keeps rule r (inr message) other (inl ks) h = h
record-keeps rule r (inr message) other (inr kept) h = Memᴰ.append_left _ h

module _ (before : Finding → Finding → Bool) where
  includes-insert_ids :
      (f : Finding) (fs : List Finding) (v : ℕ)
      → includes v (ids_of (insert before f fs)) ≡ (f.id == v || includes v (ids_of fs))
  includes-insert_ids f [] v = refl
  includes-insert_ids f (x ∷ xs) v =
      let rest = includes-insert_ids f xs v in
      elim (Bool-cases (before x f)) [ inl t ↦ rw t (ground arith) | inr n ↦ rw n (ground arith) ]

  includes-sort_ids :
      (fs : List Finding) (v : ℕ) → includes v (ids_of (sort before fs)) ≡ includes v (ids_of fs)
  includes-sort_ids [] v = refl
  includes-sort_ids (f ∷ fs) v =
      let rest = includes-sort_ids fs v in
      let first = includes-insert_ids f (sort before fs) v in ground arith

  sorted-IsRecorded :
      (r : RuleResults) (rule : ℕ) (result : List Finding ⊎ ℕ)
      → IsRecorded r rule result
      → IsRecorded (record r { findings = sort before r.findings }) rule result
  sorted-IsRecorded r rule (inl fs) h = λ v m. includes-sort_ids r.findings v ∙ h v m
  sorted-IsRecorded r rule (inr message) h = h

module _ (g : DesignGraph) (options : CheckOptions) where
  run_all-keeps :
      (rules : List Rule) (r : RuleResults) (other : ℕ) (kept : List Finding ⊎ ℕ)
      → IsRecorded r other kept
      → IsRecorded (run_all g options rules r) other kept
  unfolding run_all
  run_all-keeps [] r other kept h = h
  run_all-keeps (rule ∷ rules) r other kept h =
      run_all-keeps rules (record_result rule.id r (rule.check g options)) other kept
        (record-keeps rule.id r (rule.check g options) other kept h)

  run_all-IsRecorded :
      (rules : List Rule) (r : RuleResults)
      → All (λ rule. IsRecorded (run_all g options rules r) rule.id (rule.check g options)) rules
  unfolding run_all
  run_all-IsRecorded [] r = tt
  run_all-IsRecorded (rule ∷ rules) r =
      let result = rule.check g options in
      (
        run_all-keeps rules (record_result rule.id r result) rule.id result
            (record-IsRecorded rule.id r result),
        run_all-IsRecorded rules (record_result rule.id r result),
      )

  -- Where a finding comes from: a rule that returned it.
  abbrev pub IsFound : List Rule → Finding → Type 0
  IsFound rules f =
      (rule : Rule) × (fs : List Finding) × Memᴰ rule rules
      × (rule.check g options ≡ inl fs)
      × Memᴰ f fs

  -- Why a rule is reported: it threw that message.
  abbrev pub IsThrown : List Rule → RuleError → Type 0
  IsThrown rules e =
      (rule : Rule) × Memᴰ rule rules
      × (rule.id ≡ e.rule_id)
      × (rule.check g options ≡ inr e.message)

  All-set_finding :
      (P : Finding → Type 0) (f : Finding) (all : List Finding)
      → P f
      → All P all
      → All P (set_finding f all)
  unfolding set_finding
  All-set_finding P f [] p h = (p, tt)
  All-set_finding P f (x ∷ xs) p h = elim (Bool-cases (x.id == f.id)) [
    | inl t ↦ rw t (p, h.1)
    | inr n ↦ rw n (h.0, All-set_finding P f xs p h.1)
  ]

  All-set_findings :
      (P : Finding → Type 0) (fs all : List Finding)
      → All P fs
      → All P all
      → All P (set_findings fs all)
  unfolding set_findings
  All-set_findings P [] all h k = k
  All-set_findings P (f ∷ fs) all h k =
      All-set_findings P fs (set_finding f all) h.1 (All-set_finding P f all h.0 k)

  abbrev pub IsSound : List Rule → RuleResults → Type 0
  IsSound rules r = All (IsFound rules) r.findings × All (IsThrown rules) r.rule_errors

  record-IsSound :
      (rules : List Rule) (rule : Rule) (r : RuleResults) (result : List Finding ⊎ ℕ)
      → Memᴰ rule rules
      → rule.check g options ≡ result
      → IsSound rules r
      → IsSound rules (record_result rule.id r result)
  record-IsSound rules rule r (inl fs) m e (h, k) = (
    All-set_findings (IsFound rules) fs r.findings (All-of_Mem _ fs (λ f at. (rule, fs, m, e, at)))
        h,
    k,
  )
  record-IsSound rules rule r (inr message) m e (h, k) =
      (h, All-append (IsThrown rules) r.rule_errors _ k ((rule, m, refl, e), tt))

  run_all-IsSound :
      (rules rest : List Rule) (r : RuleResults)
      → Sub rest rules
      → IsSound rules r
      → IsSound rules (run_all g options rest r)
  unfolding run_all
  run_all-IsSound rules [] r sub h = h
  run_all-IsSound rules (rule ∷ rest) r sub h =
      run_all-IsSound rules rest _ (λ a m. sub a (Memᴰ.tail m))
        (record-IsSound rules rule r (rule.check g options) (sub rule (Memᴰ.head refl)) refl h)

  -- A rule that throws hides nothing: every finding of a rule that returns is reported, under its id,
  -- every rule that throws is reported with its message, nothing else is reported, and the findings
  -- are sorted by severity, rule, position and id.
  pub run_rules_lem :
      (rules : List Rule)
      → let r = run_rules g rules options in
        (All (λ rule. IsRecorded r rule.id (rule.check g options)) rules × IsSound rules r)
        × Sorted (finding_before g rules) r.findings
  unfolding run_rules
  run_rules_lem rules =
      let empty : RuleResults = record { findings = []; rule_errors = [] } in
      let r = run_all g options rules empty in
      let (h, k) = run_all-IsSound rules rules empty (λ a m. m) (tt, tt) in
      (
        (
          All-map _ _ rules (λ rule m. sorted-IsRecorded _ r rule.id (rule.check g options) m)
              (run_all-IsRecorded rules empty),
          (All-sort (finding_before g rules) (IsFound rules) r.findings h, k),
        ),
        sort-Sorted (finding_before g rules) (finding_before-IsOrder g rules) r.findings,
      )
