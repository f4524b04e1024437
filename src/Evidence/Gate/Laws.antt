-- ===== src/Evidence/Gate/Laws.antt =====
-- What the gate of backend/domain/evidence/gate.go admits.
use magi_system.Prelude.{
  ℕ, ◌+◌, String, Bool, true, false, Option, none, some, List, [], ◌∷◌, ◌++◌, ◌≡◌, refl, ◌↔◌, ◌⊎◌,
  arith, All, length, is_empty, Bool-cases, Option-cases, inl, inr, if◌then◌else◌,
}
use magi_system.Prelude.Dict.{lookup}
use magi_system.Entity.Evidence.{EvidenceSummary, EvidenceSummaryClaim}
use magi_system.Entity.Config.{EvidenceStandard, EvidenceTypeRequirement, EvidenceRule}
use magi_system.Evidence.Ledger.{EvidenceLedger, exists_collected, list}
use magi_system.Evidence.Gate.{
  GateResult, GateViolation, RuleRegistry, refuse, refuse_if, evaluate, check_counts, check_ledger,
  check_rules, check_claims, check_supports, check_ids, check_id, check_required_types, unreliable,
  all_ids, type_count, short, collector_check, apply_rule,
}

is_empty-snoc {ℓ} : {A : Type ℓ} (xs : List A) (x : A) → is_empty (xs ++ x ∷ []) ≡ false
is_empty-snoc [] x = refl
is_empty-snoc (y ∷ xs) x = refl

-- Each check admits what was admitted before, if its condition holds, and keeps the flag in agreement
-- with the violations.
record Checks (r after : GateResult) (Condition : Type 0) : Type 0 where
  admits : (after.passed ≡ true) ↔ ((r.passed ≡ true) × Condition)
  agrees : r.passed ≡ is_empty r.violations → after.passed ≡ is_empty after.violations

refuse-agrees :
    (v : GateViolation) (r : GateResult) → (refuse v r).passed ≡ is_empty (refuse v r).violations
unfolding refuse
refuse-agrees v r = ground (arith, is_empty-snoc r.violations v)

refuse_if-Checks :
    (b : Bool) (v : GateViolation) (r : GateResult) → Checks r (refuse_if b v r) (b ≡ false)
unfolding refuse_if
refuse_if-Checks true v r = record {
  admits = unfold refuse in ground arith;
  agrees = λ h. refuse-agrees v r;
}
refuse_if-Checks false v r = record { admits = ground arith; agrees = λ h. h }

both : {r s t : GateResult} {P Q : Type 0} → Checks r s P → Checks s t Q → Checks r t (P × Q)
both p q = record {
  admits = ground (arith, p.admits, q.admits);
  agrees = λ h. q.agrees (p.agrees h);
}

check_required_types-Checks :
    (entries : List (String × List String)) (rts : List EvidenceTypeRequirement) (r : GateResult)
    → Checks r
        (check_required_types entries rts r)
        (All (λ rt. short (type_count rt.type_name entries) rt.min_count ≡ false) rts)
unfolding check_required_types
check_required_types-Checks entries [] r = record { admits = ground arith; agrees = λ h. h }
check_required_types-Checks entries (rt ∷ rts) r =
    both (refuse_if-Checks _ _ r) (check_required_types-Checks entries rts _)

module _ (ledger : EvidenceLedger) (standard : EvidenceStandard) (collector : String) where
  abbrev pub Known : String → Type 0
  Known id = exists_collected ledger id (collector_check standard collector) ≡ true

  check_id-Checks :
      (id : String) (r : GateResult)
      → Checks r
          (check_id ledger standard collector id r)
          (Known id × (unreliable ledger standard collector id ≡ false))
  unfolding check_id
  check_id-Checks id r =
      elim (Bool-cases (exists_collected ledger id (collector_check standard collector))) [
        | inl e ↦
            let inner =
              refuse_if-Checks (unreliable ledger standard collector id)
                (GateViolation.reliability_below_threshold id) r in
            record { admits = ground (arith, inner.admits); agrees = rw e inner.agrees }
        | inr e ↦ record {
          admits = unfold refuse in ground arith;
          agrees = λ h. rw e (refuse-agrees _ r);
        }
      ]

  check_ids-Checks :
      (ids : List String) (r : GateResult)
      → Checks r
          (check_ids ledger standard collector ids r)
          (All (λ id. Known id × (unreliable ledger standard collector id ≡ false)) ids)
  unfolding check_ids
  check_ids-Checks [] r = record { admits = ground arith; agrees = λ h. h }
  check_ids-Checks (id ∷ ids) r = both (check_id-Checks id r) (check_ids-Checks ids _)

  support-Checks :
      (i : ℕ) (sid : String) (r : GateResult)
      → Checks r
          (if exists_collected ledger sid (collector_check standard collector)
            then r
            else refuse (GateViolation.claim_unsupported i sid) r)
          (Known sid)
  support-Checks i sid r =
      elim (Bool-cases (exists_collected ledger sid (collector_check standard collector))) [
        | inl e ↦ record { admits = ground arith; agrees = rw e (λ h. h) }
        | inr e ↦ record {
          admits = unfold refuse in ground arith;
          agrees = λ h. rw e (refuse-agrees _ r);
        }
      ]

  check_supports-Checks :
      (i : ℕ) (sids : List String) (r : GateResult)
      → Checks r (check_supports ledger standard collector i sids r) (All Known sids)
  unfolding check_supports
  check_supports-Checks i [] r = record { admits = ground arith; agrees = λ h. h }
  check_supports-Checks i (sid ∷ sids) r =
      both (support-Checks i sid r) (check_supports-Checks i sids _)

  check_claims-Checks :
      (i : ℕ) (cs : List EvidenceSummaryClaim) (r : GateResult)
      → Checks r
          (check_claims ledger standard collector i cs r)
          (All (λ c. All Known c.supports) cs)
  unfolding check_claims
  check_claims-Checks i [] r = record { admits = ground arith; agrees = λ h. h }
  check_claims-Checks i (c ∷ cs) r =
      both (check_supports-Checks i c.supports r) (check_claims-Checks (i + 1) cs _)

  -- The ids that a summary cites exist, are reliable enough, and so do those that its claims cite.
  pub record Authentic (summary : EvidenceSummary) : Type 0 where
    pub cited :
        All (λ id. Known id × (unreliable ledger standard collector id ≡ false)) (all_ids summary)
    pub supported : All (λ c. All Known c.supports) summary.claims

  check_ledger-Checks :
      (summary : EvidenceSummary) (r : GateResult)
      → Checks r
          (check_ledger ledger standard collector summary r)
          ((is_empty (list ledger) ≡ true) ⊎ Authentic summary)
  unfolding check_ledger
  check_ledger-Checks summary r = elim (Bool-cases (is_empty (list ledger))) [
    | inl e ↦ record { admits = ground arith; agrees = rw e (λ h. h) }
    | inr e ↦
        let inner =
          both (check_ids-Checks (all_ids summary) r) (check_claims-Checks 0 summary.claims _) in
        record { admits = ground (arith, inner.admits); agrees = rw e inner.agrees }
  ]

  -- A rule is registered, and finds nothing.
  abbrev pub Satisfied : RuleRegistry → EvidenceSummary → EvidenceRule → Type 0
  Satisfied registry summary rule =
      (f : EvidenceSummary → EvidenceLedger → String → Option GateViolation) × (lookup rule.code
          registry
        ≡ some f)
      × (f summary ledger collector ≡ none)

  rule-Checks :
      (registry : RuleRegistry) (summary : EvidenceSummary) (rule : EvidenceRule) (r : GateResult)
      → Checks r
          (elim (lookup rule.code registry) [
            | none ↦ refuse (GateViolation.unknown_custom_rule rule.code) r
            | some f ↦ apply_rule ledger standard collector f summary r
          ])
          (Satisfied registry summary rule)
  unfolding apply_rule
  rule-Checks registry summary rule r = elim (Option-cases (lookup rule.code registry)) [
    | inl e ↦ record {
      admits =
          (λ h. absurd (unfold refuse in ground arith), λ (h, (f, e', n)). absurd (ground arith));
      agrees = λ h. rw e (refuse-agrees _ r);
    }
    | inr (f, e) ↦ elim (Option-cases (f summary ledger collector)) [
      | inl e' ↦ record {
        admits =
            (λ h. (rw (e, apply_rule, e') at h, (f, e, e')), λ (h, _). rw (e, apply_rule, e') h);
        agrees = λ h. rw (e, apply_rule, e') h;
      }
      | inr (v, e') ↦ record {
        admits = (
          λ h. absurd (unfold refuse in ground arith),
          λ (h, (g, e'', n)). absurd (ground arith),
        );
        agrees = λ h. rw (e, apply_rule, e') (refuse-agrees _ r);
      }
    ]
  ]

  check_rules-Checks :
      (registry : RuleRegistry) (summary : EvidenceSummary) (rules : List EvidenceRule)
      (r : GateResult)
      → Checks r
          (check_rules ledger standard collector registry summary rules r)
          (All (Satisfied registry summary) rules)
  unfolding check_rules
  check_rules-Checks registry summary [] r = record { admits = ground arith; agrees = λ h. h }
  check_rules-Checks registry summary (rule ∷ rules) r =
      both (rule-Checks registry summary rule r) (check_rules-Checks registry summary rules _)

  -- The counts that a summary reaches.
  pub record Sufficient (summary : EvidenceSummary) : Type 0 where
    pub evidence : short (length (all_ids summary)) standard.min_evidence_count ≡ false
    pub quantitative :
        short (type_count "quantitative" summary.evidence_by_type) standard.min_quantitative_count
        ≡ false
    pub types :
        All
          (λ rt. short (type_count rt.type_name summary.evidence_by_type) rt.min_count ≡ false)
          standard.required_types
    pub claims : short (length summary.claims) standard.required_claim_count ≡ false

  check_counts-Checks :
      (summary : EvidenceSummary) (r : GateResult)
      → Checks r (check_counts ledger standard collector summary r) (Sufficient summary)
  unfolding check_counts
  check_counts-Checks summary r =
      let entries = summary.evidence_by_type in
      let first =
        refuse_if-Checks (short (length (all_ids summary)) standard.min_evidence_count) _ r in
      let second = both first (
        refuse_if-Checks (short (type_count "quantitative" entries) standard.min_quantitative_count)
          _ _) in
      let third = both second (check_required_types-Checks entries standard.required_types _) in
      let inner =
        both third
          (refuse_if-Checks (short (length summary.claims) standard.required_claim_count) _ _) in
      record { admits = ground (arith, inner.admits); agrees = inner.agrees }

  -- What the gate asks of a summary.
  pub record Admissible (registry : RuleRegistry) (summary : EvidenceSummary) : Type 0 where
    pub sufficient : Sufficient summary
    pub authentic : (is_empty (list ledger) ≡ true) ⊎ Authentic summary
    pub rules : All (Satisfied registry summary) standard.custom_rules

  -- The gate passes a summary exactly if it has enough cited evidence, enough listed as quantitative
  -- and under each required type, and enough claims; if, unless the ledger is empty, every id that it
  -- or one of its claims cites is in the ledger, collected by the agent itself where the standard
  -- says so, and every id that it cites is reliable enough; and if every custom rule is registered
  -- and finds nothing. It passes exactly if it lists no violation.
  pub evaluate-Admissible :
      (registry : RuleRegistry) (summary : EvidenceSummary)
      → (((evaluate ledger standard collector registry (some summary)).passed ≡ true)
          ↔ Admissible registry summary)
        × ((evaluate ledger standard collector registry (some summary)).passed
            ≡ is_empty (evaluate ledger standard collector registry (some summary)).violations)
  unfolding evaluate
  evaluate-Admissible registry summary =
      let whole =
        both
          (both (check_counts-Checks summary (record { passed = true; violations = [] }))
            (check_ledger-Checks summary _))
          (check_rules-Checks registry summary standard.custom_rules _) in
      (
        (
          λ h.
              let (start, ((counts, known), satisfied)) = whole.admits.0 h in
              record { sufficient = counts; authentic = known; rules = satisfied },
          λ a. whole.admits.1 (refl, ((a.sufficient, a.authentic), a.rules)),
        ),
        whole.agrees refl,
      )
