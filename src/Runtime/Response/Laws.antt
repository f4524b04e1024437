-- ===== src/Runtime/Response/Laws.antt =====
-- Which responses a phase admits, and where their values come from.
use magi_system.Prelude.{
  String, true, Option, none, some, ◌≡◌, refl, arith, is_empty, str_eq, Bool-cases, Option-cases,
  inl, inr, ◌&&◌,
}
use magi_system.Entity.Vote.{Vote}
use magi_system.Runtime.Messages.{
  Phase, gather, reconsider_gather, reconsider_reflect, vote_phase, unknown_phase, Answer,
  is_gather,
}
use magi_system.Runtime.Response.{
  Parsers, ParsedResponse, tool_call, invalid, claim_submission, evidence_summary, reflection, vote,
  parse_response, parse_content, routed, by_phase, by_type, as_summary, as_vote, as_reflection,
  normalize_vote_confidence, strip_discriminator_type, or_by_phase, is_vote_phase,
}

-- What a response of each kind tells of the phase and of the validators' answer.
abbrev pub Admitted : Parsers → Phase → ParsedResponse → Type 0
Admitted parsers phase tool_call = Unit
Admitted parsers phase invalid = Unit
Admitted parsers phase (claim_submission cs) =
    (is_gather phase ≡ true) × (text : String) × (parsers.claims_of text ≡ some cs)
Admitted parsers phase (evidence_summary s) =
    (is_gather phase ≡ true) × (text : String) × (parsers.summary_of text ≡ some s)
Admitted parsers phase (reflection r) =
    (phase ≡ reconsider_reflect) × (text : String) × (parsers.reflection_of text ≡ some r)
Admitted parsers phase (vote v) =
    (phase ≡ vote_phase)
    × (text : String) × (w : Vote) × (parsers.vote_of text ≡ some w)
    × (v ≡ normalize_vote_confidence parsers.floats w)

module _ (parsers : Parsers) where
  as_summary-Admitted :
      (phase : Phase) (content : String)
      → is_gather phase ≡ true
      → Admitted parsers phase (as_summary parsers content)
  unfolding as_summary
  as_summary-Admitted phase content e = elim (Option-cases (parsers.summary_of content)) [
    | inl n ↦ rw (Admitted, n) tt
    | inr (s, n) ↦ rw (Admitted, n) (e, content, n)
  ]

  as_vote-Admitted : (content : String) → Admitted parsers vote_phase (as_vote parsers content)
  unfolding as_vote
  as_vote-Admitted content = elim (Option-cases (parsers.vote_of content)) [
    | inl n ↦ rw (Admitted, n) tt
    | inr (v, n) ↦ rw (Admitted, n) (refl, content, v, n, refl)
  ]

  by_phase-Admitted :
      (phase : Phase) (content : String) → Admitted parsers phase (by_phase parsers phase content)
  unfolding by_phase as_reflection
  by_phase-Admitted gather content = as_summary-Admitted gather content refl
  by_phase-Admitted reconsider_gather content = as_summary-Admitted reconsider_gather content refl
  by_phase-Admitted reconsider_reflect content =
      elim (Option-cases (parsers.reflection_of content)) [
        | inl n ↦ rw (Admitted, n) tt
        | inr (r, n) ↦ rw (Admitted, n) (refl, content, n)
      ]
  by_phase-Admitted vote_phase content = as_vote-Admitted content
  by_phase-Admitted (unknown_phase text) content = tt

  vote_typed-Admitted :
      (phase : Phase) (content : String)
      → is_vote_phase parsers phase ≡ true
      → Admitted parsers phase (as_vote parsers content)
  vote_typed-Admitted gather content e = absurd (ground arith)
  vote_typed-Admitted reconsider_gather content e = absurd (ground arith)
  vote_typed-Admitted reconsider_reflect content e = absurd (ground arith)
  vote_typed-Admitted vote_phase content e = as_vote-Admitted content
  vote_typed-Admitted (unknown_phase text) content e = absurd (ground arith)

  claims-Admitted :
      (phase : Phase) (original : String)
      → is_gather phase ≡ true
      → Admitted parsers phase
          (elim (parsers.claims_of original) [ none ↦ invalid | some cs ↦ claim_submission cs ])
  claims-Admitted phase original e = elim (Option-cases (parsers.claims_of original)) [
    | inl n ↦ rw (Admitted, n) tt
    | inr (cs, n) ↦ rw (Admitted, n) (e, original, n)
  ]

  by_type-Admitted :
      (type_name : String) (phase : Phase) (original content : String)
      → Admitted parsers phase (by_type parsers type_name phase original content)
  unfolding by_type
  by_type-Admitted type_name phase original content =
      elim (Bool-cases (str_eq type_name "claim_submission" && is_gather phase)) [
        | inl e ↦ rw (e) (claims-Admitted phase original (ground arith))
        | inr e ↦ elim (Bool-cases (str_eq type_name "evidence_summary" && is_gather phase)) [
          | inl e' ↦ rw (e, e') (as_summary-Admitted phase content (ground arith))
          | inr e' ↦ elim (Bool-cases (str_eq type_name "vote" && is_vote_phase parsers phase)) [
            | inl e'' ↦ rw (e, e', e'') (vote_typed-Admitted phase content (ground arith))
            | inr e'' ↦ rw (e, e', e'') tt
          ]
        ]
      ]

  routed-Admitted :
      (type_name : Option String) (phase : Phase) (original content : String)
      → Admitted parsers phase (routed parsers type_name phase original content)
  unfolding routed
  routed-Admitted none phase original content = tt
  routed-Admitted (some type_name) phase original content =
      elim (Bool-cases (str_eq type_name "")) [
        | inl e ↦ rw (e) tt
        | inr e ↦ rw (e) (by_type-Admitted type_name phase original content)
      ]

  or_by_phase-Admitted :
      (phase : Phase) (first second : ParsedResponse)
      → Admitted parsers phase first
      → Admitted parsers phase second
      → Admitted parsers phase (or_by_phase parsers first second)
  or_by_phase-Admitted phase tool_call second a b = a
  or_by_phase-Admitted phase invalid second a b = b
  or_by_phase-Admitted phase (claim_submission cs) second a b = a
  or_by_phase-Admitted phase (evidence_summary s) second a b = a
  or_by_phase-Admitted phase (reflection r) second a b = a
  or_by_phase-Admitted phase (vote v) second a b = a

  -- A summary or a submission of claims is read in a gather phase only, a reflection only where one
  -- is asked for, and a vote only in the vote phase. Each is a value that its validator accepted, and
  -- the confidence of a vote is normalized.
  pub parse_response-Admitted :
      (resp : Answer) (phase : Phase) → Admitted parsers phase (parse_response parsers resp phase)
  unfolding parse_response parse_content
  parse_response-Admitted resp phase = elim (Bool-cases (is_empty resp.tool_calls)) [
    | inr e ↦ rw (e) tt
    | inl e ↦ rw (e) (
        or_by_phase-Admitted phase _ _
          (routed-Admitted (parsers.discriminator resp.content) phase resp.content
            (strip_discriminator_type parsers resp.content))
          (by_phase-Admitted phase (strip_discriminator_type parsers resp.content)))
  ]
