-- ===== src/Orchestration/Ballots.antt =====
-- backend/domain/orchestration/failure_policy.go, and the ballot helpers of orchestrator.go and
-- dispatcher.go. A nil pointer is `none`.
pub mod Laws
use magi_system.Prelude.{
  ℕ, suc, ◌+◌, String, GoError, deadline_exceeded, canceled, errors_is, Bool, true, false, ◌&&◌,
  ◌||◌, Option, none, some, List, [], ◌∷◌, if◌then◌else◌, get_elem?, length,
}
use magi_system.Entity.Vote.{
  Vote, VoteDecision, MagiCode, AgentAbsence, AbsenceKind, agent_failed, timeout, cancelled,
  missing, invalid, AbsenceReason, no_result, no_final_ballot, loop_failure, invalid_decision,
  is_valid_vote_decision,
}
use magi_system.Runtime.Result.{LoopStatus, LoopResult, loop_failure_reason, is_completed_status}

-- The part of `entity.MagiConfig` that the orchestrator reads.
pub record MagiConfig : Type 0 where
  pub code : MagiCode
  pub require_justification : Bool
  pub require_new_evidence : Bool

-- Exactly one of the two results of `Classify` is not nil.
pub data Classified : Type 0 where
  ballot : Vote → Classified
  absence : AgentAbsence → Classified

abbrev is_cancelled_status : LoopStatus → Bool
is_cancelled_status LoopStatus.cancelled = true
is_cancelled_status _ = false

abbrev err_is : Option GoError → GoError → Bool
err_is none target = false
err_is (some e) target = errors_is e target

unfoldable pub absence_kind : LoopResult → AbsenceKind
unfolding errors_is
absence_kind r =
    if err_is r.err deadline_exceeded
    then timeout
    else if err_is r.err canceled || is_cancelled_status r.status
    then cancelled
    else agent_failed

abbrev has_failed : LoopResult → Bool
has_failed r = elim (r.err) [
  | some e ↦ true
  | none ↦ elim (is_completed_status r.status) [ true ↦ false | false ↦ true ]
]

-- The agent code is filled in by `collect_ballots`.
abbrev pub no_code : MagiCode
no_code = MagiCode.other ""

absent_by : AbsenceKind → AbsenceReason → Classified
absent_by k r = absence (record { agent_code = no_code; kind = k; reason = r })

classify_vote : Option Vote → Classified
unfolding absent_by is_valid_vote_decision
classify_vote none = absent_by missing no_final_ballot
classify_vote (some v) =
    if is_valid_vote_decision v.decision
    then ballot v
    else absent_by invalid (invalid_decision v.decision)

-- `FailurePolicy.Classify`
unfoldable pub classify : Option LoopResult → Classified
unfolding classify_vote absent_by absence_kind loop_failure_reason is_completed_status
classify none = absent_by missing no_result
classify (some r) =
    if has_failed r
    then absent_by (absence_kind r) (loop_failure (loop_failure_reason (some r)))
    else classify_vote r.vote

unfoldable pub config_at : List MagiConfig → ℕ → Option MagiConfig
config_at configs i = get_elem? configs i

unfoldable pub code_of : Option MagiConfig → MagiCode
code_of none = no_code
code_of (some c) = c.code

pub record Ballots : Type 0 where
  pub votes : List (Option Vote)
  pub absences : List AgentAbsence

abbrev add_classified : MagiCode → Classified → Ballots → Ballots
add_classified code (ballot v) rest = record rest { votes = some v ∷ rest.votes }
add_classified code (absence a) rest = record {
  votes = none ∷ rest.votes;
  absences = record a { agent_code = code } ∷ rest.absences;
}

-- The loop of `collectBallots` from index `i` on.
unfoldable pub collect_from : List MagiConfig → ℕ → List (Option LoopResult) → Ballots
unfolding config_at code_of
collect_from configs i [] = record { votes = []; absences = [] }
collect_from configs i (r ∷ rs) =
    add_classified (code_of (config_at configs i)) (classify r) (collect_from configs (suc i) rs)

unfoldable pub collect_ballots : List MagiConfig → List (Option LoopResult) → Ballots
unfolding collect_from
collect_ballots configs results = collect_from configs 0 results

unfoldable pub deref_votes : List (Option Vote) → List Vote
deref_votes [] = []
deref_votes (none ∷ vs) = deref_votes vs
deref_votes (some v ∷ vs) = v ∷ deref_votes vs

unfoldable pub ballot_count : List (Option Vote) → ℕ
ballot_count [] = 0
ballot_count (none ∷ vs) = ballot_count vs
ballot_count (some v ∷ vs) = suc (ballot_count vs)

unfoldable pub vote_ids : List (Option Vote) → List String
vote_ids [] = []
vote_ids (none ∷ vs) = vote_ids vs
vote_ids (some v ∷ vs) = v.id ∷ vote_ids vs

-- `isCompleted` of dispatcher.go
unfoldable pub is_completed : Option LoopResult → Bool
unfolding is_completed_status
is_completed none = false
is_completed (some r) =
    is_completed_status r.status
    && (elim (r.err) [ some e ↦ false | none ↦ true ]
        && elim (r.vote) [ none ↦ false | some v ↦ true ])
