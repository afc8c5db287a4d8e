-- ===== src/Dag/Errors.antt =====
-- `validateDag` step by step: which check reports what.
use swarm_x.Common.{
  length, throw_if, if◌then◌else◌, ◌⊎◌, ◌≡◌, ◌≢◌, subst, Bool, List, [], ◌∷◌, ◌==◌, includes, arith,
  Bool-cases, inl, inr, ok, err, >>=-eq-ok, >>=-eq-err,
}
use swarm_x.Task.{Ident}
use swarm_x.Dag.{DagStage, WorkloadDagDescriptor}
use swarm_x.Dag.Validate.{
  no_stages, missing_dag_id, input_ids, missing_artifact, missing_stage, Names, collect_names,
  DagValidationError, check_references, cyclic_stages, search_unfinished, detect_cycles,
  validate_dag, all_known, missing_output,
}

-- The other checks report neither a cycle nor an unfinished search.
abbrev pub IsOther : DagValidationError → Type 0
IsOther why = (why ≢ search_unfinished) × ((path : List Ident) → why ≢ cyclic_stages path)

all_known-IsOther :
    (known refs : List Ident) (error : Ident → DagValidationError) (why : DagValidationError)
    → ((r : Ident) → IsOther (error r))
    → all_known known error refs ≡ err why
    → IsOther why
unfolding all_known
all_known-IsOther known [] error why others e = cc
all_known-IsOther known (r ∷ refs) error why others e = elim (Bool-cases (includes known r)) [
  | inl there ↦ all_known-IsOther known refs error why others (ground arith)
  | inr missing ↦ subst IsOther (ground arith) (others r)
]

check_references-IsOther :
    (names : Names) (stages : List DagStage) (why : DagValidationError)
    → check_references names stages ≡ err why
    → IsOther why
unfolding check_references
check_references-IsOther names [] why e = cc
check_references-IsOther names (stage ∷ stages) why e =
    elim (>>=-eq-err (all_known names.stage_ids (missing_stage stage.stage_id) stage.dependencies) _
      e) [
        | inl now ↦
            all_known-IsOther names.stage_ids stage.dependencies _ why (λ r. (λ h. cc, λ p h. cc))
              now
        | inr (_, _, later) ↦
            elim (>>=-eq-err
              (all_known names.produced_artifacts (missing_artifact stage.stage_id)
                stage.input_artifact_refs)
              _ later) [
                | inl now ↦
                    all_known-IsOther names.produced_artifacts stage.input_artifact_refs _ why
                      (λ r. (λ h. cc, λ p h. cc)) now
                | inr (_, _, last) ↦ check_references-IsOther names stages why last
              ]
      ]

collect_names-IsOther :
    (is_certified : Ident → Bool) (stages : List DagStage) (names : Names)
    (why : DagValidationError)
    → collect_names is_certified stages names ≡ err why
    → IsOther why
unfolding collect_names
collect_names-IsOther is_certified [] names why e = cc
collect_names-IsOther is_certified (stage ∷ stages) names why e =
    let rest =
      collect_names-IsOther is_certified stages
        (record {
          stage_ids = stage.stage_id ∷ names.stage_ids;
          produced_artifacts =
              if stage.output_artifact_ref == 0
              then names.produced_artifacts
              else stage.output_artifact_ref ∷ names.produced_artifacts;
        })
        why in
    elim (Bool-cases (stage.stage_id == 0)) [
      | inl empty ↦ (λ h. ground arith, λ p h. ground arith)
      | inr named ↦ elim (Bool-cases (includes names.stage_ids stage.stage_id)) [
        | inl twice ↦ (λ h. ground arith, λ p h. ground arith)
        | inr new ↦ elim (Bool-cases (is_certified stage.kernel_id)) [
          | inl certified ↦ rest (ground arith)
          | inr unknown ↦ (λ h. ground arith, λ p h. ground arith)
        ]
      ]
    ]

-- An error of the validation is of another check, or of the search.
pub validate_dag-eq-err :
    (is_certified : Ident → Bool) (dag : WorkloadDagDescriptor) (why : DagValidationError)
    → validate_dag is_certified dag ≡ err why
    → IsOther why ⊎ (detect_cycles dag.stages ≡ err why)
unfolding validate_dag
validate_dag-eq-err is_certified dag why e =
    elim (>>=-eq-err (throw_if (dag.dag_id == 0) missing_dag_id) _ e) [
      | inl now ↦ inl (λ h. ground arith, λ p h. ground arith)
      | inr (_, _, e1) ↦ elim (>>=-eq-err (throw_if (length dag.stages == 0) no_stages) _ e1) [
        | inl now ↦ inl (λ h. ground arith, λ p h. ground arith)
        | inr (_, _, e2) ↦ elim (>>=-eq-err (collect_names is_certified dag.stages start) _ e2) [
          | inl now ↦ inl (collect_names-IsOther is_certified dag.stages start why now)
          | inr (names, _, e3) ↦ elim (>>=-eq-err (check_references names dag.stages) _ e3) [
            | inl now ↦ inl (check_references-IsOther names dag.stages why now)
            | inr (_, _, e4) ↦ elim (>>=-eq-err (detect_cycles dag.stages) _ e4) [
              | inl now ↦ inr now
              | inr (_, _, e5) ↦ inl (
                  all_known-IsOther names.produced_artifacts dag.output_artifact_refs missing_output
                    why (λ r. (λ h. cc, λ p h. cc)) e5)
            ]
          ]
        ]
      ]
    ]
  where
    start : Names
    start = record { stage_ids = []; produced_artifacts = input_ids dag.input_artifacts }

pub validate_dag-eq-ok :
    (is_certified : Ident → Bool) (dag : WorkloadDagDescriptor)
    → validate_dag is_certified dag ≡ ok tt
    → detect_cycles dag.stages ≡ ok tt
unfolding validate_dag
validate_dag-eq-ok is_certified dag e =
    let (_, _, e1) = >>=-eq-ok (throw_if (dag.dag_id == 0) missing_dag_id) _ e in
    let (_, _, e2) = >>=-eq-ok (throw_if (length dag.stages == 0) no_stages) _ e1 in
    let (names, _, e3) =
      >>=-eq-ok
        (collect_names is_certified dag.stages
          (record { stage_ids = []; produced_artifacts = input_ids dag.input_artifacts }))
        _ e2 in
    let (_, _, e4) = >>=-eq-ok (check_references names dag.stages) _ e3 in
    let (_, searched, _) = >>=-eq-ok (detect_cycles dag.stages) _ e4 in searched
