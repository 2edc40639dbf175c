-- ===== src/Evaluation/Evidence/Sound.antt =====
-- What the readers of a field give reads back the same, and an envelope passes its own tests.
use evo_harness_preview.Prelude.{
  ℕ, suc, String, ◌≡◌, refl, Bool, true, false, Option, none, some, List, arith,
}
use evo_harness_preview.Evaluation.Faults.{
  Raised, overflow_error, ok, raise, refuse_if, >>=-eq-ok, Ensures, Ensures-bind, ensured,
}
use evo_harness_preview.Evaluation.Values.{
  Value, Items, Float, ℤ, pos, negsuc, finite, infinite, nan, null, int, float, str, no_items, item,
  float_of_int, float_of_magnitude, strict_bool, optional_bool, optional_finite_float, freeze_json,
  thaw_json,
}
use evo_harness_preview.Evaluation.Values.Freezing.{freeze_json-thaw_json}
use evo_harness_preview.Evaluation.Namespace.{strict_text}
use evo_harness_preview.Evaluation.Evidence.{
  Draft, EvidenceEnvelope, of_float, of_text, of_texts, read_budget, read_artifacts_ref,
  read_reasons, check_verdict, read_verifier, check_objective, read_fields, check_fields,
  normalize_and_validate_evidence,
}

strict_text_again : (v : Value) {t : String} → strict_text v ≡ ok t → strict_text (str t) ≡ ok t
unfolding strict_text
strict_text_again (str t) h = ground arith
strict_text_again null h = cc
strict_text_again _ h = cc

-- What a guard lets pass.
passed : {A : Type 0} (b : Bool) (e : Raised) (y x : A) → refuse_if b e (ok y) ≡ ok x → y ≡ x
passed true e y x h = cc
passed false e y x h = ground arith

-- A float that an int is read as is finite, and its sign is the int's.
float_of_magnitude_lem :
    (b : Bool) (n : ℕ) {x : Float} → float_of_magnitude b n ≡ ok x → (k : ℕ) × (finite b k ≡ x)
unfolding float_of_magnitude
float_of_magnitude_lem b n h = (_, passed _ overflow_error (finite b _) _ h)

pub float_of_int_lem :
    (n : ℤ) {x : Float} → float_of_int n ≡ ok x → (b : Bool) × (k : ℕ) × (finite b k ≡ x)
unfolding float_of_int
float_of_int_lem (pos n) h = let (k, e) = float_of_magnitude_lem false n h in (false, k, e)
float_of_int_lem (negsuc n) h = let (k, e) = float_of_magnitude_lem true (suc n) h in (true, k, e)

optional_finite_float_again :
    (v : Value) {x : Option Float}
    → optional_finite_float v ≡ ok x
    → optional_finite_float (of_float x) ≡ ok x
unfolding optional_finite_float
optional_finite_float_again null h = ground arith
optional_finite_float_again (int n) h =
    let (x, p, q) = >>=-eq-ok (float_of_int n) (λ x. ok (some x)) h in
    let (b, k, e) = float_of_int_lem n p in ground arith
optional_finite_float_again (float (finite b n)) h = ground arith
optional_finite_float_again (float (infinite b)) h = cc
optional_finite_float_again (float nan) h = cc
optional_finite_float_again _ h = cc

-- A budget that was read is a finite float, which reads as itself.
read_budget_again :
    (v : Value) {x : Float}
    → read_budget v ≡ ok x
    → (read_budget (float x) ≡ ok x) × (optional_finite_float (float x) ≡ ok (some x))
unfolding read_budget optional_finite_float float_of_int float_of_magnitude
read_budget_again (int (pos n)) h = let (k, e) = float_of_magnitude_lem false n h in ground arith
read_budget_again (int (negsuc n)) h =
    let (x, p, q) = >>=-eq-ok (float_of_int (negsuc n)) (λ _. raise _) h in cc
read_budget_again (float (finite b n)) h = ground arith
read_budget_again (float (infinite b)) h = cc
read_budget_again (float nan) h = cc
read_budget_again null h = cc
read_budget_again _ h = cc

read_artifacts_ref_again :
    (v : Value) {o : Option String}
    → read_artifacts_ref v ≡ ok o
    → read_artifacts_ref (of_text o) ≡ ok o
unfolding read_artifacts_ref
read_artifacts_ref_again null h = ground arith
read_artifacts_ref_again (str s) h =
    let (t, p, q) = >>=-eq-ok (strict_text (str s)) (λ t. ok (some t)) h in
    ground (arith, strict_text_again (str s) p)
read_artifacts_ref_again _ h = unfold strict_text in cc

read_reasons_again :
    (vs : Items) {ts : List String} → read_reasons vs ≡ ok ts → read_reasons (of_texts ts) ≡ ok ts
unfolding read_reasons
read_reasons_again no_items h = ground arith
read_reasons_again (item v vs) h =
    let (t, p, q) = >>=-eq-ok (strict_text v) _ h in
    let (ts, p', q') = >>=-eq-ok (read_reasons vs) _ q in
    ground (arith, strict_text_again v p, read_reasons_again vs p')

read_verifier_again :
    (objective : Option Bool) (v : Value) {o : Option String}
    → read_verifier objective v ≡ ok o
    → read_verifier objective (of_text o) ≡ ok o
unfolding read_verifier
read_verifier_again none null h = ground arith
read_verifier_again none _ h = cc
read_verifier_again (some b) (str t) h = ground arith
read_verifier_again (some b) null h = cc
read_verifier_again (some b) _ h = cc

-- Every field but the verifier reads as itself, and the namespace and the coverage are given.
pub record Reads (d : Draft) (e : EvidenceEnvelope) : Type 0 where
  pub candidate_id : strict_text (str e.candidate_id) ≡ ok e.candidate_id
  pub fitness : optional_finite_float (of_float e.fitness) ≡ ok e.fitness
  pub budget : read_budget (float e.budget_used_usd) ≡ ok e.budget_used_usd
  pub finite_budget : optional_finite_float (float e.budget_used_usd) ≡ ok (some e.budget_used_usd)
  pub artifacts_ref : read_artifacts_ref (of_text e.artifacts_ref) ≡ ok e.artifacts_ref
  pub reasons : read_reasons (of_texts e.missing_reasons) ≡ ok e.missing_reasons
  pub observations : freeze_json (thaw_json e.observations) ≡ ok e.observations
  pub provenance : freeze_json (thaw_json e.provenance) ≡ ok e.provenance
  pub namespace : e.namespace ≡ d.namespace
  pub coverage : e.coverage ≡ d.coverage

-- The fields pass the tests together.
pub record Checks (e : EvidenceEnvelope) : Type 0 where
  pub verdict :
      check_verdict e.evaluation_valid e.admissible e.fitness e.fault_kind e.missing_reasons
        e.objective_met
      ≡ ok tt
  pub verifier :
      read_verifier e.objective_met (of_text e.objective_verifier_hash)
      ≡ ok e.objective_verifier_hash
  pub objective :
      check_objective e.evaluation_valid e.admissible e.fault_kind e.coverage e.objective_met
      ≡ ok tt

-- The identity and the verifier are no fields that are read.
pub Reads-with :
    (d : Draft) (e : EvidenceEnvelope) (id : String) (verifier : Option String)
    → Reads d e
    → Reads d (record e { evidence_id = id; objective_verifier_hash = verifier })
Reads-with d e id verifier r = record {
  candidate_id = r.candidate_id;
  fitness = r.fitness;
  budget = r.budget;
  finite_budget = r.finite_budget;
  artifacts_ref = r.artifacts_ref;
  reasons = r.reasons;
  observations = r.observations;
  provenance = r.provenance;
  namespace = r.namespace;
  coverage = r.coverage;
}

pub Checks-with :
    (e : EvidenceEnvelope) (id : String) → Checks e → Checks (record e { evidence_id = id })
Checks-with e id c = record { verdict = c.verdict; verifier = c.verifier; objective = c.objective }

read_fields-Reads : (d : Draft) → Ensures (Reads d) (read_fields d)
unfolding read_fields
read_fields-Reads d = Ensures-bind (Reads d) (strict_text d.candidate_id) _ λ candidate_id p0.
    Ensures-bind (Reads d) (strict_bool d.evaluation_valid) _ λ evaluation_valid p1.
      Ensures-bind (Reads d) (optional_bool d.admissible) _ λ admissible p2.
        Ensures-bind (Reads d) (optional_bool d.objective_met) _ λ objective_met p3.
          Ensures-bind (Reads d) (optional_finite_float d.fitness) _ λ fitness p4.
            Ensures-bind (Reads d) (read_budget d.budget_used_usd) _ λ budget p5.
              Ensures-bind (Reads d) (read_artifacts_ref d.artifacts_ref) _ λ artifacts_ref p6.
                Ensures-bind (Reads d) (read_reasons d.missing_reasons) _ λ reasons p7.
                  Ensures-bind (Reads d) (freeze_json d.observations) _ λ observations p8.
                    Ensures-bind (Reads d) (freeze_json d.provenance) _ λ provenance p9. record {
                      candidate_id = strict_text_again d.candidate_id p0;
                      fitness = optional_finite_float_again d.fitness p4;
                      budget = (read_budget_again d.budget_used_usd p5).0;
                      finite_budget = (read_budget_again d.budget_used_usd p5).1;
                      artifacts_ref = read_artifacts_ref_again d.artifacts_ref p6;
                      reasons = read_reasons_again d.missing_reasons p7;
                      observations = freeze_json-thaw_json d.observations observations p8;
                      provenance = freeze_json-thaw_json d.provenance provenance p9;
                      namespace = refl;
                      coverage = refl;
                    }

-- The tests write the verifier alone.
check_fields-Checks :
    (d : Draft) (v : Value) (e : EvidenceEnvelope)
    → Reads d e
    → Ensures (λ e'. Checks e' × Reads d e') (check_fields v e)
unfolding check_fields
check_fields-Checks d v e r =
    let P : EvidenceEnvelope → Type 0 = λ e'. Checks e' × Reads d e' in
    Ensures-bind P
      (check_verdict e.evaluation_valid e.admissible e.fitness e.fault_kind e.missing_reasons
        e.objective_met)
      _
      λ u p0. Ensures-bind P (read_verifier e.objective_met v) _ λ verifier p1.
        Ensures-bind P
          (check_objective e.evaluation_valid e.admissible e.fault_kind e.coverage e.objective_met)
          _
          λ u' p2. (
            record {
              verdict = p0;
              verifier = read_verifier_again e.objective_met v p1;
              objective = p2;
            },
            Reads-with d e e.evidence_id verifier r,
          )

-- An envelope that the tests let pass.
pub normalize-Checks :
    (d : Draft) {e : EvidenceEnvelope}
    → normalize_and_validate_evidence d ≡ ok e
    → Checks e × Reads d e
unfolding normalize_and_validate_evidence
normalize-Checks d {e} h =
    let (e', p, q) = >>=-eq-ok (read_fields d) (check_fields d.objective_verifier_hash) h in
    ensured _ _
      (check_fields-Checks d d.objective_verifier_hash e'
        (ensured (Reads d) _ (read_fields-Reads d) p))
      q
