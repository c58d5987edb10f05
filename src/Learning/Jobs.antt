-- ===== src/Learning/Jobs.antt =====
-- iris/runtime/learning/jobs.py: the job record and its enumerations.
use iris_mind_v.Prelude.{ℕ, Text, text, Option, Eq, Bool}
use iris_mind_v.Model.{ModelCallDescriptor}

-- An instant, in microseconds.
abbrev pub Time : Type 0
Time = ℕ

pub data BackgroundJobStatus : Type 0 where
  pending leased succeeded failed_retryable failed_permanent cancelled : BackgroundJobStatus

pub BackgroundJobStatus-discrete : Discrete BackgroundJobStatus
BackgroundJobStatus-discrete = hlevel

instance abbrev pub job_status_eq : Eq BackgroundJobStatus
job_status_eq = record { dec = BackgroundJobStatus-discrete }

pub data BackgroundJobKind : Type 0 where
  memory_extraction memory_consolidation relationship_update : BackgroundJobKind
  interaction_policy_candidate persona_patch_proposal : BackgroundJobKind
  episodic_to_semantic_promotion reflection langmem_extraction : BackgroundJobKind

pub BackgroundJobKind-discrete : Discrete BackgroundJobKind
BackgroundJobKind-discrete = hlevel

instance abbrev pub job_kind_eq : Eq BackgroundJobKind
job_kind_eq = record { dec = BackgroundJobKind-discrete }

-- `kind.value`
unfoldable pub kind_value : BackgroundJobKind → Text
kind_value memory_extraction = text "memory_extraction"
kind_value memory_consolidation = text "memory_consolidation"
kind_value relationship_update = text "relationship_update"
kind_value interaction_policy_candidate = text "interaction_policy_candidate"
kind_value persona_patch_proposal = text "persona_patch_proposal"
kind_value episodic_to_semantic_promotion = text "episodic_to_semantic_promotion"
kind_value reflection = text "reflection"
kind_value langmem_extraction = text "langmem_extraction"

pub record BackgroundJobResourceProfile : Type 0 where
  pub uses_llm : Bool
  pub idle_only : Bool
  pub model_call_descriptor : Option ModelCallDescriptor

pub record BackgroundJobRecord (Payload : Type 0) : Type 0 where
  pub job_id : Text
  pub kind : BackgroundJobKind
  pub payload : Payload
  pub status : BackgroundJobStatus
  pub attempts : ℕ
  pub max_attempts : ℕ
  pub not_before : Time
  pub resource_profile : BackgroundJobResourceProfile
  pub leased_until : Option Time
  pub idempotency_key : Text
  pub created_at : Time
  pub updated_at : Time
  pub last_error : Option Text
  pub defer_reason : Option Text
