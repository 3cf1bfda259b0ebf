-- ===== src/Schema.antt =====
-- The tables behind internal/infra/postgres/client.go, a list of rows each. A column that may be
-- NULL is an `Option`; a status column is a data type with the values that the code names, and
-- `other` for the rest.
use emailservice_worker.Prelude.{ℕ, ℤ, String, Bool, Option, List, []}
use emailservice_worker.Types.{Json}

-- email_sends.status and campaign_recipients.status
pub data SendStatus : Type 0 where
  queued sending sent failed bounced : SendStatus
  other : String → SendStatus

pub record EmailSendRow : Type 0 where
  pub send_id : String
  pub workspace_id : String
  pub status : SendStatus
  pub provider_message_id : Option String
  pub failure_reason : Option String
  pub updated_at : ℕ

pub record RecipientRow : Type 0 where
  pub id : String
  pub campaign_id : String
  pub workspace_id : String
  pub contact_id : String
  pub email : String
  pub name : String
  pub status : SendStatus
  pub provider_message_id : Option String
  pub failure_reason : Option String
  pub sent_at : Option ℕ
  pub updated_at : ℕ

pub data CampaignStatus : Type 0 where
  scheduled queued sending completed failed : CampaignStatus
  other : String → CampaignStatus

pub record CampaignRow : Type 0 where
  pub id : String
  pub workspace_id : String
  pub status : CampaignStatus
  pub segment_id : Option String
  pub sender_email : Option String
  pub sender_name : Option String
  pub reply_to : Option String
  pub subject : Option String
  pub html_body : Option String
  pub text_body : Option String
  pub total_recipients : ℕ
  pub sent_count : ℕ
  pub failed_count : ℕ
  pub failure_reason : Option String
  pub started_at : Option ℕ
  pub completed_at : Option ℕ
  pub scheduled_at : Option ℕ
  pub deleted_at : Option ℕ
  pub updated_at : ℕ

pub data DomainStatus : Type 0 where
  pending verifying verified failed deleting deleted : DomainStatus
  other : String → DomainStatus

pub record DomainRow : Type 0 where
  pub id : String
  pub workspace_id : String
  pub domain : String
  pub status : DomainStatus
  pub verified_at : Option ℕ
  pub verification_attempts : ℕ
  pub last_verification_check_at : Option ℕ
  pub verification_started_at : Option ℕ
  pub deleted_at : Option ℕ
  pub updated_at : ℕ

-- The columns of workspaces and users that the joins read.
pub record WorkspaceRow : Type 0 where
  pub id : String
  pub owner_user_id : String

pub record UserRow : Type 0 where
  pub id : String
  pub email : String
  pub first_name : Option String

pub record MembershipRow : Type 0 where
  pub segment_id : String
  pub workspace_id : String
  pub contact_id : String

-- A row of segments; `filter_tree` is the JSON text.
pub record SegmentRecord : Type 0 where
  pub id : String
  pub workspace_id : String
  pub name : String
  pub filter_tree : Option String
  pub status : Option String
  pub contact_count : ℕ
  pub last_computed : Option ℕ
  pub updated_at : ℕ

-- A row of contacts; `properties` is the JSON text.
pub record ContactRecord : Type 0 where
  pub id : String
  pub workspace_id : String
  pub user_id : Option String
  pub anonymous_id : Option String
  pub email : Option String
  pub first_name : Option String
  pub last_name : Option String
  pub phone : Option String
  pub lifecycle_stage : Option String
  pub lead_score : Option ℤ
  pub properties : Option String
  pub traits : Option Json
  pub status : String
  pub is_suppressed : Option Bool
  pub is_email_valid : Option Bool
  pub created_at : ℕ
  pub updated_at : ℕ
  pub deleted_at : Option ℕ

-- A row of events_raw.
pub record RawEventRecord : Type 0 where
  pub id : String
  pub workspace_id : String
  pub status : String
  pub attempts : Option ℕ
  pub failure_reason : Option String
  pub created_at : ℕ
  pub processed_at : Option ℕ
  pub updated_at : ℕ

-- A row of events_enriched.
pub record EnrichedRecord : Type 0 where
  pub workspace_id : String
  pub raw_event_id : String
  pub contact_id : Option String
  pub user_id : Option String
  pub anonymous_id : Option String
  pub event_type : String
  pub event_name : String
  pub properties : Json
  pub traits : Json
  pub context : Json
  pub enriched_data : Json
  pub created_at : ℕ

-- A row of workflow_triggers.
pub record TriggerRecord : Type 0 where
  pub workspace_id : String
  pub workflow_id : String
  pub event_type : Option String
  pub event_name : Option String
  pub active : Bool

-- A row of workflows; `nodes` is the JSON text.
pub record WorkflowRecord : Type 0 where
  pub id : String
  pub workspace_id : String
  pub status : Option String
  pub nodes : Option String

-- A row of workflow_executions.
pub record ExecutionRecord : Type 0 where
  pub id : String
  pub workflow_id : String
  pub workspace_id : String
  pub contact_id : String
  pub trigger_event_id : String
  pub status : String
  pub current_node_id : Option String
  pub next_run_at : Option ℕ
  pub retry_count : Option ℕ
  pub failure_reason : Option String
  pub completed_at : Option ℕ
  pub updated_at : ℕ

-- A row of audit_logs.
pub record AuditLogRecord : Type 0 where
  pub id : String
  pub created_at : ℕ

pub record Database : Type 0 where
  pub email_sends : List EmailSendRow
  pub campaign_recipients : List RecipientRow
  pub campaigns : List CampaignRow
  pub domains : List DomainRow
  pub workspaces : List WorkspaceRow
  pub users : List UserRow
  pub segments : List SegmentRecord
  pub segment_memberships : List MembershipRow
  pub contacts : List ContactRecord
  pub events_raw : List RawEventRecord
  pub events_enriched : List EnrichedRecord
  pub workflow_triggers : List TriggerRecord
  pub workflows : List WorkflowRecord
  pub workflow_executions : List ExecutionRecord
  pub audit_logs : List AuditLogRecord

abbrev pub empty_database : Database
empty_database = record {
  email_sends = [];
  campaign_recipients = [];
  campaigns = [];
  domains = [];
  workspaces = [];
  users = [];
  segments = [];
  segment_memberships = [];
  contacts = [];
  events_raw = [];
  events_enriched = [];
  workflow_triggers = [];
  workflows = [];
  workflow_executions = [];
  audit_logs = [];
}
