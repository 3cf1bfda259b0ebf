-- ===== src/Types.antt =====
-- pkg/types/nats_payloads.go: the messages on the queues. An absent JSON field and an empty one are
-- the same text "", as in Go. Times are milliseconds.
use emailservice_worker.Prelude.{ℕ, String, Bool, Option, List}

-- A decoded JSON value (`interface{}`). A number is the bit pattern of its float64.
mutual
  pub data Json : Type 0 where
    null : Json
    boolean : Bool → Json
    number : ℕ → Json
    text : String → Json
    array : Items → Json
    object : Fields → Json

  pub data Items : Type 0 where
    nil : Items
    cons : Json → Items → Items

  pub data Fields : Type 0 where
    end : Fields
    field : String → Json → Fields → Fields

pub record DomainVerifyPayload : Type 0 where
  pub domain_id : String
  pub workspace_id : String
  pub domain : String

pub record EmailAddress : Type 0 where
  pub email : String
  pub name : String

pub record TransactionalEmailPayload : Type 0 where
  pub job_id : String
  pub workspace_id : String
  pub send_id : String
  pub to : List EmailAddress
  pub from : EmailAddress
  pub reply_to : String
  pub subject : String
  pub html : String
  pub text : String
  pub tags : List (String × String)
  pub provider : String

pub record CampaignStartPayload : Type 0 where
  pub job_id : String
  pub workspace_id : String
  pub campaign_id : String
  pub segment_id : String
  pub sender : EmailAddress
  pub reply_to : String
  pub subject : String
  pub html : String
  pub text : String

pub record CampaignChunkRecipient : Type 0 where
  pub recipient_id : String
  pub email : String
  pub name : String

pub record CampaignChunkPayload : Type 0 where
  pub campaign_id : String
  pub workspace_id : String
  pub chunk_id : String
  pub sender : EmailAddress
  pub reply_to : String
  pub subject : String
  pub html : String
  pub text : String
  pub recipients : List CampaignChunkRecipient

pub record EmailDeliveryEvent : Type 0 where
  pub workspace_id : String
  pub send_id : String
  pub campaign_id : String
  pub recipient_email : String
  pub provider_message_id : String
  pub status : String
  pub reason : String
  pub timestamp : ℕ

-- The message on `email.send.dlq` (internal/worker/email/handler.go).
pub record EmailDlqMessage : Type 0 where
  pub payload : TransactionalEmailPayload
  pub reason : String
  pub attempts : ℕ
  pub timestamp : ℕ

pub record CampaignDlqMessage : Type 0 where
  pub payload : CampaignChunkPayload
  pub reason : String
  pub attempts : ℕ
  pub timestamp : ℕ

-- A map may be nil.
pub record RawEventPayload : Type 0 where
  pub event_id : String
  pub workspace_id : String
  pub api_key_id : String
  pub event_type : String
  pub event_name : String
  pub user_id : String
  pub anonymous_id : String
  pub group_id : String
  pub traits : Option Fields
  pub properties : Option Fields
  pub context : Option Fields
  pub received_at : ℕ

pub record WorkflowTriggerPayload : Type 0 where
  pub workspace_id : String
  pub workflow_id : String
  pub contact_id : String
  pub event_name : String
  pub event_id : String

pub record WorkflowRegisterPayload : Type 0 where
  pub workspace_id : String
  pub workflow_id : String

pub record SegmentRefreshPayload : Type 0 where
  pub workspace_id : String
  pub segment_id : String

-- What the workers publish: one constructor for each type that is handed to `Publish`. `notice` is
-- a `map[string]any` of texts, and `attempt_notice` one with the attempt's number beside them.
pub data Payload : Type 0 where
  delivery : EmailDeliveryEvent → Payload
  email_dlq : EmailDlqMessage → Payload
  campaign_start : CampaignStartPayload → Payload
  campaign_chunk : CampaignChunkPayload → Payload
  campaign_dlq : CampaignDlqMessage → Payload
  email_job : TransactionalEmailPayload → Payload
  workflow_trigger : WorkflowTriggerPayload → Payload
  notice : List (String × String) → Payload
  attempt_notice : List (String × String) → ℕ → Payload
