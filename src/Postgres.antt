-- ===== src/Postgres.antt =====
-- internal/infra/postgres/client.go, a table to a module. A statement is a function of the time
-- `NOW()` and the database; `Effect.exec` runs it.
pub mod EmailSends
pub mod Campaigns
pub mod Recipients
pub mod Domains
pub mod DueCampaigns
pub mod Contacts
pub mod Keyset
pub mod Segments
pub mod Identity
pub mod Workflows
pub mod Events
pub mod BulkInsert
pub mod OldRows
pub mod SegmentContacts
