-- ===== src/Api/Contents/Workflow.antt =====
-- services/api/src/contents/content-workflow.service.ts: the one gate for transitions of contents.
pub mod Guards
pub mod Policy
pub mod Hop
pub mod HopLaws
pub mod HopOutcome
pub mod Revisions
pub mod RevisionLaws
pub mod Redelivery
pub mod Operations
pub mod InTransaction
pub mod Trail
pub mod Audit
pub mod Discipline
pub mod AuditHop
pub mod Methods
pub mod MethodsInTransaction
pub mod Requests
pub mod Schedules
pub mod AuditRun
pub mod Release
pub mod Approval
pub mod ApprovalAlone
pub mod ReleaseRun
