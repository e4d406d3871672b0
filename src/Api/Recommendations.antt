-- ===== src/Api/Recommendations.antt =====
-- services/api/src/recommendations: weekly recommendations.
pub mod Workflow
pub mod WorkflowLaws
pub mod Week
pub mod WeekLaws
