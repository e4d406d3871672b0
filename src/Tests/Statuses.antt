-- ===== src/Tests/Statuses.antt =====
-- The laws of the content state machine at single states.
use gachinol.Prelude.{◌≡◌, refl, ◌↔◌, ◌⊎◌, true}
use gachinol.Shared.StateMachine.{is_terminal_state}
use gachinol.Shared.ContentStatus.{
  preview_failed, preview_generating, regeneration_failed, canceled, rejected, archived,
  content_status_transitions, can_transition_content, content_retry_target, is_failure_status,
}
use gachinol.Shared.ContentStatus.Laws.{
  FromDraft, CanPublish, every_status-FromDraft, open_status-CanPublish, terminal_iff,
  retry_target-allowed,
}

every_status-FromDraft_example : FromDraft regeneration_failed
every_status-FromDraft_example = every_status-FromDraft regeneration_failed

open_status-CanPublish_example : CanPublish regeneration_failed
open_status-CanPublish_example = open_status-CanPublish regeneration_failed refl

terminal_iff_example :
    (is_terminal_state content_status_transitions archived ≡ true)
    ↔ ((archived ≡ rejected) ⊎ (archived ≡ canceled) ⊎ (archived ≡ archived))
terminal_iff_example = terminal_iff archived

retry_target-allowed_example :
    (can_transition_content preview_failed preview_generating ≡ true)
    × (can_transition_content preview_failed canceled ≡ true)
    × (is_failure_status preview_failed ≡ true)
unfolding content_retry_target
retry_target-allowed_example = retry_target-allowed preview_failed preview_generating refl
