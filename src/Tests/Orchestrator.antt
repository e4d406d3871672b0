-- ===== src/Tests/Orchestrator.antt =====
-- The theorems on the orchestrator, for one content, one channel and an operator of the center.
use gachinol.Prelude.{◌≡◌, refl, true, [], ◌∷◌, string_eq}
use gachinol.Shared.ContentStatus.{center_approved, publishing}
use gachinol.Api.Exec.{ok, err, conflict}
use gachinol.Api.Users.{User, center_operator}
use gachinol.Api.Contents.Workflow.Audit.{Audited, Audited-order}
use gachinol.Api.Distribution.Jobs.{Desk}
use gachinol.Api.Distribution.Orchestrator.{distribute}
use gachinol.Api.Distribution.Requests.{distribute_request, retry_request, serve_all}
use gachinol.Api.Distribution.RequestsKeep.{serve_all-Audited}
use gachinol.Api.Distribution.Refusals.{distribute-refusal}
use gachinol.Tests.Distribution.{kakao, market_audience}
use gachinol.Tests.Pipeline.{outside, system_at, outside_obeys}

abbrev operator : User
operator = record { id = "op"; role = center_operator }

abbrev desk : Desk
desk = record {
  accounts = λ s. kakao ∷ [];
  audience = λ id. market_audience;
  queue = true;
  digest = λ ids. "0123456789ab";
  has_adapter = λ platform. true;
  adapter_retract = λ platform channel post credential. ok tt;
}

-- A distribution takes the content to publishing, and the second one is a conflict.
serve_all-Audited_example :
    Audited
      (system_at center_approved).db
      (serve_all outside desk
        (distribute_request "market" operator []
          ∷ distribute_request "market" operator []
          ∷ retry_request "p9" operator
          ∷ [])
        (system_at center_approved)).1.db
serve_all-Audited_example =
    serve_all-Audited outside desk
      (distribute_request "market" operator []
        ∷ distribute_request "market" operator []
        ∷ retry_request "p9" operator
        ∷ [])
      (system_at center_approved) (outside_obeys Audited Audited-order.reflexive)

distribute-refusal_example :
    distribute outside desk "market" operator [] (system_at publishing)
    ≡ (err conflict, system_at publishing)
distribute-refusal_example =
    distribute-refusal outside desk "market" operator [] (system_at publishing) conflict refl refl
