-- ===== src/Api/Distribution/Jobs.antt =====
-- services/api/src/distribution/distribution-producer.service.ts and the id of its jobs. The message
-- of a job, `queue.remove`, whose error is dropped, and the retry options are left out.
use gachinol.Prelude.{
  ℕ, String, Bool, Option, none, some, List, [], ◌∷◌, template, decimal, if◌then◌else◌,
}
use gachinol.Api.Exec.{Result, Exec, pure, gets, ◌>>=◌, ◌>>◌}
use gachinol.Api.Contents.Database.{Content}
use gachinol.Api.Publications.Service.{Publication}
use gachinol.Api.Distribution.Channels.{ChannelAccount, Audience, Accounts, find_by_id}
use gachinol.Api.Pipeline.System.{PublishTargetItem, publish_job, AddedJob, System, Outside, pause}
use gachinol.Api.Pipeline.Producers.{job_priority, add_job}

-- What the orchestrator uses and does not write: the accounts, the columns of a content that decide
-- on its channels, whether there is a queue, the adapters of the platforms, and `digest`, the first
-- 12 digits of the hash of the sorted ids.
pub record Desk : Type 0 where
  pub accounts : System → Accounts
  pub audience : String → Audience
  pub queue : Bool
  pub digest : List String → String
  pub has_adapter : String → Bool
  pub adapter_retract : String → String → String → String → Result (Unit {0})

abbrev publication_ids : List PublishTargetItem → List String
publication_ids [] = []
publication_ids (t ∷ rest) = t.publication_id ∷ publication_ids rest

abbrev target_of : Publication → ChannelAccount → PublishTargetItem
target_of p ch = record {
  publication_id = p.id;
  platform = p.platform;
  external_channel_id = ch.external_channel_id;
  credential_ref = ch.credential_ref;
  idempotency_key = p.id;
}

abbrev with_target :
    Publication → Option ChannelAccount → List PublishTargetItem → List PublishTargetItem
with_target p none targets = targets
with_target p (some ch) targets = target_of p ch ∷ targets

-- A publication whose account is gone is passed over.
unfoldable pub targets_of : Accounts → List Publication → List PublishTargetItem
targets_of accounts [] = []
targets_of accounts (p ∷ rest) =
    with_target p (find_by_id p.channel_account_id accounts) (targets_of accounts rest)

unfoldable pub publish_job_id : (List String → String) → String → ℕ → List String → String
publish_job_id digest content_id generation ids =
    template ("publish:" ∷ content_id ∷ ":g" ∷ decimal generation ∷ "-" ∷ digest ids ∷ [])

abbrev publish_job_of : (List String → String) → Content → List PublishTargetItem → AddedJob
publish_job_of digest content targets = record {
  job_id = publish_job_id digest content.id content.generation (publication_ids targets);
  job = publish_job targets;
  priority = job_priority content.priority;
}

module _ (out : Outside) (desk : Desk) where
  abbrev pub add_targets : Content → List PublishTargetItem → Exec System (Unit {0})
  add_targets content [] = pure tt
  add_targets content (t ∷ rest) = add_job out (publish_job_of desk.digest content (t ∷ rest))

  abbrev pub pack_and_add : Content → List Publication → Exec System (Unit {0})
  pack_and_add content [] = pure tt
  pack_and_add content (p ∷ rest) = do
    pause out
    accounts ← gets desk.accounts
    add_targets content (targets_of accounts (p ∷ rest))

  unfoldable pub enqueue_publish : Content → List Publication → Exec System (Unit {0})
  unfolding targets_of
  enqueue_publish content publications =
      if desk.queue then pack_and_add content publications else pure tt
