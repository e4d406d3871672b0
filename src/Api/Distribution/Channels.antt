-- ===== src/Api/Distribution/Channels.antt =====
-- services/api/src/distribution/channel-accounts.service.ts: which channels a content goes to. The
-- accounts are a list in the order of the database; of a content only the columns that decide on its
-- channels are taken.
use gachinol.Prelude.{
  String, Bool, false, ◌&&◌, Option, none, some, List, [], ◌∷◌, ◌==◌, string_eq, includes,
  if◌then◌else◌,
}
use gachinol.Api.Exec.{Result, ok, err, conflict}

pub record ChannelAccount : Type 0 where
  pub id : String
  pub platform : String
  pub station_id : Option String
  pub status : String
  pub external_channel_id : String
  pub credential_ref : String
  pub capabilities : List String

pub record Audience : Type 0 where
  pub station_id : String
  pub target_channel_account_ids : List String

abbrev pub Accounts : Type 0
Accounts = List ChannelAccount

-- The map of `findByIds`, read at one id.
unfoldable pub find_by_id : String → Accounts → Option ChannelAccount
find_by_id id [] = none
find_by_id id (c ∷ rest) = if c.id == id then some c else find_by_id id rest

abbrev present : Option ChannelAccount → Accounts → Accounts
present none found = found
present (some c) found = c ∷ found

-- The accounts with these ids, in this order; an id without an account is passed over.
unfoldable pub rows_of : List String → Accounts → Accounts
unfolding find_by_id
rows_of [] accounts = []
rows_of (id ∷ ids) accounts = present (find_by_id id accounts) (rows_of ids accounts)

abbrev pub keep : (ChannelAccount → Bool) → Accounts → Accounts
keep p [] = []
keep p (c ∷ rest) = if p c then c ∷ keep p rest else keep p rest

abbrev is_of_station : String → ChannelAccount → Bool
is_of_station station_id c = elim c.station_id [ none ↦ false | some s ↦ s == station_id ]

abbrev pub is_kakao_of : String → ChannelAccount → Bool
is_kakao_of station_id c =
    is_of_station station_id c && c.platform == "kakao" && c.status == "connected"

abbrev chosen : Audience → List String → Accounts → Accounts
chosen content [] accounts = keep (is_kakao_of content.station_id) accounts
chosen content (id ∷ ids) accounts = rows_of (id ∷ ids) accounts

-- The ids of the request, else those of the content, else the station's own channels.
unfoldable pub candidate_rows : Audience → List String → Accounts → Accounts
unfolding rows_of
candidate_rows content [] accounts = chosen content content.target_channel_account_ids accounts
candidate_rows content (id ∷ ids) accounts = rows_of (id ∷ ids) accounts

abbrev pub is_usable : ChannelAccount → Bool
is_usable c = c.status == "connected" && includes c.capabilities "vod_publish"

-- `seen` are the ids that the loop has met.
unfoldable pub dedupe_by_id : List String → Accounts → Accounts
dedupe_by_id seen [] = []
dedupe_by_id seen (c ∷ rest) =
    if includes seen c.id then dedupe_by_id seen rest else c ∷ dedupe_by_id (c.id ∷ seen) rest

abbrev pub some_target : Accounts → Result Accounts
some_target [] = err conflict
some_target (c ∷ rest) = ok (c ∷ rest)

abbrev pub deduped : Result Accounts → Result Accounts
deduped (err e) = err e
deduped (ok usable) = ok (dedupe_by_id [] usable)

unfoldable pub resolve_targets : Audience → List String → Accounts → Result Accounts
unfolding candidate_rows dedupe_by_id
resolve_targets content override_ids accounts =
    deduped (some_target (keep is_usable (candidate_rows content override_ids accounts)))
