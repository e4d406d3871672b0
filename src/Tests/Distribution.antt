-- ===== src/Tests/Distribution.antt =====
-- The theorems on the channels of a content, for one station and the center.
use gachinol.Prelude.{none, some, [], ◌∷◌}
use gachinol.Api.Distribution.Channels.{ChannelAccount, Audience, candidate_rows, resolve_targets}
use gachinol.Api.Distribution.ChannelLaws.{Resolves, resolve_targets-Resolves}

abbrev pub kakao : ChannelAccount
kakao = record {
  id = "c1";
  platform = "kakao";
  station_id = some "aewol";
  status = "connected";
  external_channel_id = "aewol-news";
  credential_ref = "kakao-aewol";
  capabilities = "vod_publish" ∷ [];
}

abbrev expired : ChannelAccount
expired = record {
  id = "c2";
  platform = "youtube";
  station_id = none;
  status = "expired";
  external_channel_id = "center";
  credential_ref = "youtube-center";
  capabilities = "vod_publish" ∷ [];
}

abbrev pub market_audience : Audience
market_audience = record { station_id = "aewol"; target_channel_account_ids = [] }

resolve_targets-Resolves_example :
    Resolves
      (candidate_rows market_audience ("c2" ∷ "c1" ∷ "c1" ∷ []) (kakao ∷ expired ∷ []))
      (resolve_targets market_audience ("c2" ∷ "c1" ∷ "c1" ∷ []) (kakao ∷ expired ∷ []))
resolve_targets-Resolves_example =
    resolve_targets-Resolves market_audience ("c2" ∷ "c1" ∷ "c1" ∷ []) (kakao ∷ expired ∷ [])
