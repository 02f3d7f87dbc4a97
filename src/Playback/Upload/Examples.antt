-- ===== src/Playback/Upload/Examples.antt =====
-- An upload that comes whole: internal/cloud/recording_handlers.go.
use cloud_nvr.Base.{String, true, ◌≡◌, refl, some, [], ◌∷◌, string_eq, nat_eq}
use cloud_nvr.Base.Dict.{lookup}
use cloud_nvr.Base.Time.{hour}
use cloud_nvr.Playback.Broker.{Status, PlaybackRequest, Broker}
use cloud_nvr.Playback.Upload.{Upload, finish_upload}
use cloud_nvr.Playback.Upload.Settled.{IsSettled, status_after, upload_settles}

abbrev taken : PlaybackRequest
taken = record {
  id = "p1";
  recording_id = "rec";
  site_id = "north";
  storage_key = "a.mp4";
  checksum = "abcd";
  status = Status.uploading;
  message = "";
  created_at = 5;
  updated_at = 7;
}

abbrev broker : Broker
broker = record {
  cache_ttl = hour;
  cache_max_bytes = 1000;
  requests = ("p1", taken) ∷ [];
  cache = record { readable = true; entries = [] };
}

abbrev whole : Upload
whole = record {
  length = some 40;
  header_checksum = "abcd";
  directory_made = true;
  temporary_made = true;
  copied = true;
  written = 40;
  digest = "abcd";
  renamed = true;
}

abbrev same : String → String
same s = s

lookup_run : lookup "p1" broker.requests ≡ some taken
unfolding lookup
lookup_run = refl

upload_settles_example :
    let (reply, b') = finish_upload same 100 9 whole taken broker in
    IsSettled "p1" (status_after true reply) b'
upload_settles_example = upload_settles same 100 9 whole taken broker taken lookup_run
