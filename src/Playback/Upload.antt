-- ===== src/Playback/Upload.antt =====
-- uploadRequestedRecording and rejectRequestedRecording of internal/cloud/recording_handlers.go: how
-- an agent answers a request that it took. Between `request` and the last call of the broker the
-- handler holds no mutex, so that is a step of its own, and other steps may come in between. The
-- temporary file, which the handler removes or renames at its end, is not in the directory here.
pub mod Settled
mod Examples
use cloud_nvr.Base.{
  ℕ, String, Bool, true, false, not, ◌&&◌, ◌||◌, Option, none, some, ltb, ◌==◌, nat_eq, string_eq,
  if◌then◌else◌,
}
use cloud_nvr.Base.Dict.{insert}
use cloud_nvr.Playback.Cache.{CacheFile, Cache, cache_path}
use cloud_nvr.Playback.Broker.{PlaybackRequest, Broker, requeue, set_ready, fail}

pub data Reply : Type 0 where
  stored length_required too_large conflict checksum_mismatch server_error : Reply

-- What the request carries, and how the calls of the operating system come out. `length` is none
-- for an unknown length; `copied` is whether io.Copy and Close succeed, `digest` the hash in hex.
pub record Upload : Type 0 where
  pub length : Option ℕ
  pub header_checksum : String
  pub directory_made : Bool
  pub temporary_made : Bool
  pub copied : Bool
  pub written : ℕ
  pub digest : String
  pub renamed : Bool

abbrev pub uploaded_file : ℕ → Upload → CacheFile
uploaded_file now u = record {
  is_dir = false;
  info_ok = true;
  regular = true;
  size = u.written;
  modified = now;
  removable = true;
}

-- The rename puts the file into the place of an older one.
unfoldable pub rename_into : ℕ → Upload → PlaybackRequest → Cache → Cache
rename_into now u r c = record c {
  entries = insert (cache_path r.recording_id) (uploaded_file now u) c.entries;
}

-- The tests of the handler in their order. `normal` is strings.ToLower after strings.TrimSpace, and
-- `limit` is agentUploadMaxBytes.
module _ (normal : String → String) (limit : ℕ) where
  abbrev pub mismatch : Upload → PlaybackRequest → Bool
  mismatch u r =
      not (normal r.checksum == "")
      && (not (normal u.header_checksum == normal r.checksum)
          || not (u.digest == normal r.checksum))

  unfoldable pub verdict_of_length : ℕ → Upload → PlaybackRequest → Reply
  verdict_of_length n u r =
      if ltb limit n
      then too_large
      else if not u.directory_made || not u.temporary_made
      then server_error
      else if not u.copied || not (u.written == n) || ltb limit u.written
      then conflict
      else if mismatch u r
      then checksum_mismatch
      else if u.renamed
      then stored
      else server_error

  unfoldable pub verdict_with : Option ℕ → Upload → PlaybackRequest → Reply
  verdict_with none u r = length_required
  verdict_with (some n) u r = if n == 0 then length_required else verdict_of_length n u r

  abbrev pub verdict : Upload → PlaybackRequest → Reply
  verdict u r = verdict_with u.length u r

  -- Did the handler get as far as the copy?
  abbrev pub after_rename : Upload → Bool
  after_rename u = u.directory_made && u.temporary_made

  -- What the handler does to the broker for its answer. A server error before the copy fails the
  -- request, one of the rename queues it again.
  unfoldable pub settle : ℕ → Upload → PlaybackRequest → Reply → Broker → Broker
  unfolding rename_into
  settle now u r stored b = set_ready now r.id (record b { cache = rename_into now u r b.cache })
  settle now u r length_required b = requeue now r.id b
  settle now u r too_large b = fail now r.id "recording is too large" b
  settle now u r conflict b = requeue now r.id b
  settle now u r checksum_mismatch b = fail now r.id "recording integrity verification failed" b
  settle now u r server_error b =
      if after_rename u then requeue now r.id b else fail now r.id "cloud cache unavailable" b

  -- uploadRequestedRecording, once `request` has found the request.
  unfoldable pub finish_upload : ℕ → Upload → PlaybackRequest → Broker → Reply × Broker
  finish_upload now u r b = (verdict u r, settle now u r (verdict u r) b)

-- rejectRequestedRecording, once `request` has found the request; `message` is trimmed.
unfoldable pub reject : ℕ → String → PlaybackRequest → Broker → Broker
reject now message r =
    fail now r.id (if message == "" then "recording unavailable on agent" else message)
