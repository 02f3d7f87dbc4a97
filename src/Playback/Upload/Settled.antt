-- ===== src/Playback/Upload/Settled.antt =====
-- How an upload ends: internal/cloud/recording_handlers.go.
use cloud_nvr.Base.{
  ℕ, ◌≡◌, refl, inl, inr, String, Bool, true, false, ◌&&◌, some, arith, nat_eq, string_eq,
  Bool-cases, ==_refl,
}
use cloud_nvr.Base.Dict.{lookup, lookup-insert}
use cloud_nvr.Playback.Broker.{
  Status, PlaybackRequest, Broker, touch, update, requeue, set_ready, fail,
}
use cloud_nvr.Playback.Upload.{
  Reply, stored, length_required, too_large, conflict, checksum_mismatch, server_error, Upload,
  verdict, settle, finish_upload,
}

-- A request that has an outcome: it waits for another attempt, is ready, or failed.
abbrev pub IsSettled : String → Status → Broker → Type 0
IsSettled i s b = (q : PlaybackRequest) × (lookup i b.requests ≡ some q) × (q.status ≡ s)

update-IsSettled :
    (i : String) (f : PlaybackRequest → PlaybackRequest) (s : Status) (q : PlaybackRequest)
    (b : Broker)
    → lookup i b.requests ≡ some q
    → (f q).status ≡ s
    → IsSettled i s (update i f b)
update-IsSettled i f s q b h e =
    rw (update, h) (f q, ground (arith, lookup-insert i i (f q) b.requests, ==_refl i), e)

-- The status in which an answer leaves the request.
abbrev pub status_after : Bool → Reply → Status
status_after opened stored = Status.ready
status_after opened length_required = Status.queued
status_after opened too_large = Status.error
status_after opened conflict = Status.queued
status_after opened checksum_mismatch = Status.error
status_after true server_error = Status.queued
status_after false server_error = Status.error

module _ (normal : String → String) (limit : ℕ) (now : ℕ) (u : Upload) (r : PlaybackRequest)
    (b : Broker) where
  settle-IsSettled :
      (reply : Reply) (q : PlaybackRequest)
      → lookup r.id b.requests ≡ some q
      → IsSettled r.id
          (status_after (u.directory_made && u.temporary_made) reply)
          (settle normal limit now u r reply b)
  unfolding settle requeue set_ready fail
  settle-IsSettled stored q h =
      update-IsSettled r.id (touch now Status.ready) Status.ready q _ h refl
  settle-IsSettled length_required q h = update-IsSettled r.id _ Status.queued q b h refl
  settle-IsSettled too_large q h = update-IsSettled r.id _ Status.error q b h refl
  settle-IsSettled conflict q h = update-IsSettled r.id _ Status.queued q b h refl
  settle-IsSettled checksum_mismatch q h = update-IsSettled r.id _ Status.error q b h refl
  settle-IsSettled server_error q h = elim (Bool-cases (u.directory_made && u.temporary_made)) [
    | inl e ↦ rw e (update-IsSettled r.id _ Status.queued q b h refl)
    | inr e ↦ rw e (update-IsSettled r.id _ Status.error q b h refl)
  ]

  -- However an upload ends, a request that is still in the map is not left as one that is being
  -- uploaded: it is ready if the file was stored, waits for another attempt after an answer that
  -- allows one (no length, an interrupted copy, a failed rename), and failed after the others.
  pub upload_settles :
      (q : PlaybackRequest)
      → lookup r.id b.requests ≡ some q
      → let (reply, b') = finish_upload normal limit now u r b in
        IsSettled r.id (status_after (u.directory_made && u.temporary_made) reply) b'
  unfolding finish_upload
  upload_settles q h = settle-IsSettled (verdict normal limit u r) q h
