-- ===== src/Media/Segments/Scan/Organized.antt =====
-- What organizeStagedRecordings of internal/media/recording.go moves is what ScanRecordings finds.
use cloud_nvr.Base.{
  In-filter, ℕ, ◌≡◌, ◌≢◌, refl, sym, subst, inl, inr, String, ◌<>◌, true, false, not, some, List,
  [], ◌∷◌, ◌++◌, arith, eq_iff, string_eq, ◌==◌, if◌then◌else◌, Bool-cases, In, here, there, All,
}
use cloud_nvr.Base.Text.{ends_with}
use cloud_nvr.Media.Workers.Recorder.{RecordingStream}
use cloud_nvr.Media.Segments.Sidecar.{Texts, RecordingFile}
use cloud_nvr.Media.Segments.Scan.{
  Names, camera_directory, Entry, Staged, staged_start, list_same, put, is_ready, moved, organize,
  is_kept_out, organize_all, scan_recordings,
}
use cloud_nvr.Media.Segments.Scan.Found.{
  Sole, IsShown, found_file, directory_own, moved-seen, walk_lists,
}

-- No later segment of the staging directory is moved to a path.
abbrev pub Untaken :
    Names → ℕ → ℕ → RecordingStream → List String → List Staged → List Entry → Type 0
Untaken n settle now s path [] tree = Unit
Untaken n settle now s path (x ∷ xs) tree =
    (is_ready settle now x ≡ true → list_same path (moved n s tree x.entry).parts ≡ false)
    × Untaken n settle now s path xs
        (if is_ready settle now x then put (moved n s tree x.entry) tree else tree)

In-put :
    (m x : Entry) (tree : List Entry)
    → In m tree
    → list_same m.parts x.parts ≡ false
    → In m (put x tree)
unfolding put
In-put m x tree i h = there (In-filter (λ y. not (list_same y.parts x.parts)) i (rw h refl))

In-append : {A : Type 0} (x : A) (as' bs : List A) → In x (as' ++ x ∷ bs)
In-append x [] bs = here
In-append x (a ∷ as') bs = there (In-append x as' bs)

All-after :
    {A : Type 0} (P : A → Type 0) (as' : List A) (x : A) (bs : List A)
    → All P (as' ++ x ∷ bs)
    → All P bs
All-after P [] x bs h = h.1
All-after P (a ∷ as') x bs h = All-after P as' x bs h.1

module _ (n : Names) (settle now : ℕ) where
  organize-append :
      (s : RecordingStream) (before after : List Staged) (tree : List Entry)
      → (organize n settle now s (before ++ after) tree).1
        ≡ (organize n settle now s after (organize n settle now s before tree).1).1
  unfolding organize
  organize-append s [] after tree = refl
  organize-append s (x ∷ before) after tree =
      organize-append s before after
        (if is_ready settle now x then put (moved n s tree x.entry) tree else tree)

  In-self : (m : Entry) (tree : List Entry) → In m (put m tree)
  unfolding put
  In-self m tree = here

  organize_ready :
      (s : RecordingStream) (e : Staged) (after : List Staged) (old : List Entry) {m : Entry}
      → is_ready settle now e ≡ true
      → In m (organize n settle now s after (put (moved n s old e.entry) old)).1
      → In m (organize n settle now s (e ∷ after) old).1
  unfolding organize
  organize_ready s e after old ready i = rw ready i

  -- A file stays where it is while the other staged segments are moved.
  organize-In :
      (s : RecordingStream) (m : Entry) (staged : List Staged) (tree : List Entry)
      → In m tree
      → Untaken n settle now s m.parts staged tree
      → In m (organize n settle now s staged tree).1
  unfolding organize
  organize-In s m [] tree i free = i
  organize-In s m (x ∷ staged) tree i free =
      organize-In s m staged
        (if is_ready settle now x then put (moved n s tree x.entry) tree else tree)
        (elim (Bool-cases (is_ready settle now x)) [
          | inl e ↦ rw e (In-put m (moved n s tree x.entry) tree i (free.0 e))
          | inr e ↦ rw e i
        ])
        free.1

  -- The segments of another camera go to another directory.
  elsewhere :
      (s : RecordingStream) (first : String) (rest : List String) (staged : List Staged)
      (tree : List Entry)
      → first ≢ camera_directory n s
      → Untaken n settle now s (first ∷ rest) staged tree
  unfolding list_same
  elsewhere s first rest [] tree d = tt
  elsewhere s first rest (x ∷ staged) tree d =
      let apart : (first == camera_directory n s) ≡ false =
        ground (arith, d, eq_iff first (camera_directory n s)) in
      (
        λ _. rw apart refl,
        elsewhere s first rest staged
            (if is_ready settle now x then put (moved n s tree x.entry) tree else tree) d,
      )

  organize_all-In :
      (staged : String → List Staged) (streams : List RecordingStream) (m : Entry) (first : String)
      (rest : List String) (tree : List Entry)
      → m.parts ≡ first ∷ rest
      → All (λ x. first ≢ camera_directory n x) streams
      → In m tree
      → In m (organize_all n settle now staged streams tree)
  unfolding organize_all
  organize_all-In staged [] m first rest tree e d i = i
  organize_all-In staged (x ∷ streams) m first rest tree e d i =
      organize_all-In staged streams m first rest _ e d.1 (
        organize-In x m (staged x.id) tree i (
          subst (λ p. Untaken n settle now x p (staged x.id) tree) (sym e)
            (elsewhere x first rest (staged x.id) tree d.0)))

  organize_all-append :
      (staged : String → List Staged) (pre post : List RecordingStream) (tree : List Entry)
      → organize_all n settle now staged (pre ++ post) tree
        ≡ organize_all n settle now staged post (organize_all n settle now staged pre tree)
  unfolding organize_all
  organize_all-append staged [] post tree = refl
  organize_all-append staged (x ∷ pre) post tree =
      organize_all-append staged pre post (organize n settle now x (staged x.id) tree).1

  -- Another camera has another directory.
  Sole-elsewhere :
      (s : RecordingStream) (streams : List RecordingStream)
      → Sole n streams s
      → All (λ x. x ≢ s) streams
      → All (λ x. camera_directory n s ≢ camera_directory n x) streams
  Sole-elsewhere s [] sole d = tt
  Sole-elsewhere s (x ∷ streams) sole d = (
    λ e. d.0 (sole.0 (subst (λ y. ends_with y ("__" <> x.id) ≡ true) (sym e) (directory_own n x))),
    Sole-elsewhere s streams sole.1 d.1,
  )

  -- The files before a staged segment is moved: those of the cameras and of the segments before it.
  abbrev pub tree_at :
      (String → List Staged)
      → List RecordingStream
      → RecordingStream
      → List Staged
      → List Entry
      → List Entry
  tree_at staged pre s before tree =
      (organize n settle now s before (organize_all n settle now staged pre tree)).1

  placed :
      (staged : String → List Staged) (pre post : List RecordingStream) (s : RecordingStream)
      (tree : List Entry) (before after : List Staged) (e : Staged)
      → staged s.id ≡ before ++ e ∷ after
      → is_ready settle now e ≡ true
      → All (λ x. camera_directory n s ≢ camera_directory n x) post
      → let old = tree_at staged pre s before tree in
        let m = moved n s old e.entry in
        Untaken n settle now s m.parts after (put m old)
        → In m (organize_all n settle now staged (pre ++ s ∷ post) tree)
  unfolding organize_all
  placed staged pre post s tree before after e here_is ready apart free =
      let first = organize_all n settle now staged pre tree in
      let old = tree_at staged pre s before tree in
      let m = moved n s old e.entry in
      let moved_in : In m (organize n settle now s (before ++ e ∷ after) first).1 =
        rw (organize-append s before (e ∷ after) first) (
          organize_ready s e after old ready
            (organize-In s m after (put m old) (In-self m old) free)) in
      rw (organize_all-append staged pre (s ∷ post) tree) (
        organize_all-In staged post m (camera_directory n s) _
          (organize n settle now s (staged s.id) first).1 refl apart
          (subst (λ l. In m (organize n settle now s l first).1) (sym here_is) moved_in))

-- Every staged segment that is settled is found, whichever others lie in the staging directories: it
-- is moved to the directory of its camera, and the walk lists it with its camera, its start and its
-- size. Its camera has a directory of its own and comes once in the list from there on; the clock
-- showed its start once, and no later segment of the camera is moved to its path; it is not too old;
-- no call of the file system fails.
pub scan_recordings-found_file :
    (n : Names) (t : Texts) (settle now : ℕ) (staged : String → List Staged)
    (pre post : List RecordingStream) (s : RecordingStream) (tree : List Entry)
    (before after : List Staged) (e : Staged) (files : List RecordingFile)
    → staged s.id ≡ before ++ e ∷ after
    → is_ready settle now e ≡ true
    → is_kept_out now s e.entry ≡ false
    → Sole n (pre ++ s ∷ post) s
    → All (λ x. x ≢ s) post
    → let old = tree_at n settle now staged pre s before tree in
      let m = moved n s old e.entry in
      IsShown n (staged_start n e.entry) m.name
      → Untaken n settle now s m.parts after (put m old)
      → (scan_recordings n t settle now staged (pre ++ s ∷ post) tree).0 ≡ some files
      → In (found_file n t s (staged_start n e.entry) m) files
unfolding scan_recordings
scan_recordings-found_file n t settle now staged pre post s tree before after e files here_is ready
      kept sole once shown free ok =
    let old = tree_at n settle now staged pre s before tree in
    let apart = Sole-elsewhere n settle now s post (All-after _ pre s post sole) once in
    walk_lists n t settle now (pre ++ s ∷ post) _
      (placed n settle now staged pre post s tree before after e here_is ready apart free)
      (moved-seen n t settle now (pre ++ s ∷ post) s old e ready (In-append s pre post) sole shown
        kept)
      ok
