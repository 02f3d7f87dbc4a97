-- ===== src/Media/Storage/Identity.antt =====
-- EnsureRecordingStorage, readIdentity and writeIdentity of internal/media/storage.go.
pub mod Binding
use cloud_nvr.Base.{
  ℕ, Option, none, some, Bool, true, false, List, [], ◌∷◌, ◌++◌, nat_eq, ◌==◌, if◌then◌else◌,
}
use cloud_nvr.Base.Text.{trim_space, byte_len}

-- A file is absent, cannot be read, or holds a text.
pub data File : Type 0 where
  absent unreadable : File
  holds : List ℕ → File

-- What readIdentity returns. Only a file that is not there makes an error of os.IsNotExist.
pub data Identity : Type 0 where
  known : List ℕ → Identity
  missing invalid : Identity

unfoldable pub identity_of : List ℕ → Identity
identity_of value = if byte_len value == 32 then known value else invalid

unfoldable pub read_identity : File → Identity
read_identity absent = missing
read_identity unreadable = invalid
read_identity (holds text) = identity_of (trim_space text)

-- What writeIdentity leaves in the file, if the write succeeds.
unfoldable pub written : List ℕ → File
written value = holds (value ++ 0x0a ∷ [])

pub data Error : Type 0 where
  cannot_make_directory mismatch marker_missing read_marker read_local no_random cannot_write :
      Error

pub data Result : Type 0 where
  ok : Result
  err : Error → Result

-- The two files: the identity kept by the machine, and the marker in the recordings directory.
pub record Storage : Type 0 where
  pub identity_file : File
  pub marker : File

-- How the calls of the operating system come out: MkdirAll for the parent of the identity file and
-- for the directory, rand.Read (in hexadecimal), and the two writes. A write that fails may leave
-- anything in its file.
pub record Outcome : Type 0 where
  pub parent_made : Bool
  pub base_made : Bool
  pub random_ok : Bool
  pub random : List ℕ
  pub marker_failure : Option File
  pub identity_failure : Option File

write_identity : Outcome → List ℕ → Storage → Result × Storage
unfolding written
write_identity o value s = elim o.identity_failure [
  | none ↦ (ok, record s { identity_file = written value })
  | some f ↦ (err cannot_write, record s { identity_file = f })
]

write_marker : Outcome → Storage → Result × Storage
unfolding write_identity written
write_marker o s = elim o.marker_failure [
  | none ↦ write_identity o o.random (record s { marker = written o.random })
  | some f ↦ (err cannot_write, record s { marker = f })
]

initialize : Outcome → Storage → Result × Storage
unfolding write_marker
initialize o s =
    if o.base_made
    then (if o.random_ok then write_marker o s else (err no_random, s))
    else (err cannot_make_directory, s)

unfoldable pub list_beq : List ℕ → List ℕ → Bool
list_beq [] [] = true
list_beq (a ∷ as') (b ∷ bs) = let rest = list_beq as' bs in if a == b then rest else false
list_beq _ _ = false

-- The `switch` over the two reads, in its order, and what follows it.
unfoldable pub ensure_with : Outcome → Identity → Identity → Storage → Result × Storage
unfolding write_identity initialize
ensure_with o (known identity) (known marker) s =
    if list_beq identity marker then (ok, s) else (err mismatch, s)
ensure_with o (known identity) missing s = (err marker_missing, s)
ensure_with o (known identity) invalid s = (err read_marker, s)
ensure_with o missing (known marker) s = write_identity o marker s
ensure_with o invalid _ s = (err read_local, s)
ensure_with o missing invalid s = (err read_marker, s)
ensure_with o missing missing s = initialize o s

unfoldable pub ensure_recording_storage : Outcome → Storage → Result × Storage
ensure_recording_storage o s =
    if o.parent_made
    then ensure_with o (read_identity s.identity_file) (read_identity s.marker) s
    else (err cannot_make_directory, s)
