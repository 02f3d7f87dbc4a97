-- ===== src/Media/Segments/Sidecar/Cached.antt =====
-- A checksum that was written next to a segment is read again, as long as the segment is the same.
use Prim.Native.String.{len}
use cloud_nvr.Base.{
  ℕ, suc, ◌+◌, ◌≤◌, ◌≡◌, refl, ◌⊎◌, inl, inr, String, ◌<>◌, Bool, true, false, not, ◌&&◌, ◌||◌,
  Option, none, some, List, [], ◌∷◌, arith, eq_iff, leb, if◌then◌else◌, ◌==◌, string_eq, nat_eq,
  Bool-cases,
}
use cloud_nvr.Base.Int64.{IsInt64}
use cloud_nvr.Config.{ℤ, pos}
use cloud_nvr.Sync.{is_hex}
use cloud_nvr.Media.Segments.Sidecar.{
  Texts, RecordingFile, checked, read_checksum_sidecar, sidecar_text, Hashing, Populated, unchanged,
  hashed, populate_one, count_if, populate_from, populate_checksums,
}

-- What the model relies on: an int64 is read back from its text, and the three words of a line come
-- back from it, where the third is 64 hexadecimal digits.
pub record IsFaithful (t : Texts) : Type 0 where
  pub parse-format : (z : ℤ) → IsInt64 z → t.parse_int (t.format_int z) ≡ some z
  pub fields-line :
      (a b : ℤ) (c : String)
      → IsInt64 a
      → IsInt64 b
      → len c ≡ 64
      → is_hex c ≡ true
      → t.fields (t.format_int a <> (" " <> (t.format_int b <> (" " <> (c <> "\n")))))
        ≡ t.format_int a ∷ t.format_int b ∷ c ∷ []

-- A checksum as PopulateChecksums writes it: 64 hexadecimal digits, in lower case.
pub record IsDigest (t : Texts) (c : String) : Type 0 where
  pub long : len c ≡ 64
  pub hex : is_hex c ≡ true
  pub lower : t.to_lower c ≡ c

-- The sidecar of a segment gives its checksum back exactly as long as the segment has the size and
-- the time of the last change that it was written for; after a change it gives none. The size
-- and the time that were written are numbers of 64 bits, and the checksum is 64 hexadecimal digits in
-- lower case; it relies on strconv and strings.Fields to read back what was written.
pub read-sidecar_text :
    (t : Texts) (size modified size' modified' : ℕ) (c : String)
    → IsFaithful t
    → IsDigest t c
    → IsInt64 (pos size)
    → IsInt64 (pos modified)
    → read_checksum_sidecar t (some (sidecar_text t size modified c)) size' modified'
      ≡ (if size == size' && modified == modified' then c else "")
unfolding read_checksum_sidecar sidecar_text checked
read-sidecar_text t size modified size' modified' c ok d small early =
    rw
      (
        ok.fields-line (pos size) (pos modified) c small early d.long d.hex,
        d.lower,
        d.long,
        d.hex,
        ok.parse-format (pos size) small,
        ok.parse-format (pos modified) early,
      )
      (ground arith)

abbrev pub created_of : Option String → ℕ
created_of none = 0
created_of (some _) = 1

-- How many sidecars are written.
abbrev pub created : List Populated → ℕ
created [] = 0
created (p ∷ ps) = created_of p.written + created ps

-- What becomes of one file: nothing, or its missing checksum is found and written next to it.
abbrev pub Result : Texts → RecordingFile → Hashing → Populated → Type 0
Result t f h p =
    (p ≡ unchanged f)
    ⊎ ((size : ℕ) × (modified : ℕ) × (c : String) × (f.checksum ≡ "")
        × (h.stat ≡ some (size, modified))
        × (h.digest ≡ some c)
        × (p.file ≡ record f { checksum = c })
        × (p.written ≡ some (sidecar_text t size modified c)))

abbrev pub Results : Texts → List (RecordingFile × Hashing) → List Populated → Type 0
Results t [] [] = Unit
Results t ((f, h) ∷ fs) (p ∷ ps) = Result t f h p × Results t fs ps
Results t _ _ = ⊥

-- One round: what becomes of the file, and that only a round that creates a sidecar is counted.
abbrev Round : Texts → ℕ → ℕ → RecordingFile → Hashing → Bool × Populated → Type 0
Round t maximum n f h r =
    Result t f h r.1
    × (count_if r.0 n ≡ created_of r.1.written + n)
    × (n ≤ maximum → count_if r.0 n ≤ maximum)

unchanged-Round :
    (t : Texts) (maximum n : ℕ) (f : RecordingFile) (h : Hashing)
    → Round t maximum n f h (false, unchanged f)
unchanged-Round t maximum n f h = (inl refl, omega arith, λ le. le)

hashed-Round-with :
    (t : Texts) (maximum n : ℕ) (f : RecordingFile) (h : Hashing) (saved : Bool)
    (stat : Option (ℕ × ℕ)) (digest : Option String)
    → f.checksum ≡ ""
    → (n ≤ maximum → suc n ≤ maximum)
    → h.stat ≡ stat
    → h.digest ≡ digest
    → Round t maximum n f h (hashed t f saved stat digest)
hashed-Round-with t maximum n f h true (some (size, modified)) (some c) blank room s d =
    (inr (size, modified, c, blank, s, d, refl, refl), omega arith, room)
hashed-Round-with t maximum n f h false (some (size, modified)) (some c) blank room s d =
    unchanged-Round t maximum n f h
hashed-Round-with t maximum n f h saved (some (size, modified)) none blank room s d =
    unchanged-Round t maximum n f h
hashed-Round-with t maximum n f h saved none digest blank room s d = unchanged-Round t maximum n f h

hashed-Round :
    (t : Texts) (maximum n : ℕ) (f : RecordingFile) (h : Hashing)
    → f.checksum ≡ ""
    → (n ≤ maximum → suc n ≤ maximum)
    → Round t maximum n f h (hashed t f h.saved h.stat h.digest)
hashed-Round t maximum n f h blank room =
    hashed-Round-with t maximum n f h h.saved h.stat h.digest blank room refl refl

round_lem :
    (t : Texts) (maximum n : ℕ) (f : RecordingFile) (h : Hashing)
    → Round t maximum n f h (populate_one t maximum n f h)
unfolding populate_one
round_lem t maximum n f h = elim (Bool-cases (not (f.checksum == "") || leb maximum n)) [
  | inl e ↦ rw e (unchanged-Round t maximum n f h)
  | inr e ↦ rw e (
      hashed-Round t maximum n f h (ground (arith, e, eq_iff f.checksum ""))
        (λ le. ground (arith, e)))
]

populate_from_lem :
    (t : Texts) (maximum n : ℕ) (fs : List (RecordingFile × Hashing))
    → n ≤ maximum
    → Results t fs (populate_from t maximum n fs)
      × (created (populate_from t maximum n fs) + n ≤ maximum)
unfolding populate_from
populate_from_lem t maximum n [] le = (tt, omega (arith, le))
populate_from_lem t maximum n ((f, h) ∷ fs) le =
    let (result, counted, bounded) = round_lem t maximum n f h in
    let r = populate_one t maximum n f h in
    let (results, total) = populate_from_lem t maximum (count_if r.0 n) fs (bounded le) in
    ((result, results), omega (arith, total, counted))

-- A pass writes at most the given number of sidecars. Each file stays as it is, or had no checksum
-- and gets that of its contents, which is written next to it with its size and time.
pub populate_checksums_lem :
    (t : Texts) (maximum : ℕ) (fs : List (RecordingFile × Hashing))
    → Results t fs (populate_checksums t maximum fs)
      × (created (populate_checksums t maximum fs) ≤ maximum)
populate_checksums_lem t maximum fs =
    let (results, total) = populate_from_lem t maximum 0 fs (omega arith) in
    (results, omega (arith, total))
