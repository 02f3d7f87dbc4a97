-- ===== src/Media/Workers/Reconciled.antt =====
-- What Reconcile and Stop do to the workers: internal/media/relay.go and recording.go.
use cloud_nvr.Base.{
  suc, ◌+◌, ◌≡◌, refl, sym, ap, ◌∙◌, subst, inl, inr, String, Bool, Option, none, some, List, [],
  ◌∷◌, ◌++◌, arith, eq_iff, if◌then◌else◌, ◌==◌, nat_eq, string_eq, Bool-cases, Option-cases,
  length, length-append,
}
use cloud_nvr.Base.Dict.{Dict, lookup, insert, NodupKeys, lookup-insert}
use cloud_nvr.Media.Workers.{
  Worker, Manager, desired, still_wanted, stop_unwanted, start_one, start_missing, reconcile,
  contexts_of, stop,
}

-- A manager has made as many contexts as it has workers and cancelled contexts.
abbrev pub Accounted : Manager → Type 0
Accounted m = length m.workers + length m.cancelled ≡ m.contexts

module _ {S : Type 0} (runs : S → Bool) (id_of : S → String) (fingerprint_of : S → String) where
  -- What stands in the place of a worker once the unwanted ones are stopped.
  abbrev kept : Option S → Option Worker → Option Worker
  kept o none = none
  kept o (some w) = if still_wanted runs id_of fingerprint_of o w then some w else none

  kept-some :
      (s : S) (old : Option Worker) (w : Worker)
      → kept (some s) old ≡ some w
      → (old ≡ some w) × (w.fingerprint ≡ fingerprint_of s)
  unfolding still_wanted
  kept-some s none w h = cc
  kept-some s (some v) w h = ground (arith, eq_iff v.fingerprint (fingerprint_of s))

  stop_unwanted-none :
      (k : String) (d : Dict String S) (ws : Dict String Worker)
      → lookup k ws ≡ none
      → lookup k (stop_unwanted runs id_of fingerprint_of d ws).0 ≡ none
  unfolding stop_unwanted lookup
  stop_unwanted-none k d [] h = refl
  stop_unwanted-none k d ((j, w) ∷ ws) h = ground (arith, stop_unwanted-none k d ws, eq_iff j k)

  lookup-stop_unwanted :
      (k : String) (d : Dict String S) (ws : Dict String Worker)
      → NodupKeys ws
      → lookup k (stop_unwanted runs id_of fingerprint_of d ws).0 ≡ kept (lookup k d) (lookup k ws)
  unfolding stop_unwanted lookup
  lookup-stop_unwanted k d [] u = refl
  lookup-stop_unwanted k d ((j, w) ∷ ws) u =
      ground (arith, lookup-stop_unwanted k d ws u.1, stop_unwanted-none k d ws, eq_iff j k)

  length-stop_unwanted :
      (d : Dict String S) (ws : Dict String Worker)
      → let (stay, gone) = stop_unwanted runs id_of fingerprint_of d ws in
        length stay + length gone ≡ length ws
  unfolding stop_unwanted
  length-stop_unwanted d [] = omega arith
  length-stop_unwanted d ((j, w) ∷ ws) = ground (arith, length-stop_unwanted d ws)

  abbrev present : Option Worker → Worker → Worker
  present none w = w
  present (some v) w = v

  lookup-start_one :
      (j k : String) (s : S) (m : Manager)
      → lookup k (start_one runs id_of fingerprint_of j s m).workers ≡ (
          if j == k
          then some (
              present
                (lookup j m.workers)
                (record { fingerprint = fingerprint_of s; context = m.contexts }))
          else lookup k m.workers)
  unfolding start_one
  lookup-start_one j k s m = ground (
    arith,
    eq_iff j k,
    lookup-insert j k (record { fingerprint = fingerprint_of s; context = m.contexts }) m.workers,
  )

  start_missing-some :
      (k : String) (d : Dict String S) (m : Manager) (w : Worker)
      → lookup k m.workers ≡ some w
      → lookup k (start_missing runs id_of fingerprint_of d m).workers ≡ some w
  unfolding start_missing
  start_missing-some k [] m w h = h
  start_missing-some k ((j, s) ∷ d) m w h =
      start_missing-some k d (start_one runs id_of fingerprint_of j s m) w
        (ground (arith, lookup-start_one j k s m, eq_iff j k))

  start_missing-none :
      (k : String) (d : Dict String S) (m : Manager)
      → lookup k m.workers ≡ none
      → lookup k d ≡ none
      → lookup k (start_missing runs id_of fingerprint_of d m).workers ≡ none
  unfolding start_missing lookup
  start_missing-none k [] m h a = h
  start_missing-none k ((j, s) ∷ d) m h a =
      start_missing-none k d (start_one runs id_of fingerprint_of j s m)
        (ground (arith, lookup-start_one j k s m)) (ground arith)

  start_missing-new :
      (k : String) (d : Dict String S) (m : Manager) (s : S)
      → lookup k m.workers ≡ none
      → lookup k d ≡ some s
      → (w : Worker) × (lookup k (start_missing runs id_of fingerprint_of d m).workers ≡ some w)
        × (w.fingerprint ≡ fingerprint_of s)
  unfolding start_missing lookup
  start_missing-new k [] m s h a = cc
  start_missing-new k ((j, t) ∷ d) m s h a = elim (Bool-cases (j == k)) [
    | inl e ↦
        let w : Worker = record { fingerprint = fingerprint_of t; context = m.contexts } in
        let same : t ≡ s = ground arith in
        (
          w,
          start_missing-some k d (start_one runs id_of fingerprint_of j t m) w
              (ground (arith, lookup-start_one j k t m, eq_iff j k)),
          ap fingerprint_of same,
        )
    | inr e ↦
        start_missing-new k d (start_one runs id_of fingerprint_of j t m) s
          (ground (arith, lookup-start_one j k t m)) (ground arith)
  ]

  length-insert_new :
      (k : String) (w : Worker) (d : Dict String Worker)
      → lookup k d ≡ none
      → length (insert k w d) ≡ length d + 1
  unfolding lookup insert
  length-insert_new k w [] h = omega arith
  length-insert_new k w ((j, v) ∷ d) h = ground (arith, length-insert_new k w d)

  start_missing-Accounted :
      (d : Dict String S) (m : Manager)
      → Accounted m
      → Accounted (start_missing runs id_of fingerprint_of d m)
  unfolding start_missing start_one
  start_missing-Accounted [] m h = h
  start_missing-Accounted ((k, s) ∷ d) m h =
      start_missing-Accounted d (start_one runs id_of fingerprint_of k s m) (
        ground (
          arith,
          length-insert_new k (record { fingerprint = fingerprint_of s; context = m.contexts })
              m.workers,
        ))

  -- Reconcile keeps the account of the contexts: running workers and cancelled contexts are together
  -- as many as the contexts that were made.
  pub reconcile-Accounted :
      (streams : List S) (m : Manager)
      → Accounted m
      → Accounted (reconcile runs id_of fingerprint_of streams m)
  unfolding reconcile
  reconcile-Accounted streams m h =
      start_missing-Accounted (desired runs id_of fingerprint_of streams) _ (
        omega (
          arith,
          length-stop_unwanted (desired runs id_of fingerprint_of streams) m.workers,
          length-append {0}
              (stop_unwanted runs id_of fingerprint_of (desired runs id_of fingerprint_of streams)
                m.workers).1
              m.cancelled,
        ))

  -- After Reconcile exactly the cameras that are to run have a worker, each with the fingerprint
  -- of its stream; a worker whose fingerprint was right already is the same worker as before.
  pub reconcile_lem :
      (streams : List S) (m : Manager) (k : String)
      → NodupKeys m.workers
      → let d = desired runs id_of fingerprint_of streams in
        let after = lookup k (reconcile runs id_of fingerprint_of streams m).workers in
        (lookup k d ≡ none → after ≡ none)
        × ((s : S)
            → lookup k d ≡ some s
            → (w : Worker) × (after ≡ some w)
              × (w.fingerprint ≡ fingerprint_of s)
              × ((v : Worker)
                  → lookup k m.workers ≡ some v
                  → v.fingerprint ≡ fingerprint_of s
                  → w ≡ v))
  unfolding reconcile still_wanted
  reconcile_lem streams m k u =
      let d = desired runs id_of fingerprint_of streams in
      let (stay, gone) = stop_unwanted runs id_of fingerprint_of d m.workers in
      let m' : Manager = record m { workers = stay; cancelled = gone ++ m.cancelled } in
      let seen = lookup-stop_unwanted k d m.workers u in
      (
        λ absent. start_missing-none k d m' (ground (arith, seen)) absent,
        λ s wanted. elim (Option-cases (lookup k stay)) [
          | inl e ↦
              let (w, started, right) = start_missing-new k d m' s e wanted in
              (
                w,
                started,
                right,
                λ v old same. ground (arith, seen, eq_iff v.fingerprint (fingerprint_of s)),
              )
          | inr (w, e) ↦
              let (same, right) =
                kept-some s (lookup k m.workers) w
                  (subst (λ o. kept o (lookup k m.workers) ≡ some w) wanted (sym seen ∙ e)) in
              (w, start_missing-some k d m' w e, right, λ v old _. cc)
        ],
      )

length-contexts_of : (d : Dict String Worker) → length (contexts_of d) ≡ length d
unfolding contexts_of
length-contexts_of [] = refl
length-contexts_of ((k, w) ∷ d) = ap suc (length-contexts_of d)

-- After Stop no worker is left, and as many contexts were cancelled as were made.
pub stop_cancels :
    (m : Manager)
    → Accounted m
    → ((stop m).workers ≡ []) × (length (stop m).cancelled ≡ (stop m).contexts)
unfolding stop
stop_cancels m h = (
  refl,
  omega
      (arith, length-append {0} (contexts_of m.workers) m.cancelled, length-contexts_of m.workers),
)
