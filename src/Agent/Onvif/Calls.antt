-- ===== src/Agent/Onvif/Calls.antt =====
-- How a call of internal/onvif/ptz.go ends, and what a sequence of calls leaves as it was.
use cloud_nvr.Base.{
  String, not, ◌&&◌, ◌||◌, Option, none, some, ◌==◌, string_eq, Bool-cases, Option-cases, ◌≡◌, refl,
  inl, inr,
}
use cloud_nvr.Agent.Onvif.{
  Request, get_capabilities, get_profiles, received, Camera, Reader, Failure, no_discovery,
  no_profiles, Result, done, failed, Action, pure, or_fail, ◌>>=◌, continued, call, services,
  discover,
}

-- How a call ends.
pub data Called {S : Type 0} (c : Camera S) (url : String) (r : Request) (e : Failure) (s : S)
    : Result String × S → Type 0 where
  broke : {s' : S} → Called c url r e s (failed e, s')
  gave :
      {b : String}
      → received (c.post url r s).1 ≡ some b
      → Called c url r e s (done b, (c.post url r s).0)

pub call-Called :
    {S : Type 0} (c : Camera S) (url : String) (r : Request) (e : Failure) (s : S)
    → Called c url r e s (call c url r e s)
unfolding call
call-Called c url r e s = elim (Bool-cases (not (c.username == "") && not (c.has_nonce s))) [
  | inl n ↦ rw n broke
  | inr n ↦ elim (Option-cases (received (c.post url r s).1)) [
    | inl g ↦ rw (n, g) broke
    | inr (b, g) ↦ rw (n, g) (gave g)
  ]
]

-- A property of the state that an action does not end.
unfoldable pub Keeps : {S A : Type 0} → (S → Type 0) → Action S A → Type 0
Keeps Q m = (s : _) → Q s → Q (m s).1

continued-Keeps :
    {S A B : Type 0} (Q : S → Type 0) (f : A → Action S B)
    → ((a : A) → Keeps Q (f a))
    → (r : Result A) → Keeps Q (continued f r)
unfolding Keeps
continued-Keeps Q f k (done a) s h = k a s h
continued-Keeps Q f k (failed e) s h = h

pub bind-Keeps :
    {S A B : Type 0} (Q : S → Type 0) (m : Action S A) (f : A → Action S B)
    → Keeps Q m
    → ((a : A) → Keeps Q (f a))
    → Keeps Q (m >>= f)
unfolding Keeps
bind-Keeps Q m f k l s h = continued-Keeps Q f l (m s).0 (m s).1 (k s h)

pub or_fail-Keeps :
    {S A : Type 0} (Q : S → Type 0) (o : Option A) (e : Failure) → Keeps Q (or_fail {S = S} o e)
unfolding Keeps
or_fail-Keeps Q none e s h = h
or_fail-Keeps Q (some a) e s h = h

pure-Keeps : {S A : Type 0} (Q : S → Type 0) (v : A) → Keeps {S = S} Q (pure v)
unfolding Keeps
pure-Keeps Q v s h = h

services-Keeps :
    {S F : Type 0} (x : Reader F) (c : Camera S) (Q : S → Type 0) (u : String × String)
    → Keeps Q (services x c u)
unfolding Keeps
services-Keeps x c Q u s h = elim (Bool-cases (x.trim u.0 == "" || x.trim u.1 == "")) [
  | inl d ↦ rw d h
  | inr d ↦ rw d h
]

pub call-Keeps :
    {S : Type 0} (c : Camera S) (Q : S → Type 0) (url : String) (r : Request) (e : Failure)
    → ((s : S) → Q s → Q (c.post url r s).0)
    → Keeps Q (call c url r e)
unfolding Keeps call
call-Keeps c Q url r e k s h = elim (Bool-cases (not (c.username == "") && not (c.has_nonce s))) [
  | inl d ↦ rw d h
  | inr d ↦ rw d (or_fail-Keeps Q (received (c.post url r s).1) e (c.post url r s).0 (k s h))
]

module _ {S F : Type 0} (x : Reader F) (c : Camera S) (Q : S → Type 0) where
  -- What the two questions of the discovery keep is kept by it.
  pub discover-Keeps :
      ((url : String) (s : S) → Q s → Q (c.post url get_capabilities s).0)
      → ((url : String) (s : S) → Q s → Q (c.post url get_profiles s).0)
      → Keeps Q (discover x c)
  unfolding discover
  discover-Keeps k l =
      bind-Keeps Q _ _ (call-Keeps c Q c.endpoint get_capabilities no_discovery (k c.endpoint))
        λ body. bind-Keeps Q _ _ (or_fail-Keeps Q _ _) λ found.
          bind-Keeps Q _ _ (services-Keeps x c Q found) λ urls.
            bind-Keeps Q _ _ (call-Keeps c Q urls.0 get_profiles no_profiles (l urls.0))
              λ listed. bind-Keeps Q _ _ (or_fail-Keeps Q _ _) λ token. pure-Keeps Q _

-- What holds at the end of an action: of the state when it succeeds, of the error when it fails.
abbrev pub After : {S A : Type 0} → (A → S → Type 0) → (Failure → Type 0) → Result A → S → Type 0
After D B (done a) s = D a s
After D B (failed e) s = B e

pub bind-After :
    {S A B : Type 0} (D : A → S → Type 0) (E : B → S → Type 0) (W : Failure → Type 0)
    (f : A → Action S B)
    → ((a : A) (s : S) → D a s → After E W (f a s).0 (f a s).1)
    → (r : Result A) (s : S) → After D W r s
    → After E W (continued f r s).0 (continued f r s).1
bind-After D E W f k (done a) s h = k a s h
bind-After D E W f k (failed e) s h = h

Called-After :
    {S : Type 0} (c : Camera S) (url : String) (r : Request) (e : Failure) (s : S)
    (D : String → S → Type 0) (W : Failure → Type 0)
    → W e
    → ((b : String) → received (c.post url r s).1 ≡ some b → D b (c.post url r s).0)
    → (q : _) → Called c url r e s q
    → After D W q.0 q.1
Called-After c url r e s D W w k _ broke = w
Called-After c url r e s D W w k _ (gave g) = k _ g

pub call-After :
    {S : Type 0} (c : Camera S) (url : String) (r : Request) (e : Failure) (s : S)
    (D : String → S → Type 0) (W : Failure → Type 0)
    → W e
    → ((b : String) → received (c.post url r s).1 ≡ some b → D b (c.post url r s).0)
    → After D W (call c url r e s).0 (call c url r e s).1
call-After c url r e s D W w k = Called-After c url r e s D W w k _ (call-Called c url r e s)

pub or_fail-After :
    {S A : Type 0} (o : Option A) (e : Failure) (s : S) (D : A → S → Type 0) (W : Failure → Type 0)
    → W e
    → ((a : A) → o ≡ some a → D a s)
    → After D W (or_fail o e s).0 (or_fail o e s).1
or_fail-After none e s D W w k = w
or_fail-After (some a) e s D W w k = k a refl
