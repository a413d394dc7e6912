-- ===== src/Pipeline/Alternate.antt =====
-- `RecordProviderResolve`: the sequence of the events of a provider.
use mytonprovider_backend.Prelude.{
  ◌≡◌, refl, inl, inr, String, Bool, true, false, ◌&&◌, Option, List, [], ◌∷◌, ◌++◌, lookup-insert,
  str_eq, eq_iff, Bool-cases, arith, if◌then◌else◌,
}
use mytonprovider_backend.Pipeline.{
  EventStatus, error, okay, absent, ProviderEvent, Recorder, status_of, append_provider_event,
  record_provider_resolve, is_error_status, resolved_event, unresolved_event,
}

-- An "ok" may follow an error only.
abbrev pub may_follow : EventStatus → EventStatus → Bool
may_follow error next = true
may_follow s okay = false
may_follow s next = true

-- The status of the provider after the events, where it was `s` before them.
abbrev pub last_status : String → EventStatus → List ProviderEvent → EventStatus
last_status pk s [] = s
last_status pk s (e ∷ es) = last_status pk (if str_eq e.provider_pubkey pk then e.status else s) es

-- Every event of the provider may follow the one before it.
abbrev pub is_story : String → EventStatus → List ProviderEvent → Bool
is_story pk s [] = true
is_story pk s (e ∷ es) =
    (if str_eq e.provider_pubkey pk then may_follow s e.status else true)
    && is_story pk (if str_eq e.provider_pubkey pk then e.status else s) es

last_status-append :
    (pk : String) (s : EventStatus) (es : List ProviderEvent) (e : ProviderEvent)
    → last_status pk s (es ++ e ∷ [])
      ≡ (if str_eq e.provider_pubkey pk then e.status else last_status pk s es)
last_status-append pk s [] e = refl
last_status-append pk s (f ∷ es) e =
    last_status-append pk (if str_eq f.provider_pubkey pk then f.status else s) es e

is_story-append :
    (pk : String) (s : EventStatus) (es : List ProviderEvent) (e : ProviderEvent)
    → is_story pk s es ≡ true
    → (str_eq e.provider_pubkey pk ≡ true → may_follow (last_status pk s es) e.status ≡ true)
    → is_story pk s (es ++ e ∷ []) ≡ true
is_story-append pk s [] e h f = ground arith
is_story-append pk s (g ∷ es) e h f =
    let next = if str_eq g.provider_pubkey pk then g.status else s in
    ground (arith, is_story-append pk next es e (ground arith) f)

-- The events so far are a story that starts at `s`, and end in the status that is kept.
pub record IsStory (pk : String) (s : EventStatus) (r : Recorder) : Type 0 where
  pub story : is_story pk s r.provider_events ≡ true
  pub current : status_of r pk ≡ last_status pk s r.provider_events

-- One call of `RecordProviderResolve`.
pub record Call : Type 0 where
  pub pubkey : String
  pub stage : String
  pub resolved : Bool
  pub resolve_err : Option String

-- The calls of one run, in order.
abbrev pub resolve_all : Recorder → List Call → Recorder
resolve_all r [] = r
resolve_all r (c ∷ cs) =
    resolve_all (record_provider_resolve r c.pubkey c.stage c.resolved c.resolve_err) cs

append-IsStory :
    (pk : String) (s : EventStatus) (r : Recorder) (e : ProviderEvent)
    → IsStory pk s r
    → (str_eq e.provider_pubkey pk ≡ true → may_follow (status_of r pk) e.status ≡ true)
    → IsStory pk s (append_provider_event r e)
unfolding append_provider_event
append-IsStory pk s r e h f = record {
  story = is_story-append pk s r.provider_events e h.story (λ same. rw (← h.current) (f same));
  current = rw (lookup-insert, last_status-append) (ground (arith, h.current));
}

error_may_follow : (t : EventStatus) → may_follow t error ≡ true
error_may_follow error = refl
error_may_follow _ = refl

okay_may_follow : (t : EventStatus) → is_error_status t ≡ true → may_follow t okay ≡ true
okay_may_follow error h = refl
okay_may_follow okay h = h
okay_may_follow absent h = h

-- `RecordProviderResolve` of a public key that is not empty.
noted-IsStory :
    (pk : String) (s : EventStatus) (r : Recorder) (pubkey stage : String) (err : Option String)
    (resolved : Bool)
    → IsStory pk s r
    → IsStory pk s (
        if resolved
        then (if is_error_status (status_of r pubkey)
            then append_provider_event r (resolved_event pubkey)
            else r)
        else append_provider_event r (unresolved_event pubkey stage err))
noted-IsStory pk s r pubkey stage err true h =
    elim (Bool-cases (is_error_status (status_of r pubkey))) [
      | inl failed ↦ rw failed (
          append-IsStory pk s r (resolved_event pubkey) h (λ same.
            rw (← (eq_iff pubkey pk).0 same) (okay_may_follow (status_of r pubkey) failed)))
      | inr fine ↦ rw fine h
    ]
noted-IsStory pk s r pubkey stage err false h =
    append-IsStory pk s r (unresolved_event pubkey stage err) h
      (λ same. error_may_follow (status_of r pk))

resolve-IsStory :
    (pk : String) (s : EventStatus) (r : Recorder) (c : Call)
    → IsStory pk s r
    → IsStory pk s (record_provider_resolve r c.pubkey c.stage c.resolved c.resolve_err)
unfolding record_provider_resolve
resolve-IsStory pk s r c h = elim (Bool-cases (str_eq c.pubkey "")) [
  | inl none_given ↦ rw none_given h
  | inr given ↦ rw given (noted-IsStory pk s r c.pubkey c.stage c.resolve_err c.resolved h)
]

-- Whatever providers are recorded as resolved or not, and in whatever order, an "ok" event of a
-- provider comes only directly after an error of that provider, which may be one of an earlier run,
-- and the status that is kept is that of its last event.
pub resolve_all-IsStory :
    (pk : String) (s : EventStatus) (r : Recorder) (cs : List Call)
    → IsStory pk s r
    → IsStory pk s (resolve_all r cs)
resolve_all-IsStory pk s r [] h = h
resolve_all-IsStory pk s r (c ∷ cs) h =
    resolve_all-IsStory pk s (record_provider_resolve r c.pubkey c.stage c.resolved c.resolve_err)
      cs (resolve-IsStory pk s r c h)
