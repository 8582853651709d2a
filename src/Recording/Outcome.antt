-- ===== src/Recording/Outcome.antt =====
-- One call of the writer, by what it does to publication: the cases of every method and event.
use k5_vision.Prelude.{
  ℕ, ◌≡◌, ◌≢◌, refl, ◌∙◌, ap, true, false, List, [], ◌∷◌, ◌++◌, arith, ok, raise, none, some,
  Option-cases, Result-cases, inl, inr, ◌⊎◌,
}
use k5_vision.Rtp.{Bytes, IsBytes}
use k5_vision.Recording.Format.{magic}
use k5_vision.Recording.Sink.{
  State, ErrorCode, Sink, Event, drop_file, without_file, open_sink, write, write_open,
  write_record, finalize, abort,
}
use k5_vision.Recording.Publication.{Holds, write-Holds, write-eq-ok}

-- One call of a method of the sink.
pub data Call : Type 0 where
  open_call finalize_call abort_call : Event → Call
  write_call : (p : Bytes) → Event → Call

-- Not cancelled a second time, while the handler of the first waits for the worker.
abbrev pub Once : Event → Type 0
Once (Event.cancel_again _ _ _) = ⊥
Once _ = Unit

-- The packets are bytes, and no call is cancelled a second time while it waits for its worker.
abbrev pub CallOk : Call → Type 0
CallOk (open_call event) = Once event
CallOk (write_call p event) = IsBytes p × Once event
CallOk (finalize_call event) = Once event
CallOk (abort_call event) = Once event

module _ (crc32 : Bytes → ℕ) where
  unfoldable pub apply : Sink → Call → Sink
  apply s (open_call event) = (open_sink s event).0
  apply s (write_call p event) = (write crc32 s p event).0
  apply s (finalize_call event) = (finalize s event).0
  apply s (abort_call event) = (abort s event).0

  -- A session: the errors of its calls are met by going on with other calls.
  unfoldable pub apply_all : Sink → List Call → Sink
  apply_all s [] = s
  apply_all s (c ∷ cs) = apply_all (apply s c) cs

  -- The packet of a write that returned.
  unfoldable pub accepted : Sink → Call → List Bytes
  accepted s (write_call p event) = elim (write crc32 s p event).1 [ ok _ ↦ p ∷ [] | raise _ ↦ [] ]
  accepted s _ = []

  -- The packets of the writes of a session that returned, in order.
  unfoldable pub accepted_all : Sink → List Call → List Bytes
  accepted_all s [] = []
  accepted_all s (c ∷ cs) = accepted s c ++ accepted_all (apply s c) cs

State-discrete : Discrete State
State-discrete = hlevel

-- What one call does to the sink, as far as publication goes, and the packets that it accepts.
pub data Outcome (crc32 : Bytes → ℕ) (s : Sink) (s' : Sink) : List Bytes → Type 0 where
  same : s' ≡ s → Outcome crc32 s s' []
  dropped : s' ≡ drop_file s → Outcome crc32 s s' []
  left :
      s'.state ≢ State.opened
      → s'.state ≢ State.created
      → s'.state ≢ State.finalized
      → s'.published ≡ s.published
      → s'.limits ≡ s.limits
      → Outcome crc32 s s' []
  started :
      s.state ≡ State.created
      → s' ≡ record s { file = some magic; file_bytes = 8; state = State.opened }
      → Outcome crc32 s s' []
  wrote :
      (p : Bytes)
      → s.state ≡ State.opened
      → s.file ≢ none
      → s'.state ≡ State.opened
      → s'.published ≡ s.published
      → s'.limits ≡ s.limits
      → ((ps : List Bytes) → Holds crc32 s ps → Holds crc32 s' (ps ++ p ∷ []))
      → Outcome crc32 s s' (p ∷ [])
  published :
      s.state ≡ State.opened
      → s.file ≢ none
      → s.published ≡ none
      → s'.published ≡ s.file
      → s'.file ≡ none
      → s'.state ≢ State.created
      → s'.limits ≡ s.limits
      → Outcome crc32 s s' []

module _ (crc32 : Bytes → ℕ) where
  open-created :
      (s : Sink) (event : Event)
      → s.state ≡ State.created
      → Outcome crc32 s (open_sink s event).0 []
  unfolding open_sink
  open-created s Event.done h = elim (Option-cases s.published) [
    | inl empty ↦ started h (ground arith)
    | inr (b, taken) ↦
        left (ground arith) (ground arith) (ground arith) (ground arith) (ground arith)
  ]
  open-created s Event.exists h =
      left (ground arith) (ground arith) (ground arith) (ground arith) (ground arith)
  open-created s (Event.os_error n) h =
      left (ground arith) (ground arith) (ground arith) (ground arith) (ground arith)
  open-created s (Event.cancel a b c) h =
      left (ground arith) (ground arith) (ground arith) (ground arith) (ground arith)
  open-created s (Event.cancel_again a b c) h = same (ground arith)

  open-other : (s : Sink) (event : Event) → s.state ≢ State.created → (open_sink s event).0 ≡ s
  unfolding open_sink
  open-other s event h = ground arith

  write-other :
      (s : Sink) (p : Bytes) (event : Event)
      → s.state ≢ State.opened
      → write crc32 s p event ≡ (s, raise ErrorCode.invalid_state)
  unfolding write
  write-other s p event h = ground arith

  -- A write that raises accepts nothing.
  accepted-raise :
      (s : Sink) (p : Bytes) (event : Event) (e : ErrorCode)
      → (write crc32 s p event).1 ≡ raise e
      → accepted crc32 s (write_call p event) ≡ []
  unfolding accepted
  accepted-raise s p event e h = rw (h, accepted) refl

  accepted-ok :
      (s : Sink) (p : Bytes) (event : Event)
      → (write crc32 s p event).1 ≡ ok tt
      → accepted crc32 s (write_call p event) ≡ p ∷ []
  unfolding accepted
  accepted-ok s p event h = rw (h, accepted) refl

  -- A write that raises and is not cancelled twice leaves the sink neither open nor published.
  write-failed :
      (s : Sink) (p : Bytes) (event : Event) (e : ErrorCode)
      → CallOk (write_call p event)
      → s.state ≡ State.opened
      → (write crc32 s p event).1 ≡ raise e
      → Outcome crc32 s (write crc32 s p event).0 []
  unfolding write write_open write_record
  write-failed s p Event.done e good h r =
      left (ground arith) (ground arith) (ground arith) (ground arith) (ground arith)
  write-failed s p Event.exists e good h r =
      left (ground arith) (ground arith) (ground arith) (ground arith) (ground arith)
  write-failed s p (Event.os_error n) e good h r =
      left (ground arith) (ground arith) (ground arith) (ground arith) (ground arith)
  write-failed s p (Event.cancel a b c) e good h r =
      left (ground arith) (ground arith) (ground arith) (ground arith) (ground arith)
  write-failed s p (Event.cancel_again a b c) e good h r = absurd good.1

  -- A write that returned had a handle, and left the state and the final path.
  pub write_record-kept :
      (s : Sink) (p : Bytes)
      → (write_record crc32 s p Event.done).1 ≡ ok tt
      → let s' = (write_record crc32 s p Event.done).0 in
        (s.file ≢ none)
        × (s'.state ≡ s.state)
        × (s'.published ≡ s.published)
        × (s'.limits ≡ s.limits)
  unfolding write_record
  write_record-kept s p h = ((λ n. ground arith), ground arith, ground arith, ground arith)

  pub write-record-ok :
      (s : Sink) (p : Bytes) (event : Event)
      → (write crc32 s p event).1 ≡ ok tt
      → (write_record crc32 s p Event.done).1 ≡ ok tt
  unfolding write write_open write_record
  write-record-ok s p event h = ground arith

  write-opened :
      (s : Sink) (p : Bytes) (event : Event)
      → CallOk (write_call p event)
      → s.state ≡ State.opened
      → Outcome crc32 s (write crc32 s p event).0 (accepted crc32 s (write_call p event))
  write-opened s p event good h = elim (Result-cases (write crc32 s p event).1) [
    | inr (e, failed) ↦
        rw (accepted-raise s p event e failed) (write-failed s p event e good h failed)
    | inl (_, done) ↦
        let (_, _, _, _, _, _, after) = write-eq-ok crc32 s p event done in
        let (handle, state, out, limits) = write_record-kept s p (write-record-ok s p event done) in
        rw (accepted-ok s p event done) (
          wrote p h handle (ap (λ (x : Sink). x.state) after ∙ state ∙ h)
            (ap (λ (x : Sink). x.published) after ∙ out)
            (ap (λ (x : Sink). x.limits) after ∙ limits)
            (λ ps holds. write-Holds crc32 s ps p event holds good.0 done))
  ]

  finalize-without :
      (s : Sink) (event : Event)
      → s.state ≡ State.opened
      → s.file ≡ none
      → Outcome crc32 s (finalize s event).0 []
  unfolding finalize without_file
  finalize-without s (Event.cancel_again a b c) h e = same (ground arith)
  finalize-without s Event.done h e =
      left (ground arith) (ground arith) (ground arith) (ground arith) (ground arith)
  finalize-without s Event.exists h e =
      left (ground arith) (ground arith) (ground arith) (ground arith) (ground arith)
  finalize-without s (Event.os_error n) h e =
      left (ground arith) (ground arith) (ground arith) (ground arith) (ground arith)
  finalize-without s (Event.cancel a b c) h e =
      left (ground arith) (ground arith) (ground arith) (ground arith) (ground arith)

  finalize-with :
      (s : Sink) (f : Bytes) (event : Event)
      → s.state ≡ State.opened
      → s.file ≡ some f
      → Outcome crc32 s (finalize s event).0 []
  unfolding finalize
  finalize-with s f Event.done h e = elim (Option-cases s.published) [
    | inl empty ↦
        published h (λ n. cc) empty (ground arith) (ground arith) (ground arith) (ground arith)
    | inr (b, taken) ↦
        left (ground arith) (ground arith) (ground arith) (ground arith) (ground arith)
  ]
  finalize-with s f Event.exists h e =
      left (ground arith) (ground arith) (ground arith) (ground arith) (ground arith)
  finalize-with s f (Event.os_error n) h e =
      left (ground arith) (ground arith) (ground arith) (ground arith) (ground arith)
  finalize-with s f (Event.cancel true false c) h e = elim (Option-cases s.published) [
    | inl empty ↦
        published h (λ n. cc) empty (ground arith) (ground arith) (ground arith) (ground arith)
    | inr (b, taken) ↦
        left (ground arith) (ground arith) (ground arith) (ground arith) (ground arith)
  ]
  finalize-with s f (Event.cancel true true c) h e =
      left (ground arith) (ground arith) (ground arith) (ground arith) (ground arith)
  finalize-with s f (Event.cancel false b c) h e =
      left (ground arith) (ground arith) (ground arith) (ground arith) (ground arith)
  finalize-with s f (Event.cancel_again n true c) h e = elim (Option-cases s.published) [
    | inl empty ↦
        published h (λ n. cc) empty (ground arith) (ground arith) (ground arith) (ground arith)
    | inr (b, taken) ↦ dropped (ground arith)
  ]
  finalize-with s f (Event.cancel_again n false true) h e = dropped (ground arith)
  finalize-with s f (Event.cancel_again n false false) h e = same (ground arith)

  finalize-other : (s : Sink) (event : Event) → s.state ≢ State.opened → (finalize s event).0 ≡ s
  unfolding finalize
  finalize-other s event h = ground arith

  finalize-Outcome : (s : Sink) (event : Event) → Outcome crc32 s (finalize s event).0 []
  finalize-Outcome s event = elim (State-discrete s.state State.opened) [
    | no h ↦ same (finalize-other s event h)
    | yes h ↦ elim (Option-cases s.file) [
      | inl missing ↦ finalize-without s event h missing
      | inr (f, there) ↦ finalize-with s f event h there
    ]
  ]

  abort-over :
      (s : Sink) (event : Event)
      → (s.state ≡ State.aborted) ⊎ (s.state ≡ State.finalized)
      → (abort s event).0 ≡ s
  unfolding abort
  abort-over s event h = ground arith

  abort-running :
      (s : Sink) (event : Event)
      → s.state ≢ State.aborted
      → s.state ≢ State.finalized
      → Outcome crc32 s (abort s event).0 []
  unfolding abort
  abort-running s Event.done a f =
      left (ground arith) (ground arith) (ground arith) (ground arith) (ground arith)
  abort-running s Event.exists a f =
      left (ground arith) (ground arith) (ground arith) (ground arith) (ground arith)
  abort-running s (Event.os_error n) a f =
      left (ground arith) (ground arith) (ground arith) (ground arith) (ground arith)
  abort-running s (Event.cancel x y z) a f =
      left (ground arith) (ground arith) (ground arith) (ground arith) (ground arith)
  abort-running s (Event.cancel_again x y z) a f = dropped (ground arith)

  pub apply-Outcome :
      (s : Sink) (c : Call) → CallOk c → Outcome crc32 s (apply crc32 s c) (accepted crc32 s c)
  unfolding apply accepted
  apply-Outcome s (open_call event) _ = elim (State-discrete s.state State.created) [
    | yes h ↦ open-created s event h
    | no h ↦ same (open-other s event h)
  ]
  apply-Outcome s (write_call p event) good = elim (State-discrete s.state State.opened) [
    | yes h ↦ write-opened s p event good h
    | no h ↦
        let other = write-other s p event h in
        rw (accepted-raise s p event ErrorCode.invalid_state (ap (λ x. x.1) other))
          (same (ap (λ x. x.0) other))
  ]
  apply-Outcome s (finalize_call event) _ = finalize-Outcome s event
  apply-Outcome s (abort_call event) _ = elim (State-discrete s.state State.aborted) [
    | yes h ↦ same (abort-over s event (inl h))
    | no a ↦ elim (State-discrete s.state State.finalized) [
      | yes h ↦ same (abort-over s event (inr h))
      | no f ↦ abort-running s event a f
    ]
  ]
