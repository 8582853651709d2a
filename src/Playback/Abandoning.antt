-- ===== src/Playback/Abandoning.antt =====
-- `GeneratorExit` through the stack: a caller that leaves the loop over
-- `BoundedPlaybackSchedule.iter_packets` at a `yield`.
use k5_vision.Prelude.{
  ℕ, ◌+◌, not, length, ◌≡◌, refl, ap, Bool, arith, Result, ok, raise, Option, none, some, inl, inr,
  Bool-cases, if◌then◌else◌,
}
use k5_vision.Rtp.{Bytes}
use k5_vision.Generator.{Run, yields, returns, raises, out_of_fuel, Suspends}
use k5_vision.Recording.Sink.{ErrorCode}
use k5_vision.Recording.Sink
use k5_vision.Recording.Reader.{File, Reader, read, bytes_eq}
use k5_vision.Recording.Format.{magic}
use k5_vision.Playback.Descriptor.{Descriptor}
use k5_vision.Recording.Reader
use k5_vision.Playback.Boundary.{State, Playback, PlaybackError}
use k5_vision.Playback.Boundary
use k5_vision.Playback.Timeline.{Timeline, TimelineError, TimedPacket, Clock}
use k5_vision.Playback.Timeline
use k5_vision.Playback.Navigation.{Navigator, NavigationError}
use k5_vision.Playback.Navigation
use k5_vision.Playback.Window.{Window, WindowError}
use k5_vision.Playback.Window
use k5_vision.Playback.Schedule.{Schedule, ScheduleError, PlaybackRate}
use k5_vision.Playback.Schedule
use k5_vision.Playback.Opening.{
  IsCreated, init-IsCreated, schedule_opens, window_opens, nav_opens, timeline_opens,
  playback_opens,
}
use k5_vision.Playback.Closing.{
  ReaderOpen, ScheduleOpen, records-Suspends, boundary-Suspends, timeline-Suspends,
  navigator-Suspends, window-Suspends, schedule-Suspends,
}

-- Every layer aborted, the file closed.
pub record IsClosed (sc : Schedule) : Type 0 where
  pub schedule : sc.state ≡ State.aborted
  pub window : sc.window.state ≡ State.aborted
  pub navigator : sc.window.navigator.state ≡ Navigation.State.aborted
  pub timeline : sc.window.navigator.timeline.state ≡ State.aborted
  pub playback : sc.window.navigator.timeline.playback.state ≡ State.aborted
  pub reader :
      let r = sc.window.navigator.timeline.playback.reader in
      r.state ≡ (if r.closes then Sink.State.aborted else Sink.State.failed)
  pub counted :
      let pb = sc.window.navigator.timeline.playback in pb.file_bytes ≡ pb.reader.file_bytes

close-IsClosed : (sc : Schedule) → ScheduleOpen sc → IsClosed (Schedule.close sc)
unfolding Schedule.close Window.close Navigation.close Timeline.close Boundary.close Reader.close
close-IsClosed sc o = ground arith

Suspends-map {ℓ κ μ ν ξ} :
    {S : Type ℓ} {E : Type κ} {A : Type μ} {P : S → Type ν} {Q : S → Type ξ}
    → ((s : S) → P s → Q s)
    → (t : Run S E A) → Suspends P t
    → Suspends Q t
Suspends-map f (yields a s t) h = (f s h.0, Suspends-map f t h.1)
Suspends-map f (returns s) h = tt
Suspends-map f (raises e s) h = tt
Suspends-map f out_of_fuel h = tt

module _ (crc32 : Bytes → ℕ) where
  after_magic-Suspends :
      (r : Reader) (m : Result ErrorCode (Bytes × File))
      → ReaderOpen r
      → Suspends ReaderOpen (Reader.after_magic crc32 r m)
  unfolding Reader.after_magic
  after_magic-Suspends r (raise e) h = tt
  after_magic-Suspends r (ok (head, f)) h =
      let r' = record r { file_bytes = r.file_bytes + length head } in
      elim (Bool-cases (not (bytes_eq head magic))) [
        | inl bad ↦ rw bad tt
        | inr good ↦ rw good (records-Suspends crc32 (ℕ.suc (length f.bytes)) r' f h)
      ]

  reader-Suspends :
      (r : Reader) (file : Option File)
      → r.state ≡ Sink.State.created
      → Suspends ReaderOpen (Reader.iter_packets crc32 r file)
  unfolding Reader.iter_packets
  reader-Suspends r none h = ground arith
  reader-Suspends r (some f) h =
      let opened =
        after_magic-Suspends (record r { state = Sink.State.opened }) (read (length magic) f)
          refl in
      ground arith

  schedule-ScheduleOpen :
      (d : Descriptor) (closes : Bool) (sc : Schedule) (file : Option File)
      → IsCreated d closes sc
      → Suspends ScheduleOpen (Schedule.iter_packets crc32 sc file)
  schedule-ScheduleOpen d closes sc file c =
      let w = sc.window in
      let nav = w.navigator in
      let tl = nav.timeline in
      let pb = tl.playback in
      rw
        (
          schedule_opens crc32 file sc c.schedule,
          window_opens crc32 file w c.window,
          nav_opens crc32 file nav c.navigator,
          timeline_opens crc32 file tl c.timeline,
          playback_opens crc32 file pb c.playback,
        )
        (schedule-Suspends (record sc { state = State.reading }) none _ refl
          (window-Suspends (record w { state = State.reading }) _ refl
            (navigator-Suspends (record nav { state = Navigation.State.scanning }) _ (inl refl)
              (timeline-Suspends (record tl { state = State.reading }) Timeline.start_clock _ refl
                (boundary-Suspends (record pb { state = State.reading }) _ refl
                  (reader-Suspends pb.reader file (ap (λ (r : Reader). r.state) c.reader)))))))

  -- Whatever the file is, closing the generator of a new schedule at any of its suspensions leaves
  -- the schedule, the window, the navigator, the timeline and playback aborted, and the reader
  -- aborted too, or failed when its file handle does not close; playback has taken over the
  -- reader's count of bytes.
  pub iter_packets-IsClosed :
      (d : Descriptor) (start_ms end_ms : ℕ) (rate : PlaybackRate) (max_packets : ℕ) (closes : Bool)
      (sc : Schedule) (file : Option File)
      → Schedule.init d start_ms end_ms rate max_packets closes ≡ some sc
      → Suspends (λ s. IsClosed (Schedule.close s)) (Schedule.iter_packets crc32 sc file)
  iter_packets-IsClosed d start_ms end_ms rate max_packets closes sc file made =
      Suspends-map close-IsClosed (Schedule.iter_packets crc32 sc file) (
        schedule-ScheduleOpen d closes sc file
          (init-IsCreated d start_ms end_ms rate max_packets closes sc made))
