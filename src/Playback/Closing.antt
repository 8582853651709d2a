-- ===== src/Playback/Closing.antt =====
-- What holds of the playback stack at a suspension, where a caller may leave its loop.
use k5_vision.Prelude.{
  ℕ, ◌≡◌, ◌∙◌, ap, arith, Option-cases, Option, some, inl, inr, ◌⊎◌, Bool-cases, leb,
}
use k5_vision.Rtp.{Bytes}
use k5_vision.Generator.{Run, yields, returns, raises, out_of_fuel, Suspends}
use k5_vision.Recording.Sink.{ErrorCode}
use k5_vision.Recording.Sink
use k5_vision.Recording.Reader.{File, Reader, read_records}
use k5_vision.Recording.Decoding.{read_records-cases}
use k5_vision.Playback.Boundary.{State, Playback, PlaybackError}
use k5_vision.Playback.Boundary
use k5_vision.Playback.Checked.{IsChecked}
use k5_vision.Playback.Checked
use k5_vision.Playback.Timeline.{Timeline, TimelineError, TimedPacket, Clock}
use k5_vision.Playback.Timeline
use k5_vision.Playback.Timing.{IsTimed}
use k5_vision.Playback.Timing
use k5_vision.Playback.Navigation.{Navigator, NavigationError}
use k5_vision.Playback.Navigation
use k5_vision.Playback.Selection
use k5_vision.Playback.Window.{Window, WindowError}
use k5_vision.Playback.Window
use k5_vision.Playback.Schedule.{Schedule, ScheduleError}
use k5_vision.Playback.Schedule

-- A layer that is suspended, with all below it.
abbrev pub ReaderOpen : Reader → Type 0
ReaderOpen r = r.state ≡ Sink.State.opened

abbrev pub PlaybackOpen : Playback → Type 0
PlaybackOpen pb = (pb.state ≡ State.reading) × ReaderOpen pb.reader

abbrev pub TimelineOpen : Timeline → Type 0
TimelineOpen tl = (tl.state ≡ State.reading) × PlaybackOpen tl.playback

abbrev pub NavigatorOpen : Navigator → Type 0
NavigatorOpen nav =
    ((nav.state ≡ Navigation.State.scanning) ⊎ (nav.state ≡ Navigation.State.positioned))
    × TimelineOpen nav.timeline

abbrev pub WindowOpen : Window → Type 0
WindowOpen w = (w.state ≡ State.reading) × NavigatorOpen w.navigator

abbrev pub ScheduleOpen : Schedule → Type 0
ScheduleOpen sc = (sc.state ≡ State.reading) × WindowOpen sc.window

module _ (crc32 : Bytes → ℕ) where
  pub records-Suspends :
      (fuel : ℕ) (r : Reader) (f : File)
      → ReaderOpen r
      → Suspends ReaderOpen (read_records crc32 fuel r f)
  unfolding read_records
  records-Suspends ℕ.zero r f h = tt
  records-Suspends (ℕ.suc fuel) r f h =
      read_records-cases crc32 fuel r f (Suspends ReaderOpen) (λ r' _. tt) (λ e r' _. tt)
        (λ p r' f' s. (s.state ∙ h, records-Suspends fuel r' f' (s.state ∙ h)))

pub boundary-Suspends :
    (pb : Playback) (t : Run Reader ErrorCode Bytes)
    → pb.state ≡ State.reading
    → Suspends ReaderOpen t
    → Suspends PlaybackOpen (Boundary.loop pb t)
boundary-Suspends pb (yields packet r t) h s =
    Checked.loop-cases pb packet r t (Suspends PlaybackOpen)
      (λ pb' c.
        let state = ap (λ (x : Playback). x.state) c.counted ∙ h in
        (
          (state, ap (λ (x : Playback). x.reader.state) c.counted ∙ s.0),
          boundary-Suspends pb' t state s.1,
        ))
      (λ e pb'. tt)
boundary-Suspends pb (returns r) h s =
    unfold Boundary.loop in Checked.finish-cases (Suspends PlaybackOpen) pb r (λ s. tt) (λ e s. tt)
boundary-Suspends pb (raises e r) h s = unfold Boundary.loop in tt
boundary-Suspends pb out_of_fuel h s = unfold Boundary.loop in tt

pub timeline-Suspends :
    (tl : Timeline) (c : Clock) (t : Run Playback PlaybackError Bytes)
    → tl.state ≡ State.reading
    → Suspends PlaybackOpen t
    → Suspends TimelineOpen (Timeline.loop tl c t)
timeline-Suspends tl c (yields packet pb t) h s =
    Timing.loop-cases tl c packet pb t (Suspends TimelineOpen)
      (λ item tl' c' timed _.
        let state = timed.same_state ∙ h in
        ((state, rw timed.inner s.0), timeline-Suspends tl' c' t state s.1))
      (λ e tl'. tt)
timeline-Suspends tl c (returns pb) h s = unfold Timeline.loop in tt
timeline-Suspends tl c (raises e pb) h s = unfold Timeline.loop in tt
timeline-Suspends tl c out_of_fuel h s = unfold Timeline.loop in tt

-- What the navigator's turn does to its state.
select-NavigatorOpen :
    (nav : Navigator) (item : TimedPacket) (nav' : Navigator)
    → Navigation.select_packet nav item ≡ some nav'
    → NavigatorOpen nav
    → NavigatorOpen nav'
unfolding Navigation.select_packet
select-NavigatorOpen nav item nav' h o = ground arith

pub navigator-Suspends :
    (nav : Navigator) (t : Run Timeline TimelineError TimedPacket)
    → (nav.state ≡ Navigation.State.scanning) ⊎ (nav.state ≡ Navigation.State.positioned)
    → Suspends TimelineOpen t
    → Suspends NavigatorOpen (Navigation.loop nav t)
navigator-Suspends nav (yields item tl t) h s =
    elim (Option-cases (Navigation.select_packet (Navigation.scan nav tl) item)) [
      | inl skipped ↦
          rw (Selection.nav-skip nav item tl t skipped)
            (navigator-Suspends (Navigation.scan nav tl) t h s.1)
      | inr (nav', taken) ↦
          let o = select-NavigatorOpen (Navigation.scan nav tl) item nav' taken (h, s.0) in
          rw (Selection.nav-emit nav item tl t taken) (o, navigator-Suspends nav' t o.0 s.1)
    ]
navigator-Suspends nav (returns tl) h s = unfold Navigation.loop in tt
navigator-Suspends nav (raises e tl) h s = unfold Navigation.loop in tt
navigator-Suspends nav out_of_fuel h s = unfold Navigation.loop in tt

pub window-Suspends :
    (w : Window) (t : Run Navigator NavigationError TimedPacket)
    → w.state ≡ State.reading
    → Suspends NavigatorOpen t
    → Suspends WindowOpen (Window.loop w t)
window-Suspends w (yields item nav t) h s = elim (Bool-cases (leb item.elapsed_ms w.end_ms)) [
  | inl inside ↦
      rw (Selection.window-emit w item nav t inside)
        ((h, s.0), window-Suspends (Window.emit (Window.scan w nav) item.elapsed_ms) t h s.1)
  | inr behind ↦
      rw (Selection.window-skip w item nav t behind) (window-Suspends (Window.scan w nav) t h s.1)
]
window-Suspends w (returns nav) h s = unfold Window.loop in tt
window-Suspends w (raises e nav) h s = unfold Window.loop in tt
window-Suspends w out_of_fuel h s = unfold Window.loop in tt

pub schedule-Suspends :
    (sc : Schedule) (origin : Option ℕ) (t : Run Window WindowError TimedPacket)
    → sc.state ≡ State.reading
    → Suspends WindowOpen t
    → Suspends ScheduleOpen (Schedule.loop sc origin t)
unfolding Schedule.loop
schedule-Suspends sc origin (yields item w t) h s =
    let o = Schedule.origin_at origin item.elapsed_ms in
    ((h, s.0), schedule-Suspends (Schedule.count_item sc o item w) (some o) t h s.1)
schedule-Suspends sc origin (returns w) h s = tt
schedule-Suspends sc origin (raises e w) h s = tt
schedule-Suspends sc origin out_of_fuel h s = tt
