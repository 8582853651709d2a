-- ===== src/Playback/Completion.antt =====
-- How the ends of a layer's run of the playback stack hang on the ends of the run below it.
use k5_vision.Prelude.{ℕ, ◌≡◌, ◌≢◌, refl, ap, Option-cases, Option, some, inl, inr, Bool-cases, leb}
use k5_vision.Rtp.{Bytes}
use k5_vision.Generator.{Run, yields, returns, raises, out_of_fuel, Ending, ending}
use k5_vision.Recording.Sink.{ErrorCode}
use k5_vision.Recording.Reader.{Reader}
use k5_vision.Playback.Boundary.{State, Playback, PlaybackError}
use k5_vision.Playback.Boundary
use k5_vision.Playback.Checked
use k5_vision.Playback.Timeline.{Timeline, TimelineError, Clock}
use k5_vision.Playback.Timeline
use k5_vision.Playback.Timing
use k5_vision.Playback.Navigation.{Navigator, NavigationError}
use k5_vision.Playback.Navigation
use k5_vision.Playback.Selection
use k5_vision.Playback.Window.{Window, WindowError}
use k5_vision.Playback.Window
use k5_vision.Playback.Schedule.{Schedule, ScheduleError}
use k5_vision.Playback.Schedule
use k5_vision.Playback.Timeline.{TimedPacket}

-- The run `u` of a layer over the run `t` of the one below it is stuck, or completes, only with it.
pub record Through {ℓ κ μ ℓ' κ' μ'} {S : Type ℓ} {E : Type κ} {A : Type μ} {S' : Type ℓ'}
    {E' : Type κ'} {B : Type μ'} (below : S' → S) (t : Run S E A) (u : Run S' E' B)
    : Type (ℓ ⊔ κ ⊔ ℓ' ⊔ κ') where
  pub stuck : ending u ≡ Ending.stuck → ending t ≡ Ending.stuck
  pub returned : (s : S') → ending u ≡ Ending.returned s → ending t ≡ Ending.returned (below s)

-- An exception is no completion.
Through-raises {ℓ κ μ ℓ' κ' μ'} :
    {S : Type ℓ} {E : Type κ} {A : Type μ} {S' : Type ℓ'} {E' : Type κ'} {B : Type μ'}
    (below : S' → S) (t : Run S E A) (e : E') (s : S')
    → Through {B = B} below t (raises e s)
Through-raises below t e s = record { stuck = λ h. absurd (cc h); returned = λ s' h. absurd (cc h) }

Through-returns {ℓ κ μ ℓ' κ' μ'} :
    {S : Type ℓ} {E : Type κ} {A : Type μ} {S' : Type ℓ'} {E' : Type κ'} {B : Type μ'}
    (below : S' → S) (s : S')
    → Through {E = E} {A = A} {E' = E'} {B = B} below (returns (below s)) (returns s)
Through-returns below s = record {
  stuck = λ h. absurd (cc h);
  returned = λ s' h. ap Ending.returned (ap below (cc h));
}

Through-fuel {ℓ κ μ ℓ' κ' μ'} :
    {S : Type ℓ} {E : Type κ} {A : Type μ} {S' : Type ℓ'} {E' : Type κ'} {B : Type μ'}
    (below : S' → S)
    → Through {E = E} {A = A} {E' = E'} {B = B} below out_of_fuel out_of_fuel
Through-fuel below = record { stuck = λ h. refl; returned = λ s h. absurd (cc h) }

finish-ends : (pb : Playback) (r : Reader) → ending (Boundary.finish pb r) ≢ Ending.stuck
finish-ends pb r =
    Checked.finish-cases (λ u. ending u ≢ Ending.stuck) pb r (λ s h. cc h) (λ e s h. cc h)

pub boundary-Through :
    (pb : Playback) (t : Run Reader ErrorCode Bytes)
    → Through (λ (s : Playback). s.reader) t (Boundary.loop pb t)
boundary-Through pb (yields packet r t) =
    Checked.loop-cases pb packet r t (Through (λ (s : Playback). s.reader) (yields packet r t))
      (λ pb' c.
        let ih = boundary-Through pb' t in record { stuck = ih.stuck; returned = ih.returned })
      (λ e pb'. Through-raises (λ (s : Playback). s.reader) (yields packet r t) e pb')
boundary-Through pb (returns r) = record {
  stuck = λ h. absurd (unfold Boundary.loop in finish-ends pb r h);
  returned = λ s h. (Checked.loop-IsComplete pb (returns r) s h).read;
}
boundary-Through pb (raises e r) = unfold Boundary.loop in Through-raises _ (raises e r) _ _
boundary-Through pb out_of_fuel = unfold Boundary.loop in Through-fuel _

pub timeline-Through :
    (tl : Timeline) (c : Clock) (t : Run Playback PlaybackError Bytes)
    → Through (λ (s : Timeline). s.playback) t (Timeline.loop tl c t)
timeline-Through tl c (yields packet pb t) =
    Timing.loop-cases tl c packet pb t (Through (λ (s : Timeline). s.playback) (yields packet pb t))
      (λ item tl' c' timed _.
        let ih = timeline-Through tl' c' t in record { stuck = ih.stuck; returned = ih.returned })
      (λ e tl'. Through-raises (λ (s : Timeline). s.playback) (yields packet pb t) e tl')
timeline-Through tl c (returns pb) = unfold Timeline.loop in Through-returns _ _
timeline-Through tl c (raises e pb) = unfold Timeline.loop in Through-raises _ (raises e pb) _ _
timeline-Through tl c out_of_fuel = unfold Timeline.loop in Through-fuel _

pub navigator-Through :
    (nav : Navigator) (t : Run Timeline TimelineError TimedPacket)
    → Through (λ (s : Navigator). s.timeline) t (Navigation.loop nav t)
navigator-Through nav (yields item tl t) =
    elim (Option-cases (Navigation.select_packet (Navigation.scan nav tl) item)) [
      | inl skipped ↦
          let ih = navigator-Through (Navigation.scan nav tl) t in
          rw (Selection.nav-skip nav item tl t skipped)
            (record { stuck = ih.stuck; returned = ih.returned })
      | inr (nav', taken) ↦
          let ih = navigator-Through nav' t in
          rw (Selection.nav-emit nav item tl t taken)
            (record { stuck = ih.stuck; returned = ih.returned })
    ]
navigator-Through nav (returns tl) = unfold Navigation.loop in Through-returns _ _
navigator-Through nav (raises e tl) = unfold Navigation.loop in Through-raises _ (raises e tl) _ _
navigator-Through nav out_of_fuel = unfold Navigation.loop in Through-fuel _

pub window-Through :
    (w : Window) (t : Run Navigator NavigationError TimedPacket)
    → Through (λ (s : Window). s.navigator) t (Window.loop w t)
window-Through w (yields item nav t) = elim (Bool-cases (leb item.elapsed_ms w.end_ms)) [
  | inl inside ↦
      let ih = window-Through (Window.emit (Window.scan w nav) item.elapsed_ms) t in
      rw (Selection.window-emit w item nav t inside)
        (record { stuck = ih.stuck; returned = ih.returned })
  | inr behind ↦
      let ih = window-Through (Window.scan w nav) t in
      rw (Selection.window-skip w item nav t behind)
        (record { stuck = ih.stuck; returned = ih.returned })
]
window-Through w (returns nav) = unfold Window.loop in Through-returns _ _
window-Through w (raises e nav) = unfold Window.loop in Through-raises _ (raises e nav) _ _
window-Through w out_of_fuel = unfold Window.loop in Through-fuel _

pub schedule-Through :
    (sc : Schedule) (origin : Option ℕ) (t : Run Window WindowError TimedPacket)
    → Through (λ (s : Schedule). s.window) t (Schedule.loop sc origin t)
unfolding Schedule.loop
schedule-Through sc origin (yields item w t) =
    let o = Schedule.origin_at origin item.elapsed_ms in
    let ih = schedule-Through (Schedule.count_item sc o item w) (some o) t in
    record { stuck = ih.stuck; returned = ih.returned }
schedule-Through sc origin (returns w) = Through-returns _ _
schedule-Through sc origin (raises e w) = Through-raises _ (raises e w) _ _
schedule-Through sc origin out_of_fuel = Through-fuel _
