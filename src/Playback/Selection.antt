-- ===== src/Playback/Selection.antt =====
-- What playback_navigation.py and playback_window.py of src/k5vision/media select of a timeline.
use k5_vision.Prelude.{
  ℕ, ◌≤◌, ◌≡◌, refl, ap, ap₂, ◌⊎◌, Bool, true, false, ◌&&◌, Option, none, some, List, [], ◌∷◌, map,
  arith, keep_if, from_first, from_first-eq-keep_if, keep_if-keep_if, leb, Bool-cases, inl, inr,
  AscendingFrom, AscendingFrom-weaken,
}
use k5_vision.Rtp.{Bytes}
use k5_vision.Generator.{Run, yields, returns, raises, out_of_fuel, items}
use k5_vision.Recording.Reader.{File}
use k5_vision.Playback.Opening.{window_opens, nav_opens}
use k5_vision.Playback.Descriptor.{Descriptor}
use k5_vision.Playback.Boundary
use k5_vision.Playback.Boundary.{State}
use k5_vision.Playback.Timing.{loop-AscendingFrom}
use k5_vision.Playback.Timeline.{Timeline, TimelineError, TimedPacket}
use k5_vision.Playback.Timeline
use k5_vision.Playback.Navigation.{Navigator, NavigationError}
use k5_vision.Playback.Navigation
use k5_vision.Playback.Window.{Window, WindowError}
use k5_vision.Playback.Window

module _ (nav : Navigator) (item : TimedPacket) (tl : Timeline)
    (t : Run Timeline TimelineError TimedPacket) where
  pub nav-skip :
      Navigation.select_packet (Navigation.scan nav tl) item ≡ none
      → Navigation.loop nav (yields item tl t) ≡ Navigation.loop (Navigation.scan nav tl) t
  unfolding Navigation.loop
  nav-skip h = rw (h, Navigation.loop)

  pub nav-emit :
      {nav' : Navigator}
      → Navigation.select_packet (Navigation.scan nav tl) item ≡ some nav'
      → Navigation.loop nav (yields item tl t) ≡ yields item nav' (Navigation.loop nav' t)
  unfolding Navigation.loop
  nav-emit h = rw (h, Navigation.loop)

select-positioned :
    (nav : Navigator) (item : TimedPacket) (ms : ℕ)
    → nav.positioned_at_ms ≡ some ms
    → Navigation.select_packet nav item ≡ some (Navigation.emit nav)
unfolding Navigation.select_packet
select-positioned nav item ms h = ground arith

select-before :
    (nav : Navigator) (item : TimedPacket)
    → nav.positioned_at_ms ≡ none
    → leb nav.target_ms item.elapsed_ms ≡ false
    → Navigation.select_packet nav item ≡ none
unfolding Navigation.select_packet
select-before nav item h before = ground arith

select-first :
    (nav : Navigator) (item : TimedPacket)
    → nav.positioned_at_ms ≡ none
    → leb nav.target_ms item.elapsed_ms ≡ true
    → Navigation.select_packet nav item
      ≡ some (Navigation.emit (Navigation.position nav item.elapsed_ms))
unfolding Navigation.select_packet
select-first nav item h reached = ground arith

-- Once positioned, the navigator passes everything on.
items-nav_positioned :
    (nav : Navigator) (t : Run Timeline TimelineError TimedPacket) (ms : ℕ)
    → nav.positioned_at_ms ≡ some ms
    → items (Navigation.loop nav t) ≡ items t
items-nav_positioned nav (yields item tl t) ms h =
    rw (nav-emit nav item tl t (select-positioned (Navigation.scan nav tl) item ms h))
      (ap (item ∷◌) (items-nav_positioned (Navigation.emit (Navigation.scan nav tl)) t ms h))
items-nav_positioned nav (returns tl) ms h = unfold Navigation.loop in refl
items-nav_positioned nav (raises e tl) ms h = unfold Navigation.loop in refl
items-nav_positioned nav out_of_fuel ms h = unfold Navigation.loop in refl

abbrev reaches : ℕ → TimedPacket → Bool
reaches bound item = leb bound item.elapsed_ms

-- Before that it drops what lies before the target.
items-nav_loop :
    (nav : Navigator) (t : Run Timeline TimelineError TimedPacket)
    → nav.positioned_at_ms ≡ none
    → items (Navigation.loop nav t) ≡ from_first (reaches nav.target_ms) (items t)
items-nav_loop nav (yields item tl t) h = elim (Bool-cases (leb nav.target_ms item.elapsed_ms)) [
  | inl reached ↦
      rw (nav-emit nav item tl t (select-first (Navigation.scan nav tl) item h reached), reached)
        (ap (item ∷◌) (items-nav_positioned _ t item.elapsed_ms refl))
  | inr before ↦
      rw (nav-skip nav item tl t (select-before (Navigation.scan nav tl) item h before), before)
        (items-nav_loop (Navigation.scan nav tl) t h)
]
items-nav_loop nav (returns tl) h = unfold Navigation.loop in refl
items-nav_loop nav (raises e tl) h = unfold Navigation.loop in refl
items-nav_loop nav out_of_fuel h = unfold Navigation.loop in refl

module _ (w : Window) (item : TimedPacket) (nav : Navigator)
    (t : Run Navigator NavigationError TimedPacket) where
  pub window-skip :
      leb item.elapsed_ms w.end_ms ≡ false
      → Window.loop w (yields item nav t) ≡ Window.loop (Window.scan w nav) t
  unfolding Window.loop Window.select_packet
  window-skip h = ground arith

  pub window-emit :
      leb item.elapsed_ms w.end_ms ≡ true
      → Window.loop w (yields item nav t)
        ≡ yields item
            (Window.emit (Window.scan w nav) item.elapsed_ms)
            (Window.loop (Window.emit (Window.scan w nav) item.elapsed_ms) t)
  unfolding Window.loop Window.select_packet
  window-emit h = ground arith

abbrev within : ℕ → TimedPacket → Bool
within bound item = leb item.elapsed_ms bound

items-window_loop :
    (w : Window) (t : Run Navigator NavigationError TimedPacket)
    → items (Window.loop w t) ≡ keep_if (within w.end_ms) (items t)
items-window_loop w (yields item nav t) = elim (Bool-cases (leb item.elapsed_ms w.end_ms)) [
  | inl inside ↦
      rw (window-emit w item nav t inside, inside)
        (ap (item ∷◌) (items-window_loop (Window.emit (Window.scan w nav) item.elapsed_ms) t))
  | inr behind ↦
      rw (window-skip w item nav t behind, behind) (items-window_loop (Window.scan w nav) t)
]
items-window_loop w (returns nav) = unfold Window.loop in refl
items-window_loop w (raises e nav) = unfold Window.loop in refl
items-window_loop w out_of_fuel = unfold Window.loop in refl

-- The interval, by an independent test.
abbrev pub in_window : ℕ → ℕ → TimedPacket → Bool
in_window start_ms end_ms item = leb start_ms item.elapsed_ms && leb item.elapsed_ms end_ms

-- A new window, its navigator and its timeline.
record IsFresh (start_ms end_ms : ℕ) (w : Window) : Type 0 where
  starts : w.navigator.target_ms ≡ start_ms
  ends : w.end_ms ≡ end_ms
  window_created : w.state ≡ State.created
  navigator_created : w.navigator.state ≡ Navigation.State.created
  timeline_created : w.navigator.timeline.state ≡ State.created
  unpositioned : w.navigator.positioned_at_ms ≡ none

init-IsFresh :
    (d : Descriptor) (start_ms end_ms max_packets : ℕ) (closes : Bool) {w : Window}
    → Window.init d start_ms end_ms max_packets closes ≡ some w
    → IsFresh start_ms end_ms w
unfolding Window.init Navigation.init Timeline.init Boundary.init
init-IsFresh d start_ms end_ms max_packets closes h = ground arith

-- What is kept of an ascending sequence ascends, from the start of the interval.
keep_if-AscendingFrom :
    (start_ms end_ms lo lo' : ℕ) (xs : List TimedPacket)
    → AscendingFrom lo (map (λ i. i.elapsed_ms) xs)
    → (lo' ≡ start_ms) ⊎ (lo' ≤ lo)
    → AscendingFrom lo' (map (λ i. i.elapsed_ms) (keep_if (in_window start_ms end_ms) xs))
keep_if-AscendingFrom start_ms end_ms lo lo' [] a h = tt
keep_if-AscendingFrom start_ms end_ms lo lo' (x ∷ xs) a h =
    elim (Bool-cases (in_window start_ms end_ms x)) [
      | inl inside ↦ rw inside (
        ground arith,
        keep_if-AscendingFrom start_ms end_ms x.elapsed_ms x.elapsed_ms xs a.1 (inr (omega arith)),
      )
      | inr outside ↦
          rw outside (keep_if-AscendingFrom start_ms end_ms x.elapsed_ms lo' xs a.1 (ground arith))
    ]

module _ (crc32 : Bytes → ℕ) (file : Option File) where
  timeline-AscendingFrom :
      (tl : Timeline)
      → tl.state ≡ State.created
      → AscendingFrom 0 (map (λ i. i.elapsed_ms) (items (Timeline.iter_packets crc32 tl file)))
  unfolding Timeline.iter_packets
  timeline-AscendingFrom tl h =
      rw h (AscendingFrom-weaken _ (omega arith) (loop-AscendingFrom _ _ _))

  -- The window hands out, in order, exactly the packets of the recording's timeline whose time
  -- lies in the inclusive interval that it was made for.
  pub items-iter_packets :
      (d : Descriptor) (start_ms end_ms max_packets : ℕ) (closes : Bool) (w : Window)
      → Window.init d start_ms end_ms max_packets closes ≡ some w
      → items (Window.iter_packets crc32 w file)
        ≡ keep_if
            (in_window start_ms end_ms)
            (items (Timeline.iter_packets crc32 w.navigator.timeline file))
  items-iter_packets d start_ms end_ms max_packets closes w made =
      let f = init-IsFresh d start_ms end_ms max_packets closes made in
      let nav = w.navigator in
      rw
        (
          window_opens crc32 file w f.window_created,
          items-window_loop (record w { state = State.reading })
              (Navigation.iter_packets crc32 nav file),
          nav_opens crc32 file nav f.navigator_created,
          items-nav_loop (record nav { state = Navigation.State.scanning })
              (Timeline.iter_packets crc32 nav.timeline file) f.unpositioned,
          from_first-eq-keep_if (λ (i : TimedPacket). i.elapsed_ms) nav.target_ms 0
              (items (Timeline.iter_packets crc32 nav.timeline file))
              (timeline-AscendingFrom nav.timeline f.timeline_created),
          keep_if-keep_if,
        )
        (ap₂
          (λ a b. keep_if (in_window a b) (items (Timeline.iter_packets crc32 nav.timeline file)))
          f.starts f.ends)

  -- The packets of a new window ascend in time, from the start of its interval.
  pub window-AscendingFrom :
      (d : Descriptor) (start_ms end_ms max_packets : ℕ) (closes : Bool) (w : Window)
      → Window.init d start_ms end_ms max_packets closes ≡ some w
      → AscendingFrom start_ms (map (λ i. i.elapsed_ms) (items (Window.iter_packets crc32 w file)))
  window-AscendingFrom d start_ms end_ms max_packets closes w made =
      let f = init-IsFresh d start_ms end_ms max_packets closes made in
      rw (items-iter_packets d start_ms end_ms max_packets closes w made) (
        keep_if-AscendingFrom start_ms end_ms 0 start_ms
          (items (Timeline.iter_packets crc32 w.navigator.timeline file))
          (timeline-AscendingFrom w.navigator.timeline f.timeline_created) (inl refl))
