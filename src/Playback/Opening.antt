-- ===== src/Playback/Opening.antt =====
-- How each layer of the stack starts the one below it: the equations of `iter_packets` in the
-- state `CREATED`.
use k5_vision.Prelude.{ℕ, ◌≡◌, Bool, Option, none, some, arith}
use k5_vision.Rtp.{Bytes}
use k5_vision.Recording.Reader.{File, new_reader}
use k5_vision.Recording.Reader
use k5_vision.Playback.Descriptor.{Descriptor}
use k5_vision.Playback.Boundary.{State, Playback}
use k5_vision.Playback.Boundary
use k5_vision.Playback.Timeline.{Timeline, start_clock}
use k5_vision.Playback.Timeline
use k5_vision.Playback.Navigation.{Navigator}
use k5_vision.Playback.Navigation
use k5_vision.Playback.Window.{Window}
use k5_vision.Playback.Window
use k5_vision.Playback.Schedule.{Schedule, PlaybackRate}
use k5_vision.Playback.Schedule

-- Every layer of a new schedule waits to be started, with its counters at zero.
pub record IsCreated (d : Descriptor) (closes : Bool) (sc : Schedule) : Type 0 where
  pub schedule : sc.state ≡ State.created
  pub window : sc.window.state ≡ State.created
  pub navigator : sc.window.navigator.state ≡ Navigation.State.created
  pub timeline : sc.window.navigator.timeline.state ≡ State.created
  pub playback : sc.window.navigator.timeline.playback.state ≡ State.created
  pub reader :
      let r = sc.window.navigator.timeline.playback.reader in r ≡ new_reader r.limits closes
  pub descriptor : sc.window.navigator.timeline.playback.descriptor ≡ d
  pub packets : sc.window.navigator.timeline.playback.packets ≡ 0
  pub payload_bytes : sc.window.navigator.timeline.playback.payload_bytes ≡ 0

pub init-IsCreated :
    (d : Descriptor) (start_ms end_ms : ℕ) (rate : PlaybackRate) (max_packets : ℕ) (closes : Bool)
    (sc : Schedule)
    → Schedule.init d start_ms end_ms rate max_packets closes ≡ some sc
    → IsCreated d closes sc
unfolding Schedule.init Window.init Navigation.init Timeline.init Boundary.init
init-IsCreated d start_ms end_ms rate max_packets closes sc h = ground arith

module _ (crc32 : Bytes → ℕ) (file : Option File) where
  pub schedule_opens :
      (sc : Schedule)
      → sc.state ≡ State.created
      → Schedule.iter_packets crc32 sc file
        ≡ Schedule.loop
            (record sc { state = State.reading })
            none
            (Window.iter_packets crc32 sc.window file)
  unfolding Schedule.iter_packets
  schedule_opens sc h = ground arith

  pub window_opens :
      (w : Window)
      → w.state ≡ State.created
      → Window.iter_packets crc32 w file
        ≡ Window.loop
            (record w { state = State.reading })
            (Navigation.iter_packets crc32 w.navigator file)
  unfolding Window.iter_packets
  window_opens w h = ground arith

  pub nav_opens :
      (nav : Navigator)
      → nav.state ≡ Navigation.State.created
      → Navigation.iter_packets crc32 nav file
        ≡ Navigation.loop
            (record nav { state = Navigation.State.scanning })
            (Timeline.iter_packets crc32 nav.timeline file)
  unfolding Navigation.iter_packets
  nav_opens nav h = ground arith

  pub timeline_opens :
      (tl : Timeline)
      → tl.state ≡ State.created
      → Timeline.iter_packets crc32 tl file
        ≡ Timeline.loop
            (record tl { state = State.reading })
            start_clock
            (Boundary.iter_packets crc32 tl.playback file)
  unfolding Timeline.iter_packets
  timeline_opens tl h = ground arith

  pub playback_opens :
      (pb : Playback)
      → pb.state ≡ State.created
      → Boundary.iter_packets crc32 pb file
        ≡ Boundary.loop
            (record pb { state = State.reading })
            (Reader.iter_packets crc32 pb.reader file)
  unfolding Boundary.iter_packets
  playback_opens pb h = ground arith
