-- ===== src/Playback/Navigation.antt =====
-- `BoundedPlaybackNavigator` of src/k5vision/media/playback_navigation.py, over the timeline.
use k5_vision.Prelude.{ℕ, ◌+◌, Bool, false, ◌&&◌, Option, none, some, ltb, leb, if◌then◌else◌}
use k5_vision.Rtp.{Bytes}
use k5_vision.Generator.{Run, yields, returns, raises, out_of_fuel}
use k5_vision.Recording.Format.{max_packets_limit}
use k5_vision.Recording.Reader.{File}
use k5_vision.Playback.Descriptor.{Descriptor}
use k5_vision.Playback.Timeline.{Timeline, TimelineError, TimedPacket}
use k5_vision.Playback.Timeline

pub data State : Type 0 where
  created scanning positioned complete aborted failed : State

pub data NavigationError : Type 0 where
  invalid_state : NavigationError
  timeline_failure : TimelineError → NavigationError

pub record Navigator : Type 0 where
  pub timeline : Timeline
  pub target_ms : ℕ
  pub state : State
  pub scanned_packets : ℕ
  pub emitted_packets : ℕ
  pub positioned_at_ms : Option ℕ
  pub descriptor_verified : Bool

unfoldable pub init : Descriptor → ℕ → ℕ → Bool → Option Navigator
init d target_ms max_packets closes =
    if leb target_ms d.duration_ms
      && leb 1 max_packets
      && leb max_packets max_packets_limit
      && leb d.packet_count max_packets
    then elim (Timeline.init d max_packets closes) [
      | none ↦ none
      | some tl ↦ some (record {
        timeline = tl;
        target_ms = target_ms;
        state = State.created;
        scanned_packets = 0;
        emitted_packets = 0;
        positioned_at_ms = none;
        descriptor_verified = false;
      })
    ]
    else none

-- The state after a packet was counted, and after one was taken as the position.
abbrev pub scan : Navigator → Timeline → Navigator
scan nav tl = record nav { timeline = tl; scanned_packets = nav.scanned_packets + 1 }

abbrev pub emit : Navigator → Navigator
emit nav = record nav { emitted_packets = nav.emitted_packets + 1 }

abbrev pub position : Navigator → ℕ → Navigator
position nav ms = record nav { positioned_at_ms = some ms; state = State.positioned }

-- One turn of the loop: `none` is the `continue` before the target.
unfoldable pub select_packet : Navigator → TimedPacket → Option Navigator
select_packet nav item = elim nav.positioned_at_ms [
  | some _ ↦ some (emit nav)
  | none ↦
      if ltb item.elapsed_ms nav.target_ms then none else some (emit (position nav item.elapsed_ms))
]

unfoldable pub loop :
    Navigator → Run Timeline TimelineError TimedPacket → Run Navigator NavigationError TimedPacket
loop nav (yields item tl t) = elim (select_packet (scan nav tl) item) [
  | none ↦ loop (scan nav tl) t
  | some nav' ↦ yields item nav' (loop nav' t)
]
loop nav (returns tl) = returns (record nav {
  timeline = tl;
  descriptor_verified = tl.descriptor_verified;
  state = State.complete;
})
loop nav (raises e tl) =
    raises (NavigationError.timeline_failure e) (record nav { timeline = tl; state = State.failed })
loop nav out_of_fuel = out_of_fuel

abbrev leave_aborted : Navigator → Navigator
leave_aborted nav = record nav { timeline = Timeline.close nav.timeline; state = State.aborted }

unfoldable pub close : Navigator → Navigator
close nav = elim nav.state [
  | State.scanning ↦ leave_aborted nav
  | State.positioned ↦ leave_aborted nav
  | _ ↦ nav
]

module _ (crc32 : Bytes → ℕ) where
  unfoldable pub iter_packets : Navigator → Option File → Run Navigator NavigationError TimedPacket
  iter_packets nav file = elim nav.state [
    | State.created ↦
        loop (record nav { state = State.scanning }) (Timeline.iter_packets crc32 nav.timeline file)
    | _ ↦ raises NavigationError.invalid_state nav
  ]
