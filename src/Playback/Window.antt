-- ===== src/Playback/Window.antt =====
-- `BoundedPlaybackWindow` of src/k5vision/media/playback_window.py, over the navigator.
use k5_vision.Prelude.{ℕ, ◌+◌, Bool, false, ◌&&◌, Option, none, some, ltb, leb, if◌then◌else◌}
use k5_vision.Rtp.{Bytes}
use k5_vision.Generator.{Run, yields, returns, raises, out_of_fuel}
use k5_vision.Recording.Format.{max_packets_limit}
use k5_vision.Recording.Reader.{File}
use k5_vision.Playback.Descriptor.{Descriptor}
use k5_vision.Playback.Boundary.{State}
use k5_vision.Playback.Timeline.{TimedPacket}
use k5_vision.Playback.Navigation.{Navigator, NavigationError}
use k5_vision.Playback.Navigation

pub data WindowError : Type 0 where
  invalid_state : WindowError
  navigation_failure : NavigationError → WindowError

pub record Window : Type 0 where
  pub navigator : Navigator
  pub start_ms : ℕ
  pub end_ms : ℕ
  pub state : State
  pub scanned_packets : ℕ
  pub emitted_packets : ℕ
  pub first_emitted_ms : Option ℕ
  pub last_emitted_ms : Option ℕ
  pub descriptor_verified : Bool

unfoldable pub init : Descriptor → ℕ → ℕ → ℕ → Bool → Option Window
init d start_ms end_ms max_packets closes =
    if leb start_ms end_ms
      && leb end_ms d.duration_ms
      && leb 1 max_packets
      && leb max_packets max_packets_limit
      && leb d.packet_count max_packets
    then elim (Navigation.init d start_ms max_packets closes) [
      | none ↦ none
      | some nav ↦ some (record {
        navigator = nav;
        start_ms = start_ms;
        end_ms = end_ms;
        state = State.created;
        scanned_packets = 0;
        emitted_packets = 0;
        first_emitted_ms = none;
        last_emitted_ms = none;
        descriptor_verified = false;
      })
    ]
    else none

abbrev pub scan : Window → Navigator → Window
scan w nav = record w { navigator = nav; scanned_packets = w.scanned_packets + 1 }

abbrev first_of_emitted : Option ℕ → ℕ → Option ℕ
first_of_emitted none ms = some ms
first_of_emitted (some first) ms = some first

abbrev pub emit : Window → ℕ → Window
emit w ms = record w {
  first_emitted_ms = first_of_emitted w.first_emitted_ms ms;
  last_emitted_ms = some ms;
  emitted_packets = w.emitted_packets + 1;
}

-- One turn of the loop: `none` is the `continue` behind the end of the window.
unfoldable pub select_packet : Window → TimedPacket → Option Window
select_packet w item = if ltb w.end_ms item.elapsed_ms then none else some (emit w item.elapsed_ms)

unfoldable pub loop :
    Window → Run Navigator NavigationError TimedPacket → Run Window WindowError TimedPacket
loop w (yields item nav t) = elim (select_packet (scan w nav) item) [
  | none ↦ loop (scan w nav) t
  | some w' ↦ yields item w' (loop w' t)
]
loop w (returns nav) = returns (record w {
  navigator = nav;
  descriptor_verified = nav.descriptor_verified;
  state = State.complete;
})
loop w (raises e nav) =
    raises (WindowError.navigation_failure e) (record w { navigator = nav; state = State.failed })
loop w out_of_fuel = out_of_fuel

unfoldable pub close : Window → Window
close w = elim w.state [
  | State.reading ↦ record w { navigator = Navigation.close w.navigator; state = State.aborted }
  | _ ↦ w
]

module _ (crc32 : Bytes → ℕ) where
  unfoldable pub iter_packets : Window → Option File → Run Window WindowError TimedPacket
  iter_packets w file = elim w.state [
    | State.created ↦
        loop (record w { state = State.reading }) (Navigation.iter_packets crc32 w.navigator file)
    | _ ↦ raises WindowError.invalid_state w
  ]
