-- ===== src/Playback/Tests.antt =====
-- The playback theorems at a recording of two packets, ten milliseconds apart.
use k5_vision.Prelude.{
  [], ◌∷◌, ◌≡◌, ◌≢◌, refl, true, false, map, none, some, AscendingFrom, keep_if,
}
use k5_vision.Rtp.{Bytes, is_rtp_v2}
use k5_vision.Generator.{Run, Ending, returned, raised, stuck, items, ending, Suspends}
use k5_vision.Recording.Format.{frames, frame, pack_u32}
use k5_vision.Recording.Sink.{Limits}
use k5_vision.Recording.Reader.{File, new_reader}
use k5_vision.Recording.Reader
use k5_vision.Recording.Replay.{whole}
use k5_vision.Recording.Tests.{sum, second, recorded, recorded-IsBytes}
use k5_vision.Playback.Descriptor.{Descriptor, VideoCodec}
use k5_vision.Playback.Boundary.{State}
use k5_vision.Playback.Boundary
use k5_vision.Playback.Timeline.{TimedPacket}
use k5_vision.Playback.Timeline
use k5_vision.Playback.Navigation
use k5_vision.Playback.Window.{Window}
use k5_vision.Playback.Window
use k5_vision.Playback.Selection.{in_window, items-iter_packets, window-AscendingFrom}
use k5_vision.Playback.Schedule.{Schedule, PlaybackRate}
use k5_vision.Playback.Schedule
use k5_vision.Playback.Pacing.{IsSchedule, iter_packets-IsSchedule}
use k5_vision.Playback.Abandoning.{IsClosed, iter_packets-IsClosed}
use k5_vision.Playback.Verified.{Describes, schedule_total, schedule-Describes}
use k5_vision.Prelude.{arith}
use k5_vision.Playback.Timing.{TimedFrom}
use k5_vision.Playback.Elapsed.{loop-TimedFrom, origin_of}
use k5_vision.Playback.Boundary.{Playback, PlaybackError}
use k5_vision.Playback.Timeline.{Timeline, start_clock}

abbrev descriptor : Descriptor
descriptor = record {
  recording_id = 1;
  source_id = 2;
  codec = VideoCodec.h264;
  payload_type = 96;
  clock_rate_hz = 90_000;
  started_at = record { microseconds = 0; is_utc = true };
  ended_at = record { microseconds = 10_000; is_utc = true };
  duration_ms = 10;
  rtp_timestamp_origin = 0;
  packet_count = 2;
  payload_bytes = 25;
  file_bytes = 49;
}

abbrev default_limits : Limits
default_limits = record {
  max_packets = 100;
  max_payload_bytes = 8_589_934_592;
  max_packet_bytes = 65_535;
}

abbrev window : Window
window = record {
  navigator = record {
    timeline = record {
      descriptor = descriptor;
      playback = record {
        descriptor = descriptor;
        reader = new_reader default_limits true;
        state = State.created;
        packets = 0;
        payload_bytes = 0;
        file_bytes = 0;
        descriptor_verified = false;
      };
      state = State.created;
      packets = 0;
      elapsed_ms = 0;
      timestamp_wraps = 0;
      descriptor_verified = false;
    };
    target_ms = 5;
    state = Navigation.State.created;
    scanned_packets = 0;
    emitted_packets = 0;
    positioned_at_ms = none;
    descriptor_verified = false;
  };
  start_ms = 5;
  end_ms = 10;
  state = State.created;
  scanned_packets = 0;
  emitted_packets = 0;
  first_emitted_ms = none;
  last_emitted_ms = none;
  descriptor_verified = false;
}

abbrev schedule : Schedule
schedule = record {
  window = window;
  rate = PlaybackRate.double;
  state = State.created;
  packets = 0;
  source_span_ms = 0;
  scheduled_span_ms = 0;
  descriptor_verified = false;
}

window-made : Window.init descriptor 5 10 100 true ≡ some window
unfolding Window.init Navigation.init Timeline.init Boundary.init
window-made = refl

schedule-made : Schedule.init descriptor 5 10 PlaybackRate.double 100 true ≡ some schedule
unfolding Schedule.init Window.init Navigation.init Timeline.init Boundary.init
schedule-made = refl

abbrev file : File
file = whole recorded

items-iter_packets_example :
    items (Window.iter_packets sum window (some file))
    ≡ keep_if
        (in_window 5 10)
        (items (Timeline.iter_packets sum window.navigator.timeline (some file)))
items-iter_packets_example =
    items-iter_packets sum (some file) descriptor 5 10 100 true window window-made

window-AscendingFrom_example :
    AscendingFrom 5 (map (λ i. i.elapsed_ms) (items (Window.iter_packets sum window (some file))))
window-AscendingFrom_example =
    window-AscendingFrom sum (some file) descriptor 5 10 100 true window window-made

iter_packets-IsSchedule_example :
    IsSchedule PlaybackRate.double (items (Schedule.iter_packets sum schedule (some file)))
iter_packets-IsSchedule_example =
    iter_packets-IsSchedule sum (some file) descriptor 5 10 PlaybackRate.double 100 true schedule
      schedule-made

iter_packets-IsClosed_example :
    Suspends (λ s. IsClosed (Schedule.close s)) (Schedule.iter_packets sum schedule (some file))
iter_packets-IsClosed_example =
    iter_packets-IsClosed sum descriptor 5 10 PlaybackRate.double 100 true schedule (some file)
      schedule-made

schedule_total_example : ending (Schedule.iter_packets sum schedule (some file)) ≢ Ending.stuck
schedule_total_example =
    schedule_total sum descriptor 5 10 PlaybackRate.double 100 true schedule schedule-made
      (some file)

abbrev state_of {ℓ κ} : {S : Type ℓ} {E : Type κ} → S → Ending S E → S
state_of s (returned s') = s'
state_of s (raised _ s') = s'
state_of s stuck = s

abbrev schedule_done : Schedule
schedule_done = state_of schedule (ending (Schedule.iter_packets sum schedule (some file)))

schedule-returned :
    ending (Schedule.iter_packets sum schedule (some file)) ≡ Ending.returned schedule_done
unfolding Schedule.iter_packets Window.iter_packets Navigation.iter_packets Timeline.iter_packets
    Boundary.iter_packets Reader.iter_packets Schedule.loop Window.loop Navigation.loop
    Timeline.loop Boundary.loop Reader.after_magic frames frame pack_u32 Reader.bytes_eq
    Reader.read_records Reader.read_record Reader.after_header Reader.admit_record
    Reader.accept_payload Reader.read_exact is_rtp_v2 Boundary.check_packet Boundary.close
    Boundary.finish Boundary.validate_complete Boundary.validate_packet Boundary.validate_progress
    Navigation.select_packet Schedule.due_after Timeline.advance Timeline.time_packet
    Window.select_packet Reader.close Reader.read Reader.read_exact_loop
schedule-returned = refl

schedule-Describes_example :
    Describes sum descriptor default_limits file
      (items (Reader.iter_packets sum (new_reader default_limits true) (some file)))
schedule-Describes_example =
    schedule-Describes sum descriptor 5 10 PlaybackRate.double 100 true schedule schedule-made file
      schedule_done recorded-IsBytes schedule-returned

-- A run whose second timestamp has wrapped.
abbrev wrapped : Run Playback PlaybackError Bytes
wrapped =
    let pb = window.navigator.timeline.playback in
    Run.yields (128 ∷ 96 ∷ 0 ∷ 1 ∷ 255 ∷ 255 ∷ 255 ∷ 255 ∷ 0 ∷ 0 ∷ 0 ∷ 7 ∷ []) pb
      (Run.yields second pb (Run.returns pb))

loop-TimedFrom_example :
    TimedFrom 90_000 0
      (origin_of (items (Timeline.loop window.navigator.timeline start_clock wrapped)))
      (items (Timeline.loop window.navigator.timeline start_clock wrapped))
loop-TimedFrom_example =
    loop-TimedFrom window.navigator.timeline wrapped (omega arith, (omega arith, tt))
