-- ===== src/Playback/Schedule.antt =====
-- `BoundedPlaybackSchedule` of src/k5vision/media/playback_schedule.py, over the window.
use k5_vision.Prelude.{ℕ, ◌+◌, ◌-◌, ◌*◌, ◌/◌, Bool, false, Option, none, some}
use k5_vision.Rtp.{Bytes}
use k5_vision.Generator.{Run, yields, returns, raises, out_of_fuel}
use k5_vision.Recording.Reader.{File}
use k5_vision.Playback.Descriptor.{Descriptor}
use k5_vision.Playback.Boundary.{State}
use k5_vision.Playback.Timeline.{TimedPacket}
use k5_vision.Playback.Window.{Window, WindowError}
use k5_vision.Playback.Window

pub data PlaybackRate : Type 0 where
  quarter half normal double quadruple octuple sixteen : PlaybackRate

-- `_RATE_RATIO`: numerator and denominator.
abbrev pub rate_ratio : PlaybackRate → ℕ × ℕ
rate_ratio PlaybackRate.quarter = (1, 4)
rate_ratio PlaybackRate.half = (1, 2)
rate_ratio PlaybackRate.normal = (1, 1)
rate_ratio PlaybackRate.double = (2, 1)
rate_ratio PlaybackRate.quadruple = (4, 1)
rate_ratio PlaybackRate.octuple = (8, 1)
rate_ratio PlaybackRate.sixteen = (16, 1)

pub data ScheduleError : Type 0 where
  invalid_state : ScheduleError
  window_failure : WindowError → ScheduleError

pub record ScheduledPacket : Type 0 where
  pub packet : Bytes
  pub ordinal : ℕ
  pub source_elapsed_ms : ℕ
  pub due_ms : ℕ

pub record Schedule : Type 0 where
  pub window : Window
  pub rate : PlaybackRate
  pub state : State
  pub packets : ℕ
  pub source_span_ms : ℕ
  pub scheduled_span_ms : ℕ
  pub descriptor_verified : Bool

unfoldable pub init : Descriptor → ℕ → ℕ → PlaybackRate → ℕ → Bool → Option Schedule
init d start_ms end_ms rate max_packets closes =
    elim (Window.init d start_ms end_ms max_packets closes) [
      | none ↦ none
      | some w ↦ some (record {
        window = w;
        rate = rate;
        state = State.created;
        packets = 0;
        source_span_ms = 0;
        scheduled_span_ms = 0;
        descriptor_verified = false;
      })
    ]

-- `(source_delta_ms * denominator) // numerator`
unfoldable pub due_after : PlaybackRate → ℕ → ℕ
due_after rate delta = (delta * (rate_ratio rate).1) / (rate_ratio rate).0

-- `if origin_ms is None: origin_ms = item.elapsed_ms`
abbrev pub origin_at : Option ℕ → ℕ → ℕ
origin_at none ms = ms
origin_at (some origin) ms = origin

abbrev pub schedule_item : Schedule → ℕ → TimedPacket → ScheduledPacket
schedule_item sc origin item = record {
  packet = item.packet;
  ordinal = sc.packets;
  source_elapsed_ms = item.elapsed_ms;
  due_ms = due_after sc.rate (item.elapsed_ms - origin);
}

abbrev pub count_item : Schedule → ℕ → TimedPacket → Window → Schedule
count_item sc origin item w = record sc {
  window = w;
  packets = sc.packets + 1;
  source_span_ms = item.elapsed_ms - origin;
  scheduled_span_ms = due_after sc.rate (item.elapsed_ms - origin);
}

unfoldable pub loop :
    Schedule
    → Option ℕ
    → Run Window WindowError TimedPacket
    → Run Schedule ScheduleError ScheduledPacket
loop sc origin_ms (yields item w t) =
    let origin = origin_at origin_ms item.elapsed_ms in
    let sc' = count_item sc origin item w in
    yields (schedule_item sc origin item) sc' (loop sc' (some origin) t)
loop sc origin_ms (returns w) =
    returns (record sc {
      window = w;
      descriptor_verified = w.descriptor_verified;
      state = State.complete;
    })
loop sc origin_ms (raises e w) =
    raises (ScheduleError.window_failure e) (record sc { window = w; state = State.failed })
loop sc origin_ms out_of_fuel = out_of_fuel

unfoldable pub close : Schedule → Schedule
close sc = elim sc.state [
  | State.reading ↦ record sc { window = Window.close sc.window; state = State.aborted }
  | _ ↦ sc
]

module _ (crc32 : Bytes → ℕ) where
  unfoldable pub iter_packets : Schedule → Option File → Run Schedule ScheduleError ScheduledPacket
  iter_packets sc file = elim sc.state [
    | State.created ↦
        loop (record sc { state = State.reading }) none (Window.iter_packets crc32 sc.window file)
    | _ ↦ raises ScheduleError.invalid_state sc
  ]
