-- ===== src/Playback/Timeline.antt =====
-- `BoundedPlaybackTimeline` of src/k5vision/media/playback_timeline.py: relative time from RTP
-- timestamps, over the run of the playback boundary.
use k5_vision.Prelude.{
  ℕ, ◌+◌, ◌-◌, ◌*◌, ◌/◌, ◌%◌, Bool, false, ◌&&◌, Option, none, some, ltb, leb, if◌then◌else◌,
  Result, ok, raise,
}
use k5_vision.Rtp.{Bytes, timestamp}
use k5_vision.Generator.{Run, yields, returns, raises, out_of_fuel}
use k5_vision.Recording.Format.{max_packets_limit, max_recording_bytes, max_packet_limit, u32_mod}
use k5_vision.Recording.Reader.{File}
use k5_vision.Playback.Descriptor.{Descriptor}
use k5_vision.Playback.Boundary.{State, Playback, PlaybackError}
use k5_vision.Playback.Boundary

abbrev pub rtp_half_range : ℕ
rtp_half_range = 2_147_483_648

pub data TimelineError : Type 0 where
  invalid_state timestamp_regression : TimelineError
  playback_failure : PlaybackError → TimelineError

pub record TimedPacket : Type 0 where
  pub packet : Bytes
  pub ordinal : ℕ
  pub rtp_timestamp : ℕ
  pub elapsed_ms : ℕ

pub record Timeline : Type 0 where
  pub descriptor : Descriptor
  pub playback : Playback
  pub state : State
  pub packets : ℕ
  pub elapsed_ms : ℕ
  pub timestamp_wraps : ℕ
  pub descriptor_verified : Bool

-- `__init__`: `none` is a `ValueError`. The playback boundary takes its default byte limits.
unfoldable pub init : Descriptor → ℕ → Bool → Option Timeline
init d max_packets closes =
    if leb 1 max_packets && leb max_packets max_packets_limit && leb d.packet_count max_packets
    then elim (Boundary.init d
        (record {
          max_packets = max_packets;
          max_payload_bytes = max_recording_bytes;
          max_packet_bytes = max_packet_limit;
        })
        closes) [
          | none ↦ none
          | some pb ↦ some (record {
            descriptor = d;
            playback = pb;
            state = State.created;
            packets = 0;
            elapsed_ms = 0;
            timestamp_wraps = 0;
            descriptor_verified = false;
          })
        ]
    else none

-- `(timestamp - previous) % _RTP_MODULUS`
abbrev pub ticks_since : ℕ → ℕ → ℕ
ticks_since previous now = (now + u32_mod - previous) % u32_mod

-- The local variables of the loop.
pub record Clock : Type 0 where
  pub previous : Option ℕ
  pub elapsed_ticks : ℕ

-- From one timestamp to the next: the clock, and whether the timestamp wrapped; `none` is a
-- regression.
unfoldable pub advance : Clock → ℕ → Option (Clock × Bool)
advance c now = elim c.previous [
  | none ↦ some (record c { previous = some now }, false)
  | some before ↦
      let delta = ticks_since before now in
      if leb rtp_half_range delta
      then none
      else some (
        record c { previous = some now; elapsed_ticks = c.elapsed_ticks + delta },
        ltb now before && ltb 0 delta,
      )
]

-- The state at the `yield`, and the packet.
abbrev pub emit : Timeline → Playback → Bytes → ℕ → Bool → TimedPacket × Timeline
emit tl pb packet elapsed wrapped = (
  record {
    packet = packet;
    ordinal = tl.packets;
    rtp_timestamp = timestamp packet;
    elapsed_ms = elapsed;
  },
  record tl {
    playback = pb;
    packets = tl.packets + 1;
    elapsed_ms = elapsed;
    timestamp_wraps = if wrapped then tl.timestamp_wraps + 1 else tl.timestamp_wraps;
  },
)

-- The `finally` block over a suspended inner generator, after `state` was set.
abbrev pub leave : Timeline → Playback → State → Timeline
leave tl pb state = record tl { playback = Boundary.close pb; state = state }

-- One turn of the `for` loop.
unfoldable pub time_packet :
    Timeline
    → Clock
    → Bytes
    → Playback
    → Result (TimelineError × Timeline) (TimedPacket × Timeline × Clock)
time_packet tl c packet pb = elim (advance c (timestamp packet)) [
  | none ↦ raise (TimelineError.timestamp_regression, leave tl pb State.failed)
  | some (c', wrapped) ↦
      let elapsed = (c'.elapsed_ticks * 1000) / tl.descriptor.clock_rate_hz in
      let (item, tl') = emit tl pb packet elapsed wrapped in ok (item, tl', c')
]

unfoldable pub loop :
    Timeline → Clock → Run Playback PlaybackError Bytes → Run Timeline TimelineError TimedPacket
loop tl c (yields packet pb t) = elim (time_packet tl c packet pb) [
  | raise (e, tl') ↦ raises e tl'
  | ok (item, tl', c') ↦ yields item tl' (loop tl' c' t)
]
loop tl c (returns pb) = returns (record tl {
  playback = pb;
  descriptor_verified = pb.descriptor_verified;
  state = State.complete;
})
loop tl c (raises e pb) =
    raises (TimelineError.playback_failure e) (record tl { playback = pb; state = State.failed })
loop tl c out_of_fuel = out_of_fuel

abbrev pub start_clock : Clock
start_clock = record { previous = none; elapsed_ticks = 0 }

unfoldable pub close : Timeline → Timeline
close tl = elim tl.state [ State.reading ↦ leave tl tl.playback State.aborted | _ ↦ tl ]

module _ (crc32 : Bytes → ℕ) where
  unfoldable pub iter_packets : Timeline → Option File → Run Timeline TimelineError TimedPacket
  iter_packets tl file = elim tl.state [
    | State.created ↦
        loop (record tl { state = State.reading }) start_clock
          (Boundary.iter_packets crc32 tl.playback file)
    | _ ↦ raises TimelineError.invalid_state tl
  ]
