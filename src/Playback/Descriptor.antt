-- ===== src/Playback/Descriptor.antt =====
-- `RecordingStreamDescriptor` of src/k5vision/media/recording_descriptor.py: the typed fields and
-- `validate_contract`. JSON decoding and the UUID fields' syntax belong to libraries.
use k5_vision.Prelude.{ℕ, ◌+◌, ◌-◌, ◌*◌, ◌%◌, Bool, not, ◌&&◌, ◌||◌, ltb, leb, ◌==◌, if◌then◌else◌}
use k5_vision.Recording.Format.{max_packets_limit, max_recording_bytes}

pub data VideoCodec : Type 0 where
  h264 h265 jpeg : VideoCodec

-- A `datetime`: microseconds of an absolute time, and whether it carries a zero UTC offset.
pub record Timestamp : Type 0 where
  pub microseconds : ℕ
  pub is_utc : Bool

pub record Descriptor : Type 0 where
  pub recording_id : ℕ
  pub source_id : ℕ
  pub codec : VideoCodec
  pub payload_type : ℕ
  pub clock_rate_hz : ℕ
  pub started_at : Timestamp
  pub ended_at : Timestamp
  pub duration_ms : ℕ
  pub rtp_timestamp_origin : ℕ
  pub packet_count : ℕ
  pub payload_bytes : ℕ
  pub file_bytes : ℕ

abbrev pub format_magic_bytes : ℕ
format_magic_bytes = 8

abbrev pub record_overhead_bytes : ℕ
record_overhead_bytes = 8

abbrev pub max_file_bytes : ℕ
max_file_bytes =
    format_magic_bytes + max_packets_limit * record_overhead_bytes + max_recording_bytes

abbrev pub max_duration_ms : ℕ
max_duration_ms = 7 * 24 * 60 * 60 * 1000

-- The bounds that the fields declare.
unfoldable pub fields_in_range : Descriptor → Bool
fields_in_range d =
    leb d.payload_type 127
    && leb 1 d.clock_rate_hz
    && leb d.clock_rate_hz 192_000
    && leb d.duration_ms max_duration_ms
    && leb d.rtp_timestamp_origin 4_294_967_295
    && leb d.packet_count max_packets_limit
    && leb d.payload_bytes max_recording_bytes
    && leb format_magic_bytes d.file_bytes
    && leb d.file_bytes max_file_bytes

abbrev dynamic_payload_type : ℕ → Bool
dynamic_payload_type t = leb 96 t && leb t 127

abbrev codec_accepts : VideoCodec → ℕ → Bool
codec_accepts VideoCodec.jpeg t = t == 26 || dynamic_payload_type t
codec_accepts VideoCodec.h264 t = dynamic_payload_type t
codec_accepts VideoCodec.h265 t = dynamic_payload_type t

abbrev timestamp_valid : Timestamp → Bool
timestamp_valid t = t.is_utc && (t.microseconds % 1000 == 0)

abbrev counters_valid : Descriptor → Bool
counters_valid d =
    if d.packet_count == 0
    then d.payload_bytes == 0 && d.duration_ms == 0
    else not (ltb d.payload_bytes (d.packet_count * 12))

-- `validate_contract`. `elapsed_ms` is `int(delta.total_seconds() * 1000)` of a difference in
-- microseconds, which the source computes in floating point.
module _ (elapsed_ms : ℕ → ℕ) where
  unfoldable pub contract_holds : Descriptor → Bool
  contract_holds d =
      timestamp_valid d.started_at
      && timestamp_valid d.ended_at
      && not (ltb d.ended_at.microseconds d.started_at.microseconds)
      && (d.duration_ms == elapsed_ms (d.ended_at.microseconds - d.started_at.microseconds))
      && codec_accepts d.codec d.payload_type
      && (d.clock_rate_hz == 90_000)
      && (d.file_bytes
          == format_magic_bytes + d.packet_count * record_overhead_bytes + d.payload_bytes)
      && counters_valid d

  -- A descriptor that the model class accepts.
  unfoldable pub accepts : Descriptor → Bool
  accepts d = fields_in_range d && contract_holds d
