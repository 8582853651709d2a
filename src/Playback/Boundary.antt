-- ===== src/Playback/Boundary.antt =====
-- `BoundedRecordingPlayback` of src/k5vision/media/playback.py, over the run of the reader.
use k5_vision.Prelude.{
  ℕ, ◌+◌, Bool, true, false, not, ◌&&◌, ◌||◌, Option, none, some, ltb, leb, ◌==◌, if◌then◌else◌,
  length, Result, ok, raise, raise_if, ◌>>◌,
}
use k5_vision.Rtp.{Bytes, payload_type, timestamp}
use k5_vision.Generator.{Run, yields, returns, raises, out_of_fuel}
use k5_vision.Recording.Format.{max_packets_limit, max_recording_bytes, max_packet_limit}
use k5_vision.Recording.Sink.{ErrorCode, Limits}
use k5_vision.Recording.Reader.{File, Reader, new_reader}
use k5_vision.Recording.Reader
use k5_vision.Playback.Descriptor.{Descriptor}

-- The states that playback, its timeline, window and schedule share (`reading` is the schedule's
-- `scheduling`).
pub data State : Type 0 where
  created reading complete aborted failed : State

pub data PlaybackError : Type 0 where
  invalid_state descriptor_mismatch rtp_mismatch : PlaybackError
  recording_failure : ErrorCode → PlaybackError

pub record Playback : Type 0 where
  pub descriptor : Descriptor
  pub reader : Reader
  pub state : State
  pub packets : ℕ
  pub payload_bytes : ℕ
  pub file_bytes : ℕ
  pub descriptor_verified : Bool

-- `__init__`: `none` is a `ValueError`.
unfoldable pub init : Descriptor → Limits → Bool → Option Playback
init d limits closes =
    if leb 1 limits.max_packets
      && leb limits.max_packets max_packets_limit
      && leb 1 limits.max_payload_bytes
      && leb limits.max_payload_bytes max_recording_bytes
      && leb 12 limits.max_packet_bytes
      && leb limits.max_packet_bytes max_packet_limit
      && leb d.packet_count limits.max_packets
      && leb d.payload_bytes limits.max_payload_bytes
    then some (record {
      descriptor = d;
      reader = new_reader limits closes;
      state = State.created;
      packets = 0;
      payload_bytes = 0;
      file_bytes = 0;
      descriptor_verified = false;
    })
    else none

unfoldable pub validate_packet : Playback → Bytes → Result PlaybackError (Unit {0})
validate_packet pb packet = do
  raise_if (not (payload_type packet == pb.descriptor.payload_type)) PlaybackError.rtp_mismatch
  raise_if ((pb.packets == 0) && not (timestamp packet == pb.descriptor.rtp_timestamp_origin))
      PlaybackError.rtp_mismatch

unfoldable pub validate_progress : Playback → Result PlaybackError (Unit {0})
validate_progress pb =
    raise_if
      (ltb pb.descriptor.packet_count pb.packets
        || ltb pb.descriptor.payload_bytes pb.payload_bytes)
      PlaybackError.descriptor_mismatch

unfoldable pub validate_complete : Playback → Result PlaybackError (Unit {0})
validate_complete pb =
    raise_if
      (not (pb.packets == pb.descriptor.packet_count)
        || not (pb.payload_bytes == pb.descriptor.payload_bytes)
        || not (pb.file_bytes == pb.descriptor.file_bytes))
      PlaybackError.descriptor_mismatch

-- The `finally` block when the reader's generator is still suspended, after `state` was set.
abbrev pub leave : Playback → Reader → State → Playback
leave pb r state =
    let r' = Reader.close r in record pb { reader = r'; file_bytes = r'.file_bytes; state = state }

-- The counters after one packet of the reader.
abbrev pub count_packet : Playback → Bytes → Reader → Playback
count_packet pb packet r = record pb {
  reader = r;
  packets = pb.packets + 1;
  payload_bytes = pb.payload_bytes + length packet;
  file_bytes = r.file_bytes;
}

-- The tests on one packet, as the loop body makes them: the error with the state it leaves, or
-- the state at the `yield`.
unfoldable pub check_packet : Playback → Bytes → Reader → Result (PlaybackError × Playback) Playback
check_packet pb packet r = elim (validate_packet pb packet) [
  | raise e ↦ raise (e, leave pb r State.failed)
  | ok _ ↦
      let pb' = count_packet pb packet r in
      elim (validate_progress pb') [ raise e ↦ raise (e, leave pb' r State.failed) | ok _ ↦ ok pb' ]
]

-- After the last packet.
unfoldable pub finish : Playback → Reader → Run Playback PlaybackError Bytes
finish pb r =
    let pb' = record pb { reader = r; file_bytes = r.file_bytes } in
    elim (validate_complete pb') [
      | raise e ↦ raises e (record pb' { state = State.failed })
      | ok _ ↦ returns (record pb' { descriptor_verified = true; state = State.complete })
    ]

-- The `for` loop and its handlers.
unfoldable pub loop : Playback → Run Reader ErrorCode Bytes → Run Playback PlaybackError Bytes
loop pb (yields packet r t) = elim (check_packet pb packet r) [
  | raise (e, pb') ↦ raises e pb'
  | ok pb' ↦ yields packet pb' (loop pb' t)
]
loop pb (returns r) = finish pb r
loop pb (raises e r) =
    raises (PlaybackError.recording_failure e)
      (record pb { reader = r; file_bytes = r.file_bytes; state = State.failed })
loop pb out_of_fuel = out_of_fuel

-- `iterator.close()` at a suspension: `GeneratorExit` reaches only the `finally` block.
unfoldable pub close : Playback → Playback
close pb = elim pb.state [ State.reading ↦ leave pb pb.reader State.aborted | _ ↦ pb ]

module _ (crc32 : Bytes → ℕ) where
  unfoldable pub iter_packets : Playback → Option File → Run Playback PlaybackError Bytes
  iter_packets pb file = elim pb.state [
    | State.created ↦
        loop (record pb { state = State.reading }) (Reader.iter_packets crc32 pb.reader file)
    | _ ↦ raises PlaybackError.invalid_state pb
  ]
