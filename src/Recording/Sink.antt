-- ===== src/Recording/Sink.antt =====
-- `FramedAtomicRecordingSink` of framed_recording.py: the writer's state machine. The worker
-- thread of each operation and the cancellation of the caller are the event of the call; the
-- file contents are kept as bytes: the private staging file, and what the final path holds.
use k5_vision.Prelude.{
  ℕ, ◌+◌, Bool, true, false, not, ◌||◌, Option, none, some, ◌++◌, ltb, if◌then◌else◌, length, take,
  Result, ok, raise,
}
use k5_vision.Rtp.{Bytes, is_rtp_v2}
use k5_vision.Recording.Format.{magic, record_header_size, frame}

-- `FramedRecordingState`, shared by the sink and the reader.
pub data State : Type 0 where
  created opened finalized complete aborted failed : State

-- `FramedRecordingErrorCode`; `cancelled` is `asyncio.CancelledError`, which the code re-raises.
pub data ErrorCode : Type 0 where
  invalid_recording_id invalid_state conflict limit_exceeded io_failure : ErrorCode
  invalid_header invalid_record truncated_record integrity_failure cancelled : ErrorCode

pub record Limits : Type 0 where
  pub max_packets : ℕ
  pub max_payload_bytes : ℕ
  pub max_packet_bytes : ℕ

pub record Sink : Type 0 where
  pub limits : Limits
  pub state : State
  pub packets : ℕ
  pub payload_bytes : ℕ
  pub file_bytes : ℕ
  pub file : Option Bytes
  pub published : Option Bytes

-- How the awaited worker of an operation ends. `wrote` counts the bytes that reached the file
-- before an error. Under `cancel` the worker still runs to its end (`worker_done` says how);
-- `rolls_back` and `cleans` say whether `rollback_published` and the cleanup then succeed. Under
-- `cancel_again` the caller is cancelled a second time, in the await of the worker that the
-- handler repeats: the `CancelledError` passes `except Exception` and nothing is reconciled. The
-- worker ends before the next call, `wrote` bytes in or done; `closes` says whether a finalizing
-- worker that fails has dropped the handle by then.
pub data Event : Type 0 where
  done exists : Event
  os_error : (wrote : ℕ) → Event
  cancel : (worker_done rolls_back cleans : Bool) → Event
  cancel_again : (wrote : ℕ) (worker_done closes : Bool) → Event

abbrev Step : Type 0
Step = Sink × Result ErrorCode (Unit {0})

abbrev pub fails : Sink → ErrorCode → Step
fails s e = (record s { state = State.failed }, raise e)

-- `_abort_sync`: the handle is dropped whether or not the cleanup succeeds.
abbrev pub drop_file : Sink → Sink
drop_file s = record s { file = none }

-- The `except asyncio.CancelledError` branch that `open`, `write` and `finalize` share.
abbrev pub reconcile_cancelled : Sink → Bool → Step
reconcile_cancelled s true =
    (record (drop_file s) { state = State.aborted }, raise ErrorCode.cancelled)
reconcile_cancelled s false = fails (drop_file s) ErrorCode.io_failure

open_from_created : Sink → Event → Step
open_from_created s Event.done = elim s.published [
  | some _ ↦ fails s ErrorCode.conflict
  | none ↦ (record s { file = some magic; file_bytes = length magic; state = State.opened }, ok tt)
]
open_from_created s Event.exists = fails s ErrorCode.conflict
open_from_created s (Event.os_error _) = fails s ErrorCode.io_failure
open_from_created s (Event.cancel _ _ cleans) = reconcile_cancelled s cleans
open_from_created s (Event.cancel_again _ _ _) = (s, raise ErrorCode.cancelled)

unfoldable pub open_sink : Sink → Event → Step
unfolding open_from_created
open_sink s event = elim s.state [
  | State.opened ↦ (s, ok tt)
  | State.created ↦ open_from_created s event
  | _ ↦ (s, raise ErrorCode.invalid_state)
]

-- A worker that finds no handle raises an `OSError`: `self._file is None`.
unfoldable pub without_file : Sink → Event → Step
without_file s (Event.cancel _ _ cleans) = reconcile_cancelled s cleans
without_file s (Event.cancel_again _ _ _) = (s, raise ErrorCode.cancelled)
without_file s _ = fails s ErrorCode.io_failure

module _ (crc32 : Bytes → ℕ) where
  -- `_write_record_sync` on the handle, and what follows it.
  write_file : Sink → Bytes → Bytes → Event → Step
  write_file s f p Event.done = (
    record s {
      file = some (f ++ frame crc32 p);
      packets = s.packets + 1;
      payload_bytes = s.payload_bytes + length p;
      file_bytes = s.file_bytes + (record_header_size + length p);
    },
    ok tt,
  )
  write_file s f p Event.exists = fails s ErrorCode.io_failure
  write_file s f p (Event.os_error wrote) =
      fails (record s { file = some (f ++ take wrote (frame crc32 p)) }) ErrorCode.io_failure
  write_file s f p (Event.cancel _ _ cleans) = reconcile_cancelled s cleans
  write_file s f p (Event.cancel_again wrote _ _) =
      (record s { file = some (f ++ take wrote (frame crc32 p)) }, raise ErrorCode.cancelled)

  -- The await of the worker, and what follows it.
  unfoldable pub write_record : Sink → Bytes → Event → Step
  unfolding write_file without_file
  write_record s p event = elim s.file [
    | none ↦ without_file s event
    | some f ↦ write_file s f p event
  ]

  unfoldable pub write_open : Sink → Bytes → Event → Step
  write_open s p event =
      if ltb s.limits.max_packet_bytes (length p) || not (is_rtp_v2 p)
      then fails s ErrorCode.invalid_record
      else if ltb s.limits.max_packets (s.packets + 1)
          || ltb s.limits.max_payload_bytes (s.payload_bytes + length p)
      then fails s ErrorCode.limit_exceeded
      else write_record s p event

  unfoldable pub write : Sink → Bytes → Event → Step
  write s p event = elim s.state [
    | State.opened ↦ write_open s p event
    | _ ↦ (s, raise ErrorCode.invalid_state)
  ]

finalize_open : Sink → Bytes → Event → Step
finalize_open s f Event.done = elim s.published [
  | some _ ↦ fails (drop_file s) ErrorCode.conflict
  | none ↦ (record s { published = some f; file = none; state = State.finalized }, ok tt)
]
finalize_open s f Event.exists = fails (drop_file s) ErrorCode.conflict
finalize_open s f (Event.os_error _) = fails (drop_file s) ErrorCode.io_failure
finalize_open s f (Event.cancel true false _) = elim s.published [
  | some _ ↦ reconcile_cancelled s false
  | none ↦ fails (record s { published = some f; file = none }) ErrorCode.io_failure
]
finalize_open s f (Event.cancel _ _ cleans) = reconcile_cancelled s cleans
finalize_open s f (Event.cancel_again _ true _) = elim s.published [
  | some _ ↦ (drop_file s, raise ErrorCode.cancelled)
  | none ↦ (record s { published = some f; file = none }, raise ErrorCode.cancelled)
]
finalize_open s f (Event.cancel_again _ false true) = (drop_file s, raise ErrorCode.cancelled)
finalize_open s f (Event.cancel_again _ false false) = (s, raise ErrorCode.cancelled)

unfoldable pub finalize : Sink → Event → Step
unfolding finalize_open without_file
finalize s event = elim s.state [
  | State.finalized ↦ (s, ok tt)
  | State.opened ↦ elim s.file [ none ↦ without_file s event | some f ↦ finalize_open s f event ]
  | _ ↦ (s, raise ErrorCode.invalid_state)
]

abort_any : Sink → Event → Step
abort_any s Event.done = (record (drop_file s) { state = State.aborted }, ok tt)
abort_any s (Event.cancel _ _ cleans) = reconcile_cancelled s cleans
abort_any s (Event.cancel_again _ _ _) = (drop_file s, raise ErrorCode.cancelled)
abort_any s _ = fails (drop_file s) ErrorCode.io_failure

unfoldable pub abort : Sink → Event → Step
unfolding abort_any
abort s event = elim s.state [
  | State.aborted ↦ (s, ok tt)
  | State.finalized ↦ (s, raise ErrorCode.invalid_state)
  | _ ↦ abort_any s event
]
