-- ===== src/Lib.antt =====
-- Verification of the recording, playback, viewport, media session, authority and autonomy core of
-- K5 Vision.
--
-- The program's parts and the files that model them:
-- * Recording (Recording.antt and Recording/): src/k5vision/media/framed_recording.py. `Format` is
--   the framing, `Sink` the class FramedAtomicRecordingSink, `Reader` the class
--   FramedRecordingReader. The writer is a function of its state and of how the awaited worker of
--   the call ends (`Event`), cancellation of the caller included, also a second one while its
--   handler waits for the worker, which is then taken to end before the next call; its files are
--   the bytes of the staging file and what the final path holds. `zlib.crc32` is a parameter.
-- * RTP (Rtp.antt): is_rtp_v2 of src/k5vision/media/rtp_delivery.py and the header fields that
--   playback reads.
-- * Playback (Playback.antt and Playback/): the stack of src/k5vision/media, each layer over the one
--   before it: recording_descriptor.py (`Descriptor`), playback.py (`Boundary`),
--   playback_timeline.py (`Timeline`), playback_navigation.py (`Navigation`), playback_window.py
--   (`Window`), playback_schedule.py (`Schedule`); and the pause clock of playback_control.py
--   (`Control`), whose calls and wakings are lists with the readings of the clock that they make,
--   and whose floats are a parameter: a type and its operations, with no laws.
-- * Viewport (Viewport.antt and Viewport/): viewport_geometry.py (`Geometry`), viewport_editor.py
--   (`Editor`), viewport_stack.py (`Stack`), viewport_editor_history.py (`History`) and
--   viewport_client_projection.py (`Projection`) of src/k5vision/media.
-- * Session (Session.antt and Session/): MediaSession of src/k5vision/media/session.py over the
--   outcomes of the runtime's calls.
-- * Authority (Authority.antt and Authority/): UserSessionManager of src/k5vision/auth_sessions.py
--   (`Sessions`). A call is a step under its lock, and a `resolve` two steps with the read of the
--   registry between them, so a list of calls is an interleaving. SHA-256 is a parameter.
--   OperatorRolePolicy of src/k5vision/operator_role_policy.py (`Roles`) over the rows of the user
--   registry: its operations are functions of the file that it keeps and of how the write ends; the
--   file's JSON is the state that it stands for, and `str.strip` and `str.casefold` are parameters.
-- * Autonomy (Autonomy.antt and Autonomy/): evaluate_proposal and GrantLedger of
--   src/k5vision/autonomy_policy.py over the contracts of src/k5vision/neural_contracts.py.
-- * Prelude and Generator carry what these share.
--
-- A Python generator is the finite sequence of its suspensions (`Generator.Run`), with the state of
-- its object at each; a layer of playback is a function from the run of the layer below to its own.
-- An exception is a value: `Result` for a method, `raises` for a generator. Bytes are numbers, and
-- that they are below 256 is a hypothesis where it matters.
--
-- Fuel: `read_exact` has one more turn than the bytes it is asked for, and `read_records` one more
-- than the bytes of the file; every turn that goes on takes a byte at least, so both are enough. A
-- loop that is out of fuel gives an outcome of its own, `none`, `endless` or `out_of_fuel`. The
-- pages of the role policy's guard are counted as the code counts them.
--
-- Not modelled: the names and the locking of files (RecordingAttempt), the parsing of JSON, UUIDs
-- and times, and the duration of a descriptor in floating point, which is a parameter. The HTTP
-- interfaces, the database adapters, GStreamer and the Windows hosts are glue over libraries; the
-- user registry but the reading of its rows, the playback pump and the viewport catalog are left out.
pub mod Prelude
pub mod Generator
pub mod Rtp
pub mod Recording
pub mod Playback
pub mod Viewport
pub mod Session
pub mod Authority
pub mod Autonomy
