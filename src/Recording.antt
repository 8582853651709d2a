-- ===== src/Recording.antt =====
-- The framed recording format: src/k5vision/media/framed_recording.py. `Format` has the bytes on
-- disk, `Sink` the writer `FramedAtomicRecordingSink`, `Reader` the one-pass reader
-- `FramedRecordingReader`; the other children have what is proved of them.
pub mod Format
pub mod Sink
pub mod Reader
pub mod Reading
pub mod Turn
pub mod Decoding
pub mod Soundness
pub mod RoundTrip
pub mod Replay
pub mod Authentic
pub mod Publication
pub mod Outcome
pub mod Session
pub mod Completing
pub mod Tests
