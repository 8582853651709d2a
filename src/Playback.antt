-- ===== src/Playback.antt =====
-- The playback stack of src/k5vision/media: `Descriptor` (recording_descriptor.py), `Boundary`
-- (playback.py), `Timeline`, `Navigation`, `Window` and `Schedule` (playback_timeline.py and so
-- on). Each layer runs over the run of the layer below; its record holds that layer's object.
-- `Control` is the pause clock (playback_control.py).
-- The other children have what is proved of them.
pub mod Descriptor
pub mod Boundary
pub mod Timeline
pub mod Navigation
pub mod Window
pub mod Schedule
pub mod Checked
pub mod Timing
pub mod Elapsed
pub mod Completion
pub mod Verified
pub mod Opening
pub mod Selection
pub mod Pacing
pub mod Closing
pub mod Abandoning
pub mod Control
pub mod Tests
