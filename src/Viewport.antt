-- ===== src/Viewport.antt =====
-- Viewport composition of src/k5vision/media: `Geometry` (viewport_geometry.py), `Editor`
-- (viewport_editor.py), `Stack` (viewport_stack.py) and `History` (viewport_editor_history.py). The
-- other children have what is proved of them.
pub mod Geometry
pub mod Editor
pub mod Editing
pub mod Stack
pub mod Stacking
pub mod Accepting
pub mod History
pub mod Bounded
pub mod Reversal
pub mod Tests
pub mod Projection
