-- ===== src/Viewport/Projection.antt =====
-- src/k5vision/media/viewport_client_projection.py: `Axis` (`_AxisProjection`) and `Client`
-- (`project_viewport_layout`). The other children have what is proved of them.
pub mod Axis
pub mod Rising
pub mod Build
pub mod Edges
pub mod Hits
pub mod Client
pub mod Projected
pub mod Fitting
pub mod Projecting
pub mod Pointing
pub mod Tests
