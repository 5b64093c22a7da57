-- ===== src/Render.antt =====
-- backend/internal/render: the framebuffer and its encoding for the wire.
pub mod PackBits
pub mod Payload
pub mod Spectra6
