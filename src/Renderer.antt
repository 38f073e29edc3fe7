-- ===== src/Renderer.antt =====
-- rt64_render_context.cpp: the mapping of the host's graphics settings to RT64's in Config, the
-- constructor in Setup, what an open context does in Context.
pub mod Config
pub mod Context
pub mod Setup
