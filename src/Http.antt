-- ===== src/Http.antt =====
-- The HTTP front end, VirtualGateway/devcontrol_gateway/app.py.
pub mod BodyLimit
pub mod Stream
pub mod Routes
pub mod Responses
pub mod Socket
pub mod Briefing
pub mod Admin
