-- ===== src/Gateway.antt =====
-- The shared WhatsApp gateway, gateway/whatsapp_router.py.
pub mod Store
pub mod Router
pub mod Worker
mod Tests
