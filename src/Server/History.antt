-- ===== src/Server/History.antt =====
-- internal/server over internal/missions: the interaction logs of the tenants, whatever is served.
pub mod Touches
pub mod Linked
pub mod Exported
