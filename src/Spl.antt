-- ===== src/Spl.antt =====
-- The SPL compiler, spl/.
pub mod Label
