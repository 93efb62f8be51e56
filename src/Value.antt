-- ===== src/Value.antt =====
-- The values of the JavaScript program: numbers and JSON.
pub mod Number
pub mod Json
