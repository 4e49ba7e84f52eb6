-- ===== src/Edify.antt =====
-- The edify script language: edify/expr.c and edify/expr.h.
pub mod Text
pub mod Number
pub mod Machine
pub mod Builtins
pub mod Terms
pub mod Table
pub mod Script
mod Tests
