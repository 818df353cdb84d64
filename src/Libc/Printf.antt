-- ===== src/Libc/Printf.antt =====
-- Libc/Libc/stdio/printf.c: formatted output.
pub mod Digits
pub mod Numeral
pub mod Format
pub mod Convert
pub mod Layout
pub mod Count
pub mod Run
pub mod Rounds
pub mod Decimal
mod Examples
