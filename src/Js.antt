-- ===== src/Js.antt =====
-- What the program uses of JavaScript: values, strings, objects with their key order, and code
-- that reads and writes state and may throw.
pub mod Text
pub mod Decimal
pub mod Value
pub mod Effect
pub mod Object
pub mod RegExp
pub mod Quiet
pub mod Preserves
