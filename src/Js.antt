-- ===== src/Js.antt =====
-- What the console uses of its language: texts, numbers, and the values that a response can hold.
pub mod Text
pub mod Number
pub mod Value
pub mod Array
pub mod Map
pub mod Order
