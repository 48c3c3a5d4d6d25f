-- ===== src/Python.antt =====
-- Values of the Python language that the modules share.
pub mod Int
pub mod Text
pub mod Value
pub mod Number
