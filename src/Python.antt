-- ===== src/Python.antt =====
-- What the modelled code uses of Python: JSON-like values, texts, floats and exceptions.
pub mod Text
pub mod Value
pub mod Result
pub mod Runtime
pub mod Convert
pub mod Ensures
