-- ===== src/Python.antt =====
-- The parts of Python that the program uses: values, exceptions, texts.
pub mod Json
pub mod Except
pub mod Runtime
pub mod Text
pub mod Values
pub mod Ascii
pub mod Dicts
pub mod Keys
