-- ===== src/Python.antt =====
-- What the scripts take from Python: exceptions, and the values that `json.loads` returns.
mod Exceptions
mod Json
mod Dicts
mod Sets
pub use Exceptions.*
unfoldable pub use Json.*
unfoldable pub use Dicts.*
unfoldable pub use Sets.*
