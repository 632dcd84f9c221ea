-- ===== src/Map.antt =====
-- `std::map` and `std::set` as the sources use them: entries in the order of their keys. A key
-- type is an instance with `==` and `<`.
mod Defs
mod Laws
mod Retain
mod Sums
unfoldable pub use Defs.*
pub use Laws.*
pub use Retain.*
pub use Sums.*
