-- ===== src/Cache.antt =====
-- core/cache.c: the shared cache of items.
pub mod Bitmap
pub mod Links
pub mod Items
pub mod Values
pub mod Ops
pub mod Table
pub mod View
pub mod Life
pub mod Lru
mod ItemTests
mod Tests
