-- ===== src/Common/Store.antt =====
-- f/common/store.py and f/common/store_index.py: the store index.
pub mod Index
pub mod Catalog
pub mod Laws
pub mod Pruning
pub mod Layers
pub mod Refines
mod Tests
