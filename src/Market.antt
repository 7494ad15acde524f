-- ===== src/Market.antt =====
-- The market, src/core/market: the shopping cart.
pub mod Ints
pub mod Cart
pub mod Tests
