-- ===== src/Web.antt =====
-- app/routers and app/validation.py: what a request must meet, and the apply route.
pub mod Validation
pub mod Apply
pub mod Route
