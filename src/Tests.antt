-- ===== src/Tests.antt =====
-- Concrete databases, runs of the operations on them, and the theorems at them.
mod Data
mod Bookings
mod Runs
mod Saved
mod Transaction
mod Services
mod Desk
mod Lifetime
mod Grid
