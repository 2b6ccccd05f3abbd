-- ===== src/Models.antt =====
-- core/models: the rows of the tables that the modelled services read and write, and the database
-- as one value. A row carries the columns of its model; a foreign key is the key of the other row.
pub mod Booking
pub mod Account
pub mod Room
pub mod Policy
pub mod Sanctions
pub mod Operations
pub mod Db
