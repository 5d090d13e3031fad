-- ===== src/Contacts.antt =====
-- The addresses and the address book of src/contacts.
pub mod Address
pub mod Dispatch
pub mod Book
mod Tests
