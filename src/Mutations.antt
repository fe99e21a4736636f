-- ===== src/Mutations.antt =====
-- internal/store/mutations.go: the operations that change the store. `Store.write` runs each in a
-- transaction under the store's mutex, so they follow one another; an error rolls back.
pub mod Create
pub mod Change
pub mod Target
pub mod Observe
pub mod Capture
