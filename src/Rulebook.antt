-- ===== src/Rulebook.antt =====
-- adminos/domain/rulebook.py and adminos/domain/rulebook_store.py: what a rule is, the moves it may
-- make, and the table of rules, versions and events that the moves are recorded in.
pub mod Types
pub mod Standing
pub mod Draft
pub mod Store
