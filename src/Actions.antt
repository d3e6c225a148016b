-- ===== src/Actions.antt =====
-- adminos/domain/actions.py: how an approved action is planned, performed against Gmail, read back
-- and recorded.
pub mod Rows
pub mod Mail
pub mod Params
pub mod Executors
pub mod Lifecycle
pub mod Approvals
