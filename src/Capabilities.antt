-- ===== src/Capabilities.antt =====
-- adminos/capabilities/config.py: the actions, the playbook steps, and what a capability's
-- configuration grants. Confidences are natural numbers on a fixed scale: they are only compared.
mod Granted
unfoldable pub use Granted.*
pub mod Config
