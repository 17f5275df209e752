-- ===== src/Licenses.antt =====
-- app/services/licenses.py: issuing, status changes, the webhook configuration, editing and deleting.
-- The service functions are in the first five modules, their theorems in the others.
mod Hook
mod Status
mod Issue
mod Edit
mod Delete
pub mod Keep
pub mod HookSafe
pub mod HookEdit
pub mod HookServices
pub mod HookRows
unfoldable pub use Hook.*
unfoldable pub use Status.*
unfoldable pub use Issue.*
unfoldable pub use Edit.*
unfoldable pub use Delete.*
