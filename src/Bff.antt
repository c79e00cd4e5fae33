-- ===== src/Bff.antt =====
-- The gateway of the web client: bff of the repository. Requests and responses, the services
-- behind it, and the middleware and handlers that stand on them.
pub mod Upstream
pub mod Onboarding
pub mod Shown
pub mod Accounts
pub mod Http
pub mod Peers
pub mod Context
pub mod Cookies
pub mod Csrf
pub mod Routes
pub mod Address
pub mod Session
pub mod Ended
pub mod Confirm
pub mod Entry
pub mod Guard
pub mod Protected
pub mod Redirect
pub mod Login
pub mod Logout
pub mod Landing
pub mod Statement
pub mod Asked
pub mod Pay
pub mod Ordered
pub mod Errors
pub mod Faces
pub mod Limit
pub mod Rate
