-- ===== src/Server.antt =====
-- internal/server: the requests of a person server as functions of its state. An argument `now` is
-- what the clock reads during the call; what the HTTP layer hands over (the agent that signed a
-- request, the decoded body) is an argument too, and `none` there is an error. The descriptions of
-- the errors are left out.
pub mod Helpers
pub mod State
pub mod Handlers
pub mod Lifecycle
pub mod Issuing
pub mod Requests
pub mod Bindings
pub mod Stable
pub mod Routes
pub mod History
pub mod Moves
pub mod Tenancy
pub mod Pages
pub mod Progress
pub mod Admission
