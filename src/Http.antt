-- ===== src/Http.antt =====
-- volo-http/src: the server-sent events of a response, and how a client reads them.
pub mod Sse
pub mod Target
pub mod Redirect
mod Runs
