-- ===== src/Http/Redirect.antt =====
-- volo-http/src/client/layer/redirect.rs: the layer that follows redirects.
pub mod Head
pub mod Follow
pub mod Hops
pub mod Bounded
pub mod Origin
pub mod Replay
pub mod Credentials
mod Runs
