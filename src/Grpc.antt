-- ===== src/Grpc.antt =====
-- volo-grpc/src: the statuses, the timeout header and the message frames of gRPC.
pub mod Status
pub mod Infer
pub mod Timeout
pub mod Trailers
mod Percent
pub mod Frames
mod Runs
