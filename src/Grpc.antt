-- ===== src/Grpc.antt =====
-- The request handlers of the agent's gRPC service (src/grpc.rs).
pub mod Namespaces
pub mod Remove
pub mod Streams
pub mod Sandboxes
pub mod Files
pub mod Limits
pub mod Create
