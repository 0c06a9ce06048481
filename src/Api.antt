-- ===== src/Api.antt =====
-- internal/api: the gRPC handlers and the interceptor before the unary ones.
pub mod Context
pub mod KeeperService
pub mod AuthService
pub mod Interceptor
pub mod HealthService
pub mod Server
pub mod Fakes
mod Tests
