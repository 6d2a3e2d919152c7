-- ===== src/Tests.antt =====
-- Concrete runs of the components, and of what is proved of them.
mod BreakerTests
mod CacheTests
mod Floats
mod L1Tests
mod PipelineTests
mod GatewayTests
mod LocalTests
mod UploadTests
mod CopiesTests
mod ConfigTests
mod WorkerTests
