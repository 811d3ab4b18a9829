-- ===== src/Sample.antt =====
-- sample-server/SampleServer.cc: an application of the framework.
pub mod Echo
pub mod Handler
pub mod Reply
pub mod Tests
