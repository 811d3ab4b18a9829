-- ===== src/Task.antt =====
-- braid/src/task: tasks, the serializers that queue them, and the distributor of serializers.
pub mod Fault
pub mod Arguments
pub mod RefCount
pub mod Serializer
pub mod Threads
pub mod Tests
