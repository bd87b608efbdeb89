-- ===== src/Timestamp.antt =====
-- protocols/common/timestamp_manager.hpp: the workers that hand out MVTO's timestamps, the
-- manager that publishes the oldest and newest counters for garbage collection, and the
-- collector of detached values. A worker's counter is written by its own thread alone, so each
-- call of a worker is one step; the manager's pass over the workers is one step too.
pub mod Defs
pub mod Order
pub mod Unique
pub mod Horizon
pub mod Collector
