-- ===== src/Epoch.antt =====
-- protocols/common/epoch_manager.hpp: the global epoch, the workers that adopt it, and the
-- collector of the NoWait and Silo values. Each load, store and compare of the manager's pass is
-- modelled in one step; the clock of `start` is the order of the steps.
pub mod Defs
pub mod Advance
