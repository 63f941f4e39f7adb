-- ===== src/Trigger.antt =====
-- pkg/trigger: the handler that queues recommendations (Handler), and the check that looks for a breach
-- (Breach). Manager keeps the monitors of the workloads.
pub mod Handler
pub mod Breach
pub mod Manager
