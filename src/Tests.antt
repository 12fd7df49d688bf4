-- ===== src/Tests.antt =====
-- Runs of the models on small inputs, and the theorems at inputs that meet their hypotheses.
mod LogProxy
mod Timerpool
mod Actor
mod Waiters
mod Logger
mod Console
