-- ===== src/Supervisor.antt =====
-- The supervisor, serve/supervisor.c: the table of nodes, the leases of ranks, and the healing.
pub mod Types
pub mod Lease
pub mod Heartbeat
pub mod Heal
