-- ===== src/Router.antt =====
-- The router's server table and its routing decision, serve/router.c and serve/router.h.
pub mod Types
pub mod Registry
pub mod Pick
pub mod Forward
pub mod Queue
