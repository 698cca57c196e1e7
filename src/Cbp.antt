-- ===== src/Cbp.antt =====
-- repo/PrediCache/cbp.hpp: how often an access promotes a page, and the three controllers that
-- adapt it: a hill climber for each class of pages (v3), a two-armed bandit (v4), and probes of the
-- throughput (TPB).
pub mod Defs
pub mod HillClimb
pub mod Bandit
pub mod Probing
pub mod Control
mod Tests
