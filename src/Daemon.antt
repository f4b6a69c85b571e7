-- ===== src/Daemon.antt =====
-- The daemon: src/icmpd/subcmd_start.c, and in Main src/icmpd/icmpd.c and src/icmpd/subcmd_help.c.
pub mod Words
pub mod Acl
pub mod Exec
pub mod Serve
pub mod Workers
pub mod Start
pub mod Main
