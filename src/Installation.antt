-- ===== src/Installation.antt =====
-- application/src/server/installation.rs: the installation of a server in a container of docker. The
-- lines of the output are cut in `Output`, and `Flow` has the installation itself.
pub mod Output
pub mod Flow
mod Tests
