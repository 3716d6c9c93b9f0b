-- ===== src/Io.antt =====
-- application/src/io and application/src/server/filesystem/archive: readers that wrap another one.
-- What the wrapped reader or file returns for a call is a parameter: `none` for an error.
pub mod Fixed
pub mod Multi
mod Tests
