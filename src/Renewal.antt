-- ===== src/Renewal.antt =====
-- internal/certrenew/certrenew.go: the files of the client certificate. The five companions of the
-- certificate and the key are different files. `pair` is what crypto/tls and crypto/x509 read from a
-- certificate and a key that belong together, with a chain that is not empty; a file that is there
-- can be read.
pub mod Issued
pub mod Steps
pub mod Validity
pub mod Recover
pub mod Persist
pub mod Ends
pub mod Crash
pub mod Commit
pub mod Atomic
pub mod First
mod Tests
