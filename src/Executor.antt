-- ===== src/Executor.antt =====
-- internal/responseactions/executor.go. A handler's answer is a value or the text of an error, and
-- the answers of the operating system are arguments. The JSON decoder is a parameter of each parser:
-- what it reads from a payload, if it reads one.
pub mod Outcome
pub mod Kill
pub mod Shell
pub mod Firewall
pub mod Quarantine
pub mod Execute
pub mod Options
mod Tests
