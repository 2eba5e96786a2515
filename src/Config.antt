-- ===== src/Config.antt =====
-- pkg/lnxconfig/lnxconfig.go: the parser of a node's configuration file. The file is the list of
-- lines that bufio.Scanner yields; the texts of the errors are left out, but not the number of
-- the line that an error names.
pub mod Text
pub mod Netip
pub mod Parse
pub mod Load
pub mod Bounds
pub mod Consistent
pub mod Lines
pub mod Fields
pub mod Directives
pub mod Panics
pub mod Tests
