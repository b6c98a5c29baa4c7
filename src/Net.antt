-- ===== src/Net.antt =====
-- What the source uses of Go's packages `net` and `net/netip`: addresses and their parser, blocks
-- of addresses, prefixes, and `SplitHostPort`.
mod Addrs
mod Block
mod HostPort
mod Prefixes
unfoldable pub use Addrs.*
unfoldable pub use Block.*
unfoldable pub use HostPort.*
unfoldable pub use Prefixes.*
