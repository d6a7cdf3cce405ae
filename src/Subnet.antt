-- ===== src/Subnet.antt =====
-- indexing-subnet-evm: the virtual machine that indexes each block as it is accepted.
pub mod Types
pub mod Marshal
pub mod Index
pub mod Accept
pub mod Validate
pub mod Examples
