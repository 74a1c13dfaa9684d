-- ===== src/Vpc.antt =====
-- Address blocks of a virtual network: internal/vpc/cidr.go and `AllocateSubnetIP` of
-- internal/vpc/eni_store.go.
pub mod Cidr
pub mod Examples
pub mod Subnet
