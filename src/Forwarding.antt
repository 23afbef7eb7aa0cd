-- ===== src/Forwarding.antt =====
-- zForwarding.hpp, zForwarding.inline.hpp, zForwarding.cpp and zForwardingEntry.hpp: what the collector
-- keeps of a page while its objects are moved away.
pub mod Remembered
pub mod RefCount
pub mod Entry
pub mod Table
