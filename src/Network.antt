-- ===== src/Network.antt =====
-- src/network: what the receive threads admit, queue and reorder.
pub mod Buffer
pub mod Fifo
pub mod Ingest
pub mod Protocol
pub mod StreamControl
