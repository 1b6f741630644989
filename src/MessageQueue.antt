-- ===== src/MessageQueue.antt =====
-- kernel/message_queue.c, by its parts.
pub mod Table
pub mod Ring
pub mod Transfer
pub mod Count
pub mod Chains
pub mod Delivery
pub mod Refilling
pub mod Rendezvous
