-- ===== src/Delivery.antt =====
-- internal/deliverystream and internal/delivery/outbox: from the outbox to the delivery stream.
pub mod Stream
pub mod Request
pub mod Worker
pub mod Calls
pub mod Passes
pub mod Routes
pub mod Routed
pub mod Restated
pub mod RoutedStates
pub mod Publishable
pub mod Deliverable
pub mod Examples
