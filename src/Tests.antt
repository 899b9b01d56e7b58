-- ===== src/Tests.antt =====
-- Concrete runs of the models, and the theorems at concrete inputs.
mod Timing
mod Buffering
mod Storing
mod Transacting
mod Routing
mod Sharing
mod Messaging
mod Serving
mod Queueing
mod Messages
mod Clients
