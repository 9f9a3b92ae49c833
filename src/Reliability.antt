-- ===== src/Reliability.antt =====
-- packages/reliability: the outbox and the inbox, the processor of the one and the consumer of the
-- other.
pub mod Store
pub mod Consumer
pub mod Processor
pub mod Tests
pub mod ConsumerTests
pub mod ProcessorTests
