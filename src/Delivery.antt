-- ===== src/Delivery.antt =====
-- The durable delivery of the incremental stream: the ledger of
-- storage/repositories/r1_stream_delivery_repository.py (Rows, Tables, Frontier, Ledger, Closing), the
-- boundary of pipeline/r1_stream_ingress.py that a message enters by (Ingress), the models of its messages
-- (Contract), the spool of pipeline/r1_stream_wiring.py (Spool), and the ledger of
-- storage/repositories/r1_position_close_repository.py (PositionClose, Position). The other modules prove
-- them.
pub mod Rows
pub mod Tables
pub mod Frontier
pub mod Ledger
pub mod Closing
pub mod Ingress
pub mod Contract
pub mod Spool
pub mod PositionClose
pub mod Position
pub mod Append
pub mod Marks
pub mod Induct
pub mod Growth
pub mod Frozen
pub mod Replay
pub mod Transaction
pub mod Admission
pub mod Once
pub mod Closed
pub mod Exactly
pub mod Messages
pub mod Advance
pub mod Coverage
pub mod Received
pub mod Accepted
pub mod Written
pub mod Chunks
mod Tests
