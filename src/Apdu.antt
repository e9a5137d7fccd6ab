-- ===== src/Apdu.antt =====
-- src/apdu_handlers.c: the instructions, and the replies that they send by themselves.
pub mod Exchange
pub mod Keys
pub mod SignTxn
pub mod Button
