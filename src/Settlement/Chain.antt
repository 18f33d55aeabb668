-- ===== src/Settlement/Chain.antt =====
-- src/trustrail/settlement/chain: transactions, the contract `MandateRegistry`, and its registrar.
pub mod Node
pub mod Transactions
pub mod Reverts
pub mod Registry
pub mod Registrar
pub mod Explorer
