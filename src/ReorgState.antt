-- ===== src/ReorgState.antt =====
-- rpc/reorg_state.py (under btc_parser_app): the state files of the ingest loop.
pub mod Index
pub mod Status
pub mod Seed
