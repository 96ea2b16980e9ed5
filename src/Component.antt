-- ===== src/Component.antt =====
-- playground/components.go: the `Run` method of each component.
pub mod Rollup
pub mod Optimism
pub mod Ethereum
pub mod Hub
pub mod Contender
