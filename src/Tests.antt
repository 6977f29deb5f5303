-- ===== src/Tests.antt =====
-- Runs of the models on concrete inputs, component by component.
mod Pools
mod Risk
mod Alloc
mod Market
mod Fetch
mod Strategy
mod Sim
mod Signals
mod Gap
mod Edge
mod Edgescan
