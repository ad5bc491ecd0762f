-- ===== src/ExecutionStateMachine.antt =====
-- The package execution_state_machine: the engine's lifecycle, one machine for each machine_id.
pub mod States
pub mod Transitions
pub mod Machine
