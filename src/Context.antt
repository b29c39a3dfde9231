-- ===== src/Context.antt =====
-- runtime-core/src/context.rs: what a process keeps of its devices and of the kernels that it loaded.
-- `Modules` has the module data of a kernel, `Stash` the cell that a thread finds it in.
pub mod Slots
pub mod Accels
pub mod Creation
pub mod Modules
pub mod Stash
