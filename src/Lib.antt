-- ===== src/Lib.antt =====
-- Verification of the host side of the runtime for AMD devices: how a kernel launch becomes packets in
-- a queue of the HSA runtime and where its arguments live, how kernels are compiled for the launches of
-- all threads, and the memory and images that the HSA runtime hands out.
--
-- The parts, and where they are:
-- * ArgsPool is `ArgsPool` of runtime-amd/src/module/args_pool.rs, the bump allocator for kernel
--   arguments. `attempt` is one round of the loop of `alloc`, `alloc_loop` the loop of one thread with
--   a given number of spurious failures of the weak compare-exchange, and `try_alloc` the whole call.
--   ArgsPool.Race has the same loop as a step relation, in which threads interleave at the atomic
--   accesses; `Pc` is what a thread has in its local variables. The pool's memory is an address and a
--   length. Layout is `std::alloc::Layout`, from its documentation.
-- * Queue is the part of hsa-rt/src/queue.rs that writes packets: Queue.Abi and Queue.Header the header
--   word (`header`, `packet_store_rel`), Queue.Dispatch `DispatchPacket`, Queue.Ring the ring of slots
--   with `RingQueue::try_enqueue_packet` and the three functions that call it. The reader moves the
--   read index; the packets are not shared with it before their header is written, and the model has
--   each call as one step. Queue.Soft is the reader on the host, `SoftQueue::process`, with a number
--   of turns that bounds its loop; Queue.Soft.Handling has its law, with enough turns.
-- * Grid is runtime-amd/src/module/grid.rs: Grid.Range one axis, Grid.Dims the dimensions behind the
--   interface `Fields`, over which the bodies of the file's macros are written once, Grid.Ops the
--   arithmetic, Grid.Indices the traits `GridDims` and `WorkgroupDims`. The laws are in Grid.Axis,
--   Grid.Coverage, Grid.Unique, Grid.Linear and Grid.Edges.
-- * Module is `FuncModule` of runtime-amd/src/module/mod.rs, the kernel with its parameters
--   (`SpecParamsDesc` of runtime-core/src/codegen/mod.rs), its fences and the compiled module that it
--   keeps. It compiles through `ModuleData::compile` of runtime-core/src/context.rs and the cache of
--   the driver: `Store` is the slot and the cache entry that all functions of the kernel share on an
--   accelerator, here as calls one after the other, and a `Session` is a store with one function.
--   `call` is one call of a method that takes `&mut self`, or a compilation of another function of the
--   kernel. The laws are in Module.Cache and Module.Fences. Launch takes the sizes and the fences
--   from it as fields of `Invoc`.
-- * Launch is the call in runtime-amd/src/module/mod.rs: Launch.Shape the checks of the dimensions,
--   Launch.Barriers the barrier packets, with `Deps::barrier_impl` of runtime-amd/src/signal/deps.rs,
--   and Launch.Call the call itself, composed of the pool, the grid and the queue. Launch.Batches,
--   Launch.Sending, Launch.Completion, Launch.Rounding, Launch.Outcomes and Launch.Success have the
--   laws.
-- * Codegen is the driver of runtime-core/src/codegen/worker/mod.rs that a launch compiles its kernel
--   with. Codegen.Driver has `codegen_kernel` as a step relation of any number of threads: a step is
--   what one thread does under one lock of the cache, or an event of its wait or of the compiler, and
--   wait groups have numbers. Codegen.Worker is the loop of the thread `WorkerTranslatorData::thread`
--   over what its channel delivers. The laws are in Codegen.Invariant, Codegen.Steps, Codegen.Once,
--   Codegen.Waiting and Codegen.Served.
-- * Alloc has the allocators: Alloc.Pool `MemoryPoolAlloc` of hsa-rt/src/ext/amd.rs, Alloc.Region
--   `RegionAlloc` of hsa-rt/src/mem/region_alloc.rs, Alloc.Accessible and Alloc.Lap `Accessible` and
--   `LapAlloc` of runtime-amd/src/alloc. They are programs over the heap of Alloc.Heap: the blocks of
--   the HSA runtime, their bytes, and the devices that were granted access to them. Alloc.Native is
--   `native_alloc` of the same file as Alloc.Pool. The laws are in Alloc.Placed, Alloc.Grown,
--   Alloc.Room, Alloc.Resized, Alloc.Aligned, Alloc.Accessible and Alloc.Grants.
-- * Signal is runtime-amd/src/signal/mod.rs: what the host waits for, and `reset_impl`. The value of a
--   signal is a bit pattern, and a signal has a number of references. Signal.Deref is `SignaledDeref`
--   with its law; Signal.Waits and Signal.Resets have the other laws.
-- * Copies is `H2DMemcpyObject` and `H2DMemcpyGroup` of runtime-amd/src/mem.rs with what they call:
--   `unchecked_async_copy_into` of runtime-amd/src/lib.rs and `RawPoolBox` of runtime-amd/src/boxed.rs,
--   over the heap of Alloc and the signals of Signal. Copies.Groups has the groups; a group is a tree,
--   and a call that is stuck in the drop of a transfer is the outcome `waiting`. Copies.Ends has the
--   laws, on Copies.Account and Copies.Counted.
-- * Device has parts of `HsaAmdGpuAccel` of runtime-amd/src/lib.rs: Device.Target is how
--   `init_target_desc` reads the name of the ISA, Device.Pools the pools that `new` takes and the size
--   of queues. Names are lists of ASCII characters, and the map of the features is a function. The laws
--   are in Device.Names, Device.Features and Device.Taken.
-- * Lds is runtime-amd/src/lds.rs, what kernels share in a workgroup. A workitem is the list of its
--   accesses and barriers (`trace`), and a phase is what is between two barriers; the hardware is
--   supposed to let all workitems of a workgroup execute their n-th barrier together. The laws are in
--   Lds.Phases, Lds.Rounds, Lds.Safe, Lds.Slots and Lds.Races.
-- * Context is runtime-core/src/context.rs. Context.Creation is `Context::new`, as steps of threads;
--   Context.Accels `initialize_accel` and what finds a device, with the slots of Context.Slots;
--   Context.Modules `ModuleData::compile`, as steps of threads under the lock of the entries; and
--   Context.Stash `ModuleContextData`, the global cell that a launch finds its `ModuleData` in, as
--   steps of threads, each of them one access of the cell or of a count. The laws are in
--   Context.Creation.Once, Context.Creation.Races, Context.Accels.Shared, Context.Accels.Found,
--   Context.Modules.Once, Context.Modules.Moves, Context.Stash.Agree and Context.Stash.Races.
-- * Image is hsa-rt/src/ext/image: Image.Geometry is geometry.rs, Image.Format channel_order.rs,
--   channel_type.rs and format.rs, Image.Descriptor what the HSA library is told of an image, and
--   Image.Copies `Linear::strides` of layout.rs with `check_slice` of mod.rs and the copies of raw
--   data. The laws are in Image.Roundtrip and Image.Sizes.
-- * Errors is runtime-amd/src/error.rs, as far as these parts return its variants; `Stop` adds the
--   panic. HsaErrors is hsa-rt/src/error.rs.
--
-- Numbers: `usize` and `u64` are 64 bits wide. `+`, `-` and `*` of the source wrap, as they do in a
-- release build, and the checked operations are checked. A panic is `none` or the error `panic`.
-- Only `process` runs on fuel, and its theorem gives the turns that are enough: one more than there
-- are packets. The other loops are structural; the loop of `alloc` counts the spurious failures of the
-- compare-exchange that it will see, which are finite and arbitrary. In ArgsPool.Race,
-- Codegen.Driver, Context.Creation, Context.Modules and Context.Stash a thread takes any number of
-- steps. A wait of the host is a list of the waits that the HSA runtime returns from.
--
-- Parameters: the constants of hsa.h (`HsaAbi`, with the values of the HSA specification in
-- `IsHsaAbi`), the allocator behind the pool (`Arena`, `IsArena`), the compiled kernel and the sizes of
-- the argument types (`Invoc`), the compiler and the loader (arguments of Module; in Codegen the steps
-- `compiled`, with any result, and `unwind`), the reset of the completion signal of a launch
-- (`reset`), the creation of signals and the waits for them (`create`, `wait_relaxed`), the copies that
-- the HSA runtime takes (`submit`), the attributes of pools, what `create_target_codegen` returns and
-- which code generators are alive, the end of `build_global` (an error where the pool was built before, as its documentation
-- says), the calls of the HSA runtime that allocate, free and grant access (`Runtime`, with what they
-- promise in `IsRuntime`), the access of a device to a pool, the constants of hsa_ext_image.h
-- (`ImageAbi`, `IsImageAbi`), and the copy of image data.
--
-- Not modelled: what the compiler does inside a session, with its collector and its passes; the
-- platform and its metadata; the creation of images and the copies between them, which are calls of
-- the HSA library; the memory orders of signals; the creation of queues; the intrinsics of the
-- device; the serialisation of compiler types; the procedural macros; Vulkan; and the foreign function
-- bindings.
pub mod Prelude
pub mod Layout
pub mod Errors
pub mod HsaErrors
pub mod Codegen
pub mod Context
pub mod Alloc
pub mod Signal
pub mod Copies
pub mod ArgsPool
pub mod Queue
pub mod Image
pub mod Grid
pub mod Device
pub mod Lds
pub mod Module
pub mod Launch
