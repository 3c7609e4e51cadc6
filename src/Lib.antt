-- ===== src/Lib.antt =====
-- nugpgpu, a kernel driver that lets programs run on the GPU of Intel's Haswell chips.
--
-- The driver reaches the registers of the GPU through locked accessors that wake it when nobody keeps
-- it awake (Regrw). It maps the GPU's page table and enters pages into it (Gtt), allocates
-- those pages as scatterlists (Memmgr), and passes commands to the GPU through a ring in memory
-- whose tail it writes to a register (Ring). RenderInit allocates the ring's memory through Memmgr,
-- enters it through Gtt, starts it through Regrw and has Selftest send the first commands; Dump
-- reads the registers that a message prints. Fops registers the character device, and Init, which the
-- PCI core calls for the devices of Vendor's table, runs Fops, Regrw, Gtt and RenderInit one after the
-- other. Files, for debugging, and Execbuffer are called by none of the others.
--
-- The parts, and the code that each models:
--   Platform    what the register accessors and the clock of the kernel are taken to be: parameters
--   Services    what the PCI core, the allocators and the DMA API are taken to be: parameters
--   Machine     struct nugpgpu_private and struct gpu_gtt of nugpgpu_drv.h, struct nugpgpu_ring of
--               nugpgpu_ringbuffer.h, the globals, and TRACE_IN and TRACE_OUT of nugpgpu_dbg.h. A
--               function of the driver is a function of the state to a result and a state; the
--               state holds a log of all accesses, of the lock and of the kernel's services
--   Machine.Log readings of the log, and Touches, the relation of a state to one after a function
--               that leaves the driver's fields alone
--   Wait        _wait_for of nugpgpu_drv.h and its users. Rules is about what a wait keeps and that it
--               ends, Meets about a condition that comes true
--   Regrw       nugpgpu_regrw.c and nugpgpu_regrw.h. Effects, Access and Holds say what each
--               function adds to the log, Power that the count is right, Wake what follows from that,
--               Clients the same of a sequence of calls, Waits that the waits end. Frame is the
--               interface of the relations that the rest of the driver keeps, Kept one of them: no
--               hold of the hardware is taken or given up
--   Gtt         nugpgpu_gtt.c, nugpgpu_gtt.h and nugpgpu_pcioffset.h. Pte is about one entry, Table
--               about the table as the GPU reads it, Insert about nugpgpu_gtt_insert, Sequence
--               about many calls of it, Probe about nugpgpu_gtt_probe
--   Memmgr      nugpgpu_memmgr.c and nugpgpu_memmgr.h. Pages is about one page, Object and
--               Outcome about allocate_object, Visible about an object that is then entered in the
--               page table
--   RingRegisters
--               the registers of a ring, and the macros of nugpgpu_ringbuffer.h that access them
--   Ring        the functions of nugpgpu_ringbuffer.c on a running ring, and nugpgpu_ringbuffer.h.
--               Space is about ring_space, Commands about one ring_dispatch, Batches about many, Overrun
--               about many from an odd word
--   Dump        nugpgpu_dbg.c. Reads is about what nugpgpu_dump reads and leaves
--   Selftest    nugpgpu_tests.c and nugpgpu_tests.h
--   RenderInit  nugpgpu_ringbuffer_render_init of nugpgpu_ringbuffer.c. Steps and Holders say who holds
--               the hardware awake after it, Waits that its wait ends; Controls, Grown, Wrote and Order
--               are about the registers that start the ring, Window about where the ring is, Entered and
--               Mapped about what the GPU finds there, Storeless about what the start leaves alone. The
--               modules named Frame, of every component, say that what it calls keeps any relation of
--               the interface Frame; those named Fields, which fields it leaves alone
--   Processors  the register functions of nugpgpu_regrw.c on several processors at once, one access at a
--               time. Alike says that nothing hangs on `depth`, Bodies that the code of a function,
--               undisturbed, does what the function of Regrw does, History and Rules what holds of
--               processors that are stopped anywhere, Taken and Linear that each step keeps it, Runs what
--               follows, Ends and Progress that they get on, Holders who holds the hardware awake
--   Fops        nugpgpu_ioctl.c, nugpgpu_ioctl.h and nuioctl.h. Release is about
--               nugpgpu_fops_finish, Init about nugpgpu_fops_init
--   Init        nugpgpu_init.c. Probe is about the hardware after nugpgpu_pci_probe, Registration
--               about what is registered after it and after nugpgpu_pci_remove, Lifecycle about any
--               sequence of these and of the calls of users
--   Vendor      nugpgpu_vendor.h, and nugpgpu_id_list of nugpgpu_init.c. Ids is about the table
--   Files       nugpgpu_fileops.c and nugpgpu_fileops.h. Names is about the names of the dumps, Limit
--               about the address limit
--   Execbuffer  nugpgpu_execbuffer.c and nugpgpu_execbuffer.h
--   Sdk         the sample program of sdk, and struct nuioctl
--   Tests       a small machine on which the theorems are tried
-- Each function keeps its name. A function with early returns is cut at each of them: what comes
-- after a call is a definition of its own, by clauses on whether the call failed.
--
-- Numbers: `u32` and `unsigned` wrap at 2 ^ 32, and `int` is kept as its bit pattern. Addresses are
-- `unsigned long` and are not taken to wrap. A pointer is its address, and NULL is 0.
--
-- Fuel: the loop of _wait_for is the only one without a bound of its own. Its fuel is one more
-- than the number of pauses after which the clock is past the deadline, a parameter of Platform;
-- on several processors, one whose fuel has run out stays where it is, with the lock. ClockRuns
-- states what makes that number right: no access and no pause takes the clock back, and a pause
-- before the deadline brings it nearer. The loop of the self-test is bounded by its own count of
-- 100000, and the others by the number of pages.
--
-- Not modelled: the text of messages; the constants of the headers that nothing uses; the ids of
-- drm/i915_pciids.h, which are a parameter. Several processors are modelled in the register
-- functions only: they share the lock, and what else the driver does has none. That a processor is
-- preempted, or that its accesses reach the memory late, is not. A fault is not: after a mapping
-- that failed the driver goes on, as the code does, with accesses at the address 0, where the
-- processor would stop it, and NUIOCTL_EXM_NEW reads through whatever address it is given. The
-- driver is modelled with one device. The calls through the pointers of mmio_funcs are calls of
-- the functions that nugpgpu_regrw_init stores there.
pub mod Prelude
pub mod Platform
pub mod Services
pub mod Machine
pub mod Wait
pub mod Regrw
pub mod Gtt
pub mod Memmgr
pub mod RingRegisters
pub mod Ring
pub mod Dump
pub mod Selftest
pub mod RenderInit
pub mod Processors
pub mod Fops
pub mod Init
pub mod Vendor
pub mod Files
pub mod Execbuffer
pub mod Sdk
pub mod Tests
