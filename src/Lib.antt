-- ===== src/Lib.antt =====
-- Verification of btlos, a simulation of an operating system: a multi-level queue scheduler, and memory by paging with
-- a RAM and a swap device.
--
-- A clock (src/timer.c) counts time slots for the threads of the CPUs and of the loader (src/os.c), its devices: it
-- goes on when each has finished its slot. The loader reads processes from files (src/loader.c) and puts them into
-- the ready queues; a CPU takes one, runs one instruction of it in each slot, and puts it back when its time slot is
-- used up. A process (struct pcb_t) runs one instruction a call (src/cpu.c). Its memory instructions
-- work on regions of its virtual memory, which symbols name (src/mm-vm.c); these are backed by pages, which the
-- page table maps to frames of the device RAM, and which go to the device for swap when RAM is full (src/mm-vm.c,
-- src/mm.c, src/mm-memphy.c). Ready processes wait in one queue for each priority (src/queue.c, src/sched.c).
-- The source is modelled as it is compiled with MLQ_SCHED and MM_PAGING (include/os-cfg.h).
--
-- Prelude   what the others share: tests on numbers, lists, C's integers, bits, and the outcome of C code
--           (Prelude/Run: done, fault for undefined behaviour, spent for a loop that ran out of fuel).
-- Queue     src/queue.c: struct queue_t is Queue; enqueue, dequeue, queuePeek (queue_peek), init_queue. What waits in
--           it is Queue.Contents.contents, and Queue.Fifo compares it with push and pop of a bounded list.
-- Sched     src/sched.c: the static variables are the record Mlq; get_mlq_proc, put_mlq_proc, reset_slots,
--           queue_empty, init_scheduler. Sched.Policy says which queue is to be served.
-- Pte       include/bitops.h, the macros of include/mm.h, and pte_set_fpn, pte_set_swap and init_pte of src/mm.c.
-- Memphy    src/mm-memphy.c, and __swap_cp_page of src/mm.c.
-- Frames    alloc_pages_range and enlist_framephy of src/mm.c, which nothing calls.
-- Lru       enlist_pgn_node of src/mm.c and find_victim_page of src/mm-vm.c.
-- Mm        include/os-mm.h: mm_struct, vm_area_struct, vm_rg_struct, the look-ups get_vma_by_num and get_symrg_byid,
--           enlist_vm_freerg_list, and init_mm with its helpers.
-- Region    get_free_vmrg_area of src/mm-vm.c.
-- Paging    pg_getpage, pg_getval and pg_setval of src/mm-vm.c, and vmap_page_range of src/mm.c.
-- Vm        __alloc, __free, __read, __write (alloc, free, read, write), inc_vma_limit, pgalloc, pgfree_data,
--           pgread, pgwrite and free_pcb_memph of src/mm-vm.c, and vm_map_ram of src/mm.c.
--           Vm.Owned says to whom every address belongs, and Vm.Safety.Uses are any calls of the four in a row.
-- Cpu       run and calc of src/cpu.c; Cpu.Safety.Runs are any calls of run in a row. Cpu.Fit are the programs whose
--           requests for memory add up to less than 2 ^ 31.
-- Timer     src/timer.c: the static variables and the locals of timer_routine are the record Timer; next_slot
--           (next_slot and leave_slot), detach_event, attach_event, start_timer and the loop of timer_routine are the
--           steps of the data type Step, which a thread makes between two waits. Timer.Sound is their invariant.
-- Loader    src/loader.c: load and get_opcode over a type of files; Loader.Token is one such type, and Loader.Print
--           writes programs.
-- Os        src/os.c: cpu_slot is one turn of cpu_routine, from one next_slot to the next, and Os.Loading.ld_slot one of
--           ld_routine. The record Os is what the threads share; Os.Apart.Turns are turns of several CPUs in any order.
-- Config    read_config of src/os.c over a type of files; Config.Print writes configurations, and Config.Token is a
--           type of files.
-- Machine   the whole program: Machine.Main.main is main of src/os.c up to the start of the threads, and
--           Machine.Step a step of the clock, of a CPU (cpu_step, one access to what is shared after another) or of
--           the loader, in any order, each when the clock lets it. Machine.Reach are any steps in a row.
--           Machine.Memory carries a predicate on processes through them: that a process fits, wherever it is.
-- Mem       src/mem.c, and alloc, free_data, read and write of src/cpu.c on it: obsolete, and not compiled.
--
-- State. A function takes the state it reads and returns the one it leaves. The record Caller is what the memory
-- functions reach through `caller`: mm, mram and active_mswp. The return codes 0 and -1 are success and
-- failure, or some and none where a value is returned with 0. A linked list is a Chain, which ends in NULL or in a
-- pointer that must not be followed.
--
-- Numbers. Natural numbers; an unsigned sum or shift that can wrap has its remainder written out. An `int` is an
-- exact integer (Prelude.Int); that it does not overflow is a hypothesis where a theorem needs it, and the overflow
-- of PAGING_PAGE_ALIGNSZ is a fault. A byte is the
-- number of its bits. A local variable that may be read before it is set holds the argument `junk`.
--
-- Fuel. Two loops have fuel. The loop of get_mlq_proc has an outer Option, none when the fuel ran out: two
-- rounds over the 140 priorities are enough when a process waits. The loop of get_free_vmrg_area ends in spent
-- when the fuel ran out: as many rounds as the free list has bytes and regions, and one more, are enough for a
-- size from 1 on. With size 0 the source does not end.
--
-- Parameters. fopen and the conversions %d, %lu, %u and %s of fscanf, which are of the C library, are arguments of
-- the functions of Loader, Config and Machine. That what they read is what was written is a hypothesis where it is needed.
--
-- Not modelled. What is printed, and the functions that only print. The end of main and of stop_timer, behind
-- the threads. create_pcb and destroy_pcb of src/common.c, which only the tests call. Data races: two CPUs run their
-- processes without a lock on the devices of physical memory, and here each call of run is one step. The lock of the
-- scheduler: each of its calls is one step, as when no other thread runs between its test and its loop.
pub mod Prelude
pub mod Queue
pub mod Sched
pub mod Pte
pub mod Memphy
pub mod Lru
pub mod Mm
pub mod Region
pub mod Paging
pub mod Vm
pub mod Cpu
pub mod Timer
pub mod Os
pub mod Config
pub mod Mem
pub mod Machine
pub mod Frames
pub mod Loader
