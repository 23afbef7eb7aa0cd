-- ===== src/Lib.antt =====
-- The memory management core of a Z garbage collector, the `gc/z` directory of a HotSpot fork that is
-- extended with free-list allocators inside its pages. The files named here stand at the root of the
-- repository.
--
-- The parts and how they interact. The collector hands out pages. A page is a range of virtual offsets
-- with physical memory behind it, and both come from a free list of address ranges (ZMemoryManager),
-- which for the virtual offsets is filled by reserving address space (ZVirtualMemoryManager). The
-- physical memory of a page is a list of segments that are committed or not (ZPhysicalMemory), which
-- the page allocator splits and joins as pages are. Free pages are kept in a cache by their size
-- (ZPageCache). The page allocator (ZPageAllocator) keeps the accounts of the capacity, takes pages
-- from the cache or lets the capacity grow, and lets requests wait for which there is no room.
-- A small page that was collected gets a free list of the ranges between its live objects (JSMallocZ),
-- into which objects of other pages are relocated (ZPage::alloc_object_free_list). Which pages are
-- relocated is chosen by the space that this frees (ZRelocationSetSelector).
-- Collections are asked for by messages to a driver thread (ZDriverPort). When a page is relocated, a
-- forwarding stands for it (ZForwarding): it counts the threads that use the page, keeps the table
-- from its objects to their new places, and hands the remembered fields found by the old collection
-- over to the young one, which scans them (ZRemembered). Java threads in JNI critical regions keep a
-- collection out (ZJNICritical), and marking workers agree when no work is left (ZMarkTerminate).
--
-- Files and code:
-- Memory: zMemory.cpp, zMemory.inline.hpp and zMemory.hpp. `Manager` is ZMemoryManager, with the trace
--   of its callbacks; each operation is a function from the manager to its results and the new manager.
--   Memory/Wf has the invariant, Memory/Low, High and Free the operations, and Memory/Canonical what
--   follows from the list being a canonical form of a set of offsets.
-- PhysicalMemory: zPhysicalMemory.cpp, zPhysicalMemory.inline.hpp and zPhysicalMemory.hpp. A memory is
--   the list of its segments. `set_segment` and `set_loop` are commit and uncommit, which differ by a
--   Boolean. `Manager` in PhysicalMemory/Manager is ZPhysicalMemoryManager without its backing, on top
--   of the free list of Memory.
-- VirtualMemory: zVirtualMemory.cpp and zVirtualMemory.inline.hpp, on top of Memory. `pd_reserve`, the
--   reservation of the operating system, is a parameter. Pieces has what was reserved, Reserve the
--   loops, and RoundTrip alloc and free.
-- PageCache: zPageCache.cpp, with ZPage::split of zPage.cpp and ZPage::type_from_size of
--   zPage.inline.hpp. PageCache/Held, Search and Alloc are about allocating and freeing a page,
--   PageCache/Flush and the files below it about flushing: Lists for one list, Nodes for the lists of
--   all nodes in turn, Outcome for the whole and Ends for the end of the loops.
-- PageAllocator: zPageAllocator.cpp, on top of PageCache. PageAllocator has the state and the
--   counters, PageAllocator/Sections what runs under the lock. Balance, Accounts, Grants, Returns and
--   Uncommits say what the sections do to the capacity and to what is used, Finalize has the phase
--   outside the lock, Stalls the requests that wait, and World, Safe and Safety the runs of such
--   sections in any order, from the allocator of Start.
-- JsMalloc: JSMalloc.cpp, JSMalloc.hpp and JSMallocUtil.inline.hpp as the collector configures them
--   (JSMallocZ). The lists are in JsMalloc, the operations on a page in JsMalloc/Operations. Pointers
--   has the halves of a word, Classes the size classes, Lists the free blocks that a pool stands for,
--   Insert, Remove, Allocate and Free the operations on them, and Race an interleaving of threads.
--   Base/BitSets has what the operations on a word do to each bit.
-- PageFreeList: init_free_list and alloc_object_free_list of zPage.cpp, on top of JsMalloc. Gaps has the
--   ranges between live objects, Freed what init_free_list leaves, Recycled any number of allocations.
-- Selector: zRelocationSetSelector.cpp and zRelocationSetSelector.inline.hpp. SemiSort is about the sort
--   by live bytes, Select about the choice of pages in a group, Register about registering pages and
--   what it gives the sort, and Reclaim has the loop of ZGeneration::select_relocation_set over the
--   pages. The expressions on floating-point numbers in select_inner are parameters.
-- PageTop: alloc_object and alloc_object_atomic of zPage.inline.hpp, the latter as steps of threads.
--   align_up of the virtual machine is a parameter.
-- DriverPort: zDriverPort.cpp and zDriverPort.hpp. `Port` is ZDriverPort, and each operation that
--   holds its lock is one step.
-- JniCritical: zJNICritical.cpp. `advance` is one access of a thread to the shared count. A thread that
--   waits sleeps until another one calls notify_all. Safety is about the count, Wake about waking up.
-- MarkTerminate: zMarkTerminate.inline.hpp and zMarkTerminate.hpp, as steps of workers and other
--   threads.
-- Forwarding/RefCount: retain_page, release_page, in_place_relocation_claim_page and detach_page of
--   zForwarding.cpp, as steps of threads in the same way. Base/Threads has what these share.
-- Forwarding/Entry: zForwardingEntry.hpp with the fields of zBitField.hpp.
-- Forwarding/Table: find and insert of zForwarding.inline.hpp, with the hash of zHash.inline.hpp, as
--   steps of threads that relocate objects as ZRelocate::relocate_object does. Copying the object is not
--   part of it. Table/Probe has the probe sequences, Agreement the runs of such threads, Chained where
--   they leave the entries, Ends the loop of find.
-- Forwarding/Remembered: the functions of zForwarding.cpp and zForwarding.inline.hpp whose names begin
--   with relocated_remembered_fields, and in Protocol the order in which zRelocate.cpp and
--   ZRemembered::scan_forwarding of zRemembered.cpp call them.
--
-- Numbers are natural numbers. Where the code adds or subtracts sizes and offsets of 64 bits, the wrap
-- is written out (`add64`, `sub64`), and the theorems take the largest offset to be below UINTPTR_MAX.
-- In PageCache and VirtualMemory the sums of offsets and sizes stay in the address space, and are not
-- wrapped. The signed counts do not wrap in the model. Loops are recursions on the list that they
-- walk. The loop of ZPhysicalMemoryManager::alloc runs on fuel, of which the size to allocate is
-- enough, since each round gets at least a byte. The loops that flush the page cache run on fuel too:
-- a round for each page and one more, and for the lists of n nodes n rounds for each page and n more,
-- and one. The loops of JSMallocZ run on rounds, of which one is enough where no other thread
-- interferes. The bisection of an address range has as many levels as the range has bytes, and one more,
-- since both halves are smaller; the loops that reserve have a round for each offset and one or two
-- more. An assertion that fails is `none` or a state of its own, as far as assertions are modelled:
-- those on alignment are not.
--
-- Not modelled: the buddy allocators inside pages, which are off by default; the work of marking,
-- barriers and relocation, which work on objects and on compiled code that stand outside the directory;
-- statistics and heuristics with
-- floating-point numbers; start-up, logging, verification and the glue to the virtual machine. Locks
-- and the memory model of the processor are not modelled either: a locked section is one step, and all
-- threads see the same order of accesses.
mod Base
pub mod Memory
pub mod DriverPort
pub mod JniCritical
pub mod JsMalloc
pub mod PageFreeList
pub mod Selector
pub mod PageTop
pub mod MarkTerminate
pub mod Forwarding
pub mod PhysicalMemory
pub mod VirtualMemory
pub mod PageCache
pub mod PageAllocator
