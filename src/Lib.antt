-- ===== src/Lib.antt =====
-- The slot-by-slot resource scheduler of a 5G New Radio base station, nr_scheduler/: its data
-- model (time, block sizes, the two allocation bitmaps, HARQ, UEs and cells), its two services
-- (slices and quality of service), and the engine that handles the events of the MAC and the
-- PHY and schedules both directions of a slot.
--
-- Parts, files and the code that they follow:
--   Timing      FrameTiming, SubcarrierSpacing and NumerologyConfig
--               (nr_scheduler/include/core/nr_types.hpp). `advance` and `advanced` are one
--               function, `advanced`; `operator==` is `same_slot`. Timing/Advance and Timing/Diff
--               hold proofs.
--   Tbs         tbs_table_lookup and min_rbs_for_tbs (nr_types.hpp). Tbs/Log computes the
--               logarithm, Tbs/Quantise is about the two formulas, Tbs/Lookup about the whole
--               table and Tbs/Search about the binary search.
--   Resources   ResourceBlockRange, SymbolRange and TimeFrequencyResource (nr_types.hpp).
--   Grid        ResourceGrid (nr_scheduler/include/core/cell_context.hpp). Grid/Cells is about the
--               loops, Grid/Reserve about allocate and deallocate, Grid/Find about find_contiguous
--               and Grid/Count about available_rbs.
--   Cce         CcePool (cell_context.hpp) and AggregationLevel (nr_types.hpp). Cce/Blocks is
--               about the search, Cce/Counting about the counter and the round trip.
--   Harq        HarqEntity and its Process (nr_scheduler/include/core/ue_context.hpp). Harq/Select
--               is about the two searches, Harq/Feedback about process_feedback.
--   Slice       SliceOrchestrator (nr_scheduler/include/services/slice_orchestrator.hpp and
--               nr_scheduler/src/slice_orchestrator.cpp). Slice/Manage has the operations on
--               slices and UEs, Slice/Budgets calculate_budgets, Slice/Borrow request_resources
--               and return_resources, Slice/Watch the rest, Slice/Stats get_statistics and
--               Slice/Templates the templates.
--               Slice/Association, Slice/FirstPass, Slice/Guarantee, Slice/Lending, Slice/Request
--               and Slice/Spending hold proofs.
--   Qos         QosEngine and its trackers (nr_scheduler/include/services/qos_engine.hpp and
--               nr_scheduler/src/qos_engine.cpp). Qos/Flows adds, removes and finds flows,
--               Qos/Traffic has the operations while data arrives and leaves, Qos/Priority
--               calculate_priority, Qos/Rate the queries, Qos/Stats get_statistics and Qos/Table5qi the
--               5QI table.
--               Qos/Counting, Qos/Limits and Qos/Throttle hold proofs.
--   Ue          UeContext and UeRepository (ue_context.hpp), with BwpConfig, ChannelQualityInfo
--               and BufferStatus (nr_types.hpp). Ue/Index is about the two maps of the repository.
--   Cell        CellConfig, SlotContext and CellContext (cell_context.hpp). Cell/Slots is about
--               what a slot starts with.
--   Phy         the messages of nr_scheduler/include/interfaces/phy_interface.hpp.
--   Mac         the messages of nr_scheduler/include/interfaces/mac_interface.hpp, and an Event for
--               each call of its handlers.
--   Channels    the structs of nr_scheduler/include/channels/ with the functions that have a body,
--               a file for each header. Channels/Occasions and Channels/Sizes hold proofs.
--   Engine      nr_scheduler/include/engine/scheduler_engine.hpp and
--               nr_scheduler/src/scheduler_engine.cpp:
--     Types       SchedulingDecision, SchedulerConfig and the statistics.
--     Tracker     HarqTimingTracker; Routing is about how feedback finds its transmission.
--     Allocator   DefaultResourceAllocator. Its children are about the choice of blocks, about
--                 what is granted, about what is kept and about whether the request is served.
--     Policy      IPolicyManager and the four policies; Policy/Totality is about their priorities.
--     State       the members of SchedulerEngine, and what the code leaves to its surroundings.
--     Eligible    the UEs that are considered, and a decision for each.
--     Schedule    the rest of schedule_dl and schedule_ul. Reservations, Grants and
--                 Safety are about the blocks, Ranking and Choosing about the decisions,
--                 Returning and Liveness about the end.
--     Tti         build_dl_tti_request and build_ul_tti_request; Requests is about the first.
--     Slots       process_slot and on_slot_indication. Slots/Returning is about their end, with
--                 Slots/Policies.
--     Events      the other handlers and the management of cells, with what they write to one object
--                 in Changes.
--     Idle        an invariant of all HARQ processes. Deciding, Handling, Serving and Reaching
--                 carry it through the operations, Feedback is about what follows.
--     Samples     an engine with one cell and two UEs, with Blanks, for the tests in Trials, Cases and
--                 Examples.
--   Base        shared names, Boolean tests, lists, integers, tables and the operations on double.
-- The HARQ entity uses Timing and Resources, the grid Resources. A UE holds two HARQ entities, a
-- slot two grids and a pool. A cell holds a repository of UEs and the slot that is running; the engine
-- holds the cells, the policy, the two services, the tracker and the statistics. In a slot it ranks the
-- UEs that have data, with the policy, the flows and the slices; lets the allocator find blocks in the
-- grid for each; and sends what was granted to the PHY. A shared pointer to a UE is an address.
--
-- Conventions. A member function that changes its object takes the object and returns the new one,
-- beside its result. A word of w bits is a number, with its wrap-around written out. A
-- `std::optional` is an `Option`. Where the C++ is undefined or throws - an index out of a bitset
-- in a `noexcept` function, a negative number cast to an unsigned type - the model has an outer
-- `none`.
--
-- A class with virtual functions - a policy - is a record of operations over a state of its own, and a
-- pointer to it is an object of some such class. What an Environment holds is left open by the code:
-- the values of members that nothing initialises, the channel managers, whose bodies are not in the
-- repository, the arithmetic of `double`, and whether a thread that holds a `std::mutex` can lock it
-- again (`relocks`), as on_slot_end of the slice orchestrator does in every slot: `none` is that it
-- cannot. `std::sort` is an insertion sort. The calls of the PHY and
-- of the callbacks are a list of outputs, in their order.
--
-- Loops are structural recursion on the rounds that are left, or on fuel: the binary search of
-- min_rbs_for_tbs has 2 ^ 16 rounds, more than the width of any range of 16-bit numbers, and a
-- search for control channel elements has one round more than the pool has elements.
--
-- An unordered_map is an association list, whose order, which is any, stands for the order of
-- iteration. A `double` is a value of an abstract type with the operations of Base/Floats, as its
-- arithmetic is the hardware's. The signed 64-bit products and sums of the token bucket are exact: C++
-- leaves them undefined where they overflow. Each operation of the two services holds their mutex
-- and is one step. A reading of the clock is an argument.
--
-- Not modelled: the classes of the channel managers, of which only the declarations are there; the
-- pure virtual functions of the PHY and MAC interfaces; the engine's get_statistics, which copies a
-- member; the logging; and the tests.
pub mod Base
pub mod Timing
pub mod Tbs
pub mod Resources
pub mod Grid
pub mod Cce
pub mod Harq
pub mod Slice
pub mod Qos
pub mod Ue
pub mod Cell
pub mod Engine
pub mod Phy
pub mod Mac
pub mod Channels
