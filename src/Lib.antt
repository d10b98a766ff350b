-- ===== src/Lib.antt =====
-- pipewire-gobject: GObject wrappers around PipeWire, for languages with introspection. The
-- library is C code in src/; this development models its stateful objects and proves what they
-- promise.
--
-- Two threads meet in every object: PipeWire's own thread, which calls back, and the main context
-- of the application, on which signals and notifications are emitted. A callback leaves work
-- behind, under a lock or as a source of the main context, and the main context picks it up. Most
-- of what can go wrong lies between the two: work that is stale when it is picked up, twice
-- attached, lost or out of order. So the objects are records, each operation, callback and
-- dispatch is a function on them, and histories and interleavings are lists of operations or a
-- step relation.
--
-- Files:
--   Prelude     shared tests, lists, integers and machine words
--   Error       src/pwg-error.h: the error codes, and Outcome for functions with a GError
--   Double      the C type double, as a parameter with the order laws that the code relies on
--   Properties  GHashTable as a string table (src/pwg-stream.c and src/pwg-core.c)
--   Audio       src/pwg-audio-format.c and src/pwg-audio-block.c
--   Stream      src/pwg-stream.c: State (struct _PwgStream), Queue (pwg_stream_queue_*), Dispatch
--               (pwg_stream_dispatch_pending), Process (the callbacks), Control (start, stop, settings)
--   Core        src/pwg-core.c: Connection (connect, disconnect, properties, modules), Sync
--               (pwg_core_sync_main_context_internal and its callbacks), Clients (what shares a core)
--   Global      src/pwg-global.c: the descriptor of a global
--   Registry    src/pwg-registry.c: State, Dispatch (events), Control (start, sync, stop), Lookup
--   Link        src/pwg-link.c: State, Operations (events and stop), Control (start, sync)
--   Metadata    src/pwg-metadata.c: Cache (entries by printed keys), State, Operations (events),
--               Control (start, sync, stop, set and clear), Names
--   Node        src/pwg-node.c: State, Operations (events and stop), Control (start, sync),
--               Enumeration (the requests for parameters); Whole, Events, Begun, Waits,
--               Reentrant and Calling are about handlers that call back
--   Device      src/pwg-device.c, in the same parts; Stopping, Mirror, Asking, Requests and
--               Same relate it to Node
--   Param       src/pwg-param.c: Pod (the bytes as a POD), Format (names and audio formats), Build
--               (the parameters that an application makes)
--   ParamInfo   src/pwg-param-info.c
--   RouteInfo   src/pwg-route-info.c
--   ImplModule  src/pwg-impl-module.c: the handle of a loaded module
--   Wrappers    the registries, nodes, devices, links and metadata objects that share a core: each
--               is a client of it (Core.Clients), by its module OnCore
--   Views       src/pwg-client-info.c, src/pwg-device-info.c, src/pwg-link-info.c,
--               src/pwg-node-info.c and src/pwg-port-info.c
--
-- A definition names the function that it models in the comment above it. Fields and constants
-- have the names of the source, but for `bytes`, the field `data` of a block, `value_type`, the
-- field `type` of a metadata entry, and `info`, the argument `data` of the sync callbacks. A
-- pointer to a PipeWire object is the Bool that says whether it is not NULL. NULL strings are
-- `none`.
--
-- How state and time are modelled. A critical section of a lock is one function. A source of the
-- main context is a count (Stream) or an event in a queue (Registry, Link, Metadata, Node,
-- Device). Where a signal is emitted, an argument `on`, the handlers of the application, is
-- applied: it may do anything to the object, so a dispatch is taken apart where handlers run.
-- `quiet` stands for handlers that do not call back. Answers of PipeWire and of GLib (does an
-- allocation succeed, which events come before a wait returns, does g_main_context_invoke_full run
-- the function at once) are arguments; of the events that come while a sync waits, each has this
-- choice of its own (Prelude.Arrivals). The field `core` of a wrapper holds the core itself; where
-- several share one (Core.Clients), it is set to the shared core before an operation and read back
-- behind it.
--
-- Numbers are native naturals; unsigned int wraps modulo 2^32 and uint64_t modulo 2^64 where the
-- code adds. Revisions of the graph rate are counted up to 2^64 in Stream.RateSteps, since an
-- equal revision after a full turn could not be told from the same one; Registry.Session asks the
-- same of the 32-bit generation. The queue of blocks holds at most 64,
-- PWG_STREAM_MAX_PENDING_BLOCKS. The only loop that may not end is the wait of the core sync: it
-- runs over the wakes that come, and its theorem says when the call returns.
--
-- GLib, PipeWire and SPA are not part of the repository. Their results are arguments, and the
-- assumptions are: sources of one priority run in the order in which they were attached; the order
-- of double values that are no NaN is transitive and asymmetric (Double.IsOrdered). The tokens of
-- SPA's JSON reader are an argument of Metadata.Names.
--
-- A read of a parameter's bytes is an Option whose `none` is a read outside of them, and a result
-- that may be NULL is an Option inside of it. The structs of SPA that are laid over the bytes are
-- a layout with offsets (Param.Pod.PodLayout); the builder and the parser of SPA are records of
-- functions over a state of their own.
--
-- Not modelled: the GObject plumbing of all types; the text that pwg_param_dup_summary makes for
-- diagnosis; the signals items-changed of list models; the channel positions and the format pod
-- that a stream offers, which only PipeWire reads; the overflow of the int that numbers the
-- requests of a node or device, which would take 2^31 of them.
pub mod Prelude
pub mod Error
pub mod Double
pub mod Audio
pub mod Properties
pub mod Stream
pub mod Global
pub mod Registry
pub mod Core
pub mod Metadata
pub mod Link
pub mod ParamInfo
pub mod Param
pub mod Node
pub mod Device
pub mod RouteInfo
pub mod ImplModule
pub mod Views
pub mod Wrappers
