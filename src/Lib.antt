-- ===== src/Lib.antt =====
-- The Entropy Source and DRNG Manager (ESDM): the managers that collect entropy, seed the DRNGs of
-- the nodes and hand out random bytes.
--
-- The ESDM keeps one DRNG per node and one for prediction resistance (esdm/esdm_drng_mgr.c,
-- esdm/esdm_node.c). A request picks the DRNG of the caller's node; before it generates, the DRNG
-- manager may reseed it: it asks the entropy source manager (esdm/esdm_es_mgr.c) to fill a seed
-- buffer from all sources, the auxiliary pool (esdm/esdm_es_aux.c) among them, injects the buffer
-- into the DRNG and lets the source manager raise the stages of the ESDM: minimally seeded, fully
-- seeded, operational. The stages are shown on a status page in shared memory
-- (esdm/esdm_shm_status.c).
--
-- Base, with its children, holds what all parts use: tests on numbers, lists by native index, the
-- 32-bit arithmetic, results with error numbers (Result), and runs that may not return (Run). Config
-- models esdm/esdm_config.c, the constants of esdm/esdm_definitions.h and the oversampling helpers
-- of esdm/esdm_drng_mgr.h; Setters the run-time configuration calls. System is the state that the
-- managers share: all of it is one record, Sys, which every operation takes and returns. The
-- cryptographic backend, the hash and the entropy sources other than the auxiliary pool are the
-- parameters of the record Platform, since the ESDM calls them by tables of function pointers.
-- ShmStatus, AuxPool, EsMgr, DrngMgr, Random, Api, GetSeed and Node model the functions of the same
-- names, less the prefix esdm_: Random is esdm_drng_get and what it calls, Api the interface
-- functions, the start and the reset of the manager, GetSeed esdm_get_seed, Node the allocation of
-- the nodes' DRNGs and their end. History is a step function over the calls of the interface.
-- Sources models esdm_kernel_read and the levels of the drivers of esdm/esdm_es_hwrand.c and
-- esdm/esdm_es_cpu.c, Sources.Slow the drivers esdm/esdm_es_irq.c and esdm/esdm_es_sched.c, Health
-- the SP800-90B health tests of the kernel's sources, addon/linux_esdm_es/esdm_health.c; Harvest the
-- delivery of the kernel's interrupt source, addon/linux_esdm_es/esdm_es_irq.c; these stand beside
-- the managers. The children of a module hold its theorems; Tests holds concrete systems and the
-- theorems applied to them.
--
-- An unsigned 32-bit value is a natural number whose operations reduce it modulo 2^32 (Base.Word);
-- the int counters of a DRNG are modelled by their bit patterns. A DRNG is reached by a pointer,
-- DrngRef, to one of the two static DRNGs or to a cell of the heap, so that a node may share the
-- initial DRNG.
--
-- Locks: the pool's lock is a flag of the state, since its trylock changes what the code does; a
-- blocking lock that is taken, or a wait for another thread, is a run that does not return (none).
-- The other locks are held for the whole of an operation and appear as arguments (busy) where a
-- trylock on them is visible. Calls are atomic: interleavings inside a call are not modelled.
--
-- Fuel: the seeding loops run on 65536 iterations (seed_fuel); the loop of one DRNG needs at most
-- 384, since each further iteration adds a bit to fewer than 384. The loop of esdm_drng_get runs on
-- one more iteration than there are bytes, since each takes at least one byte off the request. The
-- loops of esdm_force_fully_seeded_all_drbgs and of esdm_get_seed have no bound in the code, since
-- they go on while the sources behave so; a run of them that outlasts its fuel counts as one that
-- does not return.
--
-- Hex models the coders of common/binhexbin.c. An output buffer is the list of the bytes written to
-- it; the two passes of the HTML coder run on as many iterations as there are characters, since each
-- takes at least one.
--
-- The RPC layer carries the calls to another process. Rpc models the packing of a message and the
-- loops that receive one (service-rpc/service/esdm_rpc_protocol.h and esdm_rpc_protocol_helper.c,
-- both sides' files below), Rpc.Server and Rpc.Client the write loops, the dispatch of a request and
-- the resubmission by the client (service-rpc/server/esdm_rpc_server.c, service-rpc/client/
-- esdm_rpc_client.c), Rpc.Methods the methods in service-rpc/server/esdm_rpc_*_s.c over Api and
-- AuxPool, Rpc.Requests the client's functions in service-rpc/client/esdm_rpc_*_c.c, whose rounds
-- are answered by a parameter, Rpc.Connections the array of the client's connections and Rpc.Startup
-- the threads of the server's start. The protobuf library is a parameter: a packed message is the
-- list of the pieces it appends, unpacking a function. A socket is the list of what its reads or its
-- writes return; a loop that asks for more than that list has is a run that does not return. The
-- loop for random bytes runs on three more iterations than the request has bytes, the one that cuts
-- data into pieces on one more.
--
-- Cuse models the handlers of the devices /dev/random and /dev/urandom,
-- frontends/cuse/cuse_device.c: Cuse itself esdm_cuse_read_internal and esdm_cuse_write_internal,
-- Cuse.Ioctl esdm_cuse_ioctl with the change of the daemon's privileges around it, Cuse.Poll
-- esdm_cuse_poll, esdm_cuse_release and a round of esdm_cuse_poll_checker on the table of poll
-- handles. The calls of the client library and the kernel's own device are parameters, replies to a
-- request are values. The read loop runs on one more iteration than the request has bytes, since
-- each takes at least one.
--
-- Not modelled: logging, memory wiping, the monitor of the entropy sources, the creation of the
-- status page, the other drivers of entropy sources, the cryptographic primitives (a copy of parts
-- of leancrypto), the generated protobuf code, the creation of sockets and the accept loop, the
-- cleanup process, the getters of the RPC layer, the start of the CUSE daemons and the other
-- frontends.
pub mod Api
pub mod AuxPool
pub mod Base
pub mod Config
pub mod Cuse
pub mod DrngMgr
pub mod EsMgr
pub mod GetSeed
pub mod Harvest
pub mod Health
pub mod Hex
pub mod History
pub mod Node
pub mod Random
pub mod Rpc
pub mod Setters
pub mod ShmStatus
pub mod Sources
pub mod System
pub mod Tests
