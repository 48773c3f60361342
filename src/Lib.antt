-- ===== src/Lib.antt =====
-- The receiver of BTHome writable, the Home Assistant integration of
-- custom_components/bthome_writable: what it reads from a device's advertisements, how it takes its
-- turns at the radio, what it writes and what it reads back; and four of the tools beside it: the
-- reference AES-CCM, the test vectors that both sides are held to, the lock on the bench and the
-- upload of a sketch over a console.
--
-- The parts. protocol.py says what the bytes mean: a walk over an object stream, the declaration of
-- the entries that can be written, the codec of one entry's value and the sealing of advertisements,
-- writes, reads and counter reports. slots.py is the one gate that all devices of a host pass before
-- they connect. coordinator.py holds one device's state: advertisements move it, commands queue in it
-- and leave it one connection at a time, and a settings revision that moves makes it read the device.
-- entity.py, switch.py, number.py, text.py and button.py show one entry each and hand the coordinator
-- what a user sets. config_flow.py finds a device and proves its key before there is a coordinator,
-- and __init__.py builds the coordinator from what was stored and carries old identities over.
-- tools/gen_test_vectors.py seals its vectors with the library and with tools/ccm_reference.py, which
-- is here an implementation of the interface that protocol.py takes the library by.
--
-- Which file models which part:
--   Common               lists, results, integers and Boolean tests that the others share
--   Protocol/Const       the constants of const.py that the code reads
--   Protocol/Walk        _value_length and split_objects
--   Protocol/Integers    int.to_bytes and int.from_bytes
--   Protocol/Kinds       ObjectKind, describe, event_values, encode_scaled and decode_scaled
--   Protocol/Declaration WritableEntry, Declaration, parse_declaration, encode_object, decode_object
--   Protocol/Text        bytes.fromhex and the text of an address, for mac_bytes and nonce_address
--   Protocol/Sealing     nonce to open_counter_report
--   Protocol/Stored      Declaration.stored and Declaration.restore, over JSON values
--   Slots                ConnectionSlots; Slots/System is the gate among its callers, a step relation
--                        with one step for each arrival, cancellation, release, resize and timer;
--                        Slots/Requests is the host's cap and the requests for it, and
--                        Slots/Requests/Standing tells from the history which of them stand
--   Coordinator          BTHomeWritableCoordinator: its state
--   Coordinator/Advertising async_handle_advertisement and what it calls
--   Coordinator/Counters next_write_counter, resynchronise, _adopt_counter, _starting_counter;
--                        Counters/Life is their life across restarts
--   Coordinator/Queue    async_write and _flush_soon, as events on the queue
--   Coordinator/Reading  _open_read, _read_entries, _read_due_here, async_read_all and _read_loop
--   Coordinator/Writing  _write_now and what it calls on the link
--   Coordinator/Asking   async_sync_write_counter and what it calls, async_clear_service_cache,
--                        async_set_unavailable, _check_mtu
--   Entity               the state of an entity of entity.py, add_entities_as_declared of switch.py and
--                        the value of text.py
--   Entity/Platforms     is_kind and the values of switch.py, number.py, and button.py
--   Identity             entity_unique_id, event_unique_id, instance_label, _migrate_unique_ids
--   Setup                async_setup_entry, _cap_may_have_moved and async_unload_entry of __init__.py
--   ConfigFlow           parse_bindkey to declaration_from of config_flow.py; ConfigFlow/Steps is one
--                        function for each step, ConfigFlow/Session a whole flow, form after form
--   CcmReference         tools/ccm_reference.py
--   TestVectors          tools/gen_test_vectors.py; TestVectors/Build is build_vectors
--   BenchLock            tools/bench_lock.py; BenchLock/Races is its commands beside each other, a step
--                        relation
--   Upload               SerialBoard, send_sketch, evaluate and upload_serial of
--                        tools/espruino_upload.py
-- The module Examples of a part runs it at concrete inputs.
--
-- How the code is modelled. A state is a record and an operation a function from the state; an
-- asyncio future, a timer, a callback and a connection are data: an operation that the loop would
-- suspend is split where it suspends, and what happens meanwhile is another step, or, in a write, in
-- the reads of entries, and in the question for the counter, a function that is a parameter.
-- Exceptions are values of a result; their messages are left out, as is the log. Bytes and code
-- points are natural numbers. Time is a natural number of ticks or milliseconds.
--
-- Parameters, which are code of other packages: the object table of bthome-ble, AES-CCM and the
-- encryption of one AES block of the package cryptography with what they promise stated where a
-- theorem needs it, Python's floats, what Home Assistant knows of a unique id, and what the host's
-- Bluetooth stack, the device and a serial port answer.
--
-- Fuel. The walk over a payload recurs on the payload's length, and each object takes at least one
-- byte of it, so the walk always ends before; the loop that admits waiters recurs on the number of
-- waiters, and each turn removes one. The keystream of the reference is given one turn more than the
-- bytes asked for, and each turn adds a block. The loop of acquire is given its turns, and a theorem
-- says how many are enough. A number has fewer digits than its successor counts. The read loop takes
-- the turns it is given, and the queue its events. The pieces of a payload are counted by its length,
-- and each takes at least one byte; a wait for the board has the turns that it lasts.
--
-- Not modelled: the words of labels and forms, the log, and characteristic_uuid, which fills a
-- template; of the coordinator the lists of listeners, and _report_timing, which only fires an event;
-- of the bench lock the parsing of its arguments and what it prints; of the test vectors the JSON
-- document; of the upload the board over Bluetooth, the resolution of modules and the scan; the other
-- tools, which drive radios, boards and files, the firmware and the tests.
pub mod Common
pub mod Protocol
pub mod Slots
pub mod Coordinator
pub mod Entity
pub mod CcmReference
pub mod TestVectors
pub mod BenchLock
pub mod ConfigFlow
pub mod Identity
pub mod Setup
pub mod Upload
