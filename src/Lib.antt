-- ===== src/Lib.antt =====
-- The network, audio and device path of the c64stream plugin, that is how the packets of a
-- Commodore machine on the network are admitted, queued, put in order, delayed, placed in time and
-- made into pictures; and its script language: its compilation in part, and the machine that runs
-- compiled scripts.
--
-- How the parts work together. A receive thread takes a packet from its socket, asks the ingest
-- filter whether the sender is admitted, and puts it into a FIFO, marked when it comes from a
-- device that is being switched away from. The processor thread takes packets from the FIFO, drops
-- those of the old device once the new one has been heard, and pushes the others into the network
-- buffer, one ring each for video and audio, which puts them in order and hands them out after a
-- delay. Audio packets that come out are placed by the audio timeline. Video packets are collected
-- into a frame, which is assembled, given a timestamp and given out when the next frame begins;
-- palette packets among them set the colors. Streams are started and stopped by REST or by the
-- control port. Devices that were left stay in a queue, through which the retry worker goes until
-- they are told to stop or it gives them up.
--
-- The files, and the sources that they model (definitions keep the names of the code, without its
-- common prefix):
-- - Base: passes on the libraries; Bools (tests on numbers), Lists, Int (the integers that a signed
--   16-bit difference gives), Words (wrap-around of 16, 32 and 64 bits), Ring (places round a
--   ring), Bytes (strings), Products (their order).
-- - Audio/Timeline: src/audio/c64-audio-timeline.c and .h. `advance` is composed of the branches of
--   c64_audio_timeline_advance. Order and Sync are its proofs. Conceal is the fill of a gap,
--   Samples and Splice its proofs.
-- - Audio/Pops: src/util/c64-av-sync.c, the pairing of flashes and pops. Best treats the search,
--   Queue the queues, and Outcome both calls.
-- - Network/Ingest: src/network/c64-ingest-filter.h; Switch treats the calls of the filter during a
--   switch of devices.
-- - Network/Fifo: src/network/c64-network-fifo.h. Queue and Calls treat whole calls, Threads the
--   single reads and writes of both threads, and Delivery proves what they amount to.
-- - Network/Buffer: src/network/c64-network-buffer.c and .h: the slots, the push with its backward
--   search and shift, the pop, the reset. Delay has the public calls. The proofs: Index (positions
--   and the list of packets), Search, Shift, Insert, Push, Accept (the push, step by step), Order
--   and Late (the order of the stream), Shed and Drain (the pop), Trim and Adjust (the delay), Runs
--   (all calls in any order).
-- - Network/Protocol: the inline functions of src/network/c64-protocol.h; Palette, Generation,
--   Destination and Endpoint are its proofs.
-- - Network/StreamControl: src/network/c64-stream-control.c and .h; the REST client and the control
--   port are an interface of answers. Fallback has the proofs.
-- - Device/StopQueue: src/device/c64-device-switch.c and .h; Keys, Entries and Calls.
--   Device/Departure: what the retry worker of src/c64-source.c does about a device that was left;
--   Rounds and Passes treat its loop, Ends its passes, Switch the start of a switch.
-- - Script: src/script. Value is c64-script.h and the arrays and maps of
--   runtime/c64-script-runtime.c, State and Runtime its stack and variables. Compute, Containers,
--   Control and Execute are the instructions of vm/c64-script-vm-dispatch-core.c, Vm the step and
--   the loop of vm/c64-script-vm.c. Value/Maps and Value/Arrays, Runtime/Variables and
--   Runtime/Limits are proofs; of those below Vm, Frame, Store, Values, Tables, Flow and Bounds go
--   through the instructions, Rounds and Ends through the loop. Stays, Steps, Calls and Functions
--   go through calls and returns. Expression and Compiler are vm/c64-script-bytecode.c. For the
--   expressions, Constants and Growth treat the pool, Meaning says what an expression means,
--   Instructions what the emitted ones do, and Emitted and Correct join these. For the jumps,
--   Passes is an assembler with two passes, Patches and Jumps the proofs. Samples has numbers,
--   devices and a state for the tests.
-- - Video: src/video. Color is c64-color.c, Timestamps the timestamps in c64-video.c, Assemble its
--   assembly of lines, Render its completion tests and its rendering, Frame the processing of
--   packets and the detection of the format. Convert, Order and Counter are proofs; Picture says
--   what a frame is meant to show, Counts and Lines treat the first pass, Interpolate the second,
--   Shown both; Slots, Parts and Collect follow the packets of a frame, Complete all of them, Tiles
--   the lines that they make, Rendered the change of frames, Ready the start, and Whole puts these
--   together.
-- Files named Tests run the definitions on examples.
--
-- How code becomes definitions. State is passed explicitly: a function that writes through a
-- pointer returns the new state. Numbers are natural numbers with the wrap-around of their width
-- written out. An array is a function of its index, or a list where only a first part of it is in
-- use. Strings are lists of bytes. What a mutex protects is one step; the FIFO, which has no mutex,
-- is modelled by its single reads and writes, in sequentially consistent order. The clock is an
-- argument.
--
-- Bounds and fuel. The backward search has the code's own bound, 2,048 packets for video and 150
-- for audio, as its fuel. The loop that discards packets has the capacity as fuel: a round moves
-- the tail on, and there are fewer packets than slots. A port of 16 bits has five decimal digits at
-- most, a number of 64 bits has 20. The pass over the devices to stop has a round for each of them.
-- The loop of the script machine has fuel, and the limit on its rounds is enough; a script without
-- a limit may run for ever, as its code may, and so does a pause that the user never ends.
--
-- Not modelled: null pointers, logging and the debug check of the order; sockets, HTTP, files and
-- graphics, which are calls of the system and of other libraries; in the network buffer the moment
-- between the two locked parts of a delay change; in the filter of senders how the reads and writes
-- of the two receive threads interleave, which no mutex orders; recording, effects, automation and
-- the user interface; of the scripts the parser, the compilation of statements, the built-in
-- functions, and the lack of memory. The floating point numbers of the scripts are an interface,
-- Floats, as are the instructions on devices, Devices, and what the user does meanwhile, Signals.
pub mod Base
pub mod Audio
pub mod Device
pub mod Network
pub mod Script
pub mod Video
