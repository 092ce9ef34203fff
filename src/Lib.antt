-- ===== src/Lib.antt =====
-- EspStation's gateway, gateway/espstation_gateway: a Python service that talks to ESP32 nodes. Bytes
-- arrive over a transport (a serial port, TCP, or a simulated node), a link pumps them through a
-- decoder, the decoder's events (frames and raw console bytes) go to the listeners, and frames of the
-- station go the other way. Nodes also exchange frames of their own over a two-wire digital link, of
-- which the gateway has a copy for its simulator.
--
-- Common holds the libraries' names that all files use, Boolean tests, lists of bytes, results of code
-- that raises, exclusive or at variables, and Python's dicts with any keys. Tests holds runs at concrete
-- inputs.
--
-- Protocol models gateway/espstation_gateway/protocol: Protocol/Cobs is cobs.py (encode, decode),
-- Protocol/Crc16 is crc16.py (the table and crc16_ccitt_false), Protocol/Packed is what the code uses of
-- Python's struct, Protocol/Frames and Protocol/Streaming are frames.py (encode, encode_cobs, parse; the
-- StreamingDecoder, whose state is its buffer), Protocol/Messages is the packed messages of fixed shape of
-- messages.py (Heartbeat, TelemAck, BulkChunk, TimeSync) and, in Protocol/Messages/Logs, Log, for which
-- UTF-8 is a parameter.
--
-- Transports models gateway/espstation_gateway/transports: Transports/LengthPrefix is tcp.py
-- (LengthPrefixDecoder, encode_length_prefixed), Transports/Link is base.py (RawFrameDecoder, Link). A
-- transport is the list of the chunks that it yields and how it ends; of the listeners there are how they take
-- each event (an exception of one, or a cancelled pump, drops the rest of a chunk) and the list of what
-- they are told.
--
-- Dio models transports/sim/dio_link.py: Dio/Pins, Dio/Crc8, Dio/Framing (build_frame, frame_to_bits),
-- Dio/Receiver (FrameRx, with its four states), Dio/TestFrames (xorshift32, testframe_payload,
-- resync_index, payload_bit_errors), Dio/Monitor (LinkStats, LinkMonitor) and Dio/RateLimit.
--
-- Morse models transports/sim/morse_link.py: Morse/Table (CODE_TO_CHAR), Morse/Clock (elapsed_ms),
-- Morse/Decoder (Decoder.edge and tick) and Morse/Key (Key.sample, bounces).
--
-- Sim models transports/sim/network.py and node.py. Sim/Wire is VirtualWire: a line with its edges,
-- glitches and frames. Sim/Digital is what a SimNode does with its pins and wires: set_gpio, the limits
-- of events, the reports on frames, the handshake and the reboot; Sim/Digital/Step is dio_step, which
-- puts wire, receiver and monitor together. Sim/Telemetry is the sampling's batches and the backlog that
-- is kept while the link is down; Sim/Outbox is the queue to the station, Sim/Hello the chunks of a
-- HELLO. Sim/Experiment is the experiment of a node: specs, runs and reboots, with Triggers (triggers,
-- bursts and the tick of the main loop) and Commands (_handle_cmd) below it.
--
-- Protocol/NodeDatabase is ndb.py: what each node has declared, and the station's check of a spec.
-- Runtime models parts of runtime.py: NodeIds (_morse_node_id), Sessions (_announcement_session), Samples
-- (_on_telemetry), Commands (send_command, _on_time_sync_reply) and Runs (_on_exp_state).
--
-- In the simulator, times are whole microseconds of one clock and measured values whole numbers with a
-- sign; what random numbers decide is an argument (a draw of chance is compared with a rate as a whole
-- number, a jitter is a number of microseconds), and noise over several bits or frames is a function of
-- their position. A dict is a list of its items. What is only told to the user (texts, severities) is
-- left out of messages; fields that no decision reads are left out of records.
--
-- Functions that mutate an object take its state and give the new one back. An exception is the err
-- case of a Result. Bytes are lists of natural numbers; w-bit arithmetic is written out modulo 2 ^ w,
-- and so is the mask of a difference that may be negative. A while loop is recursion on fuel, and stuck
-- is what it gives when the fuel runs out: the loops of the two stream decoders start with the length of
-- the buffer and one, since every round takes a byte at least; the loops of COBS start with the length
-- of the data (and one), for the same reason; the number of ones of x is counted in x rounds.
--
-- Not modelled: the JSON messages (pydantic), the store (SQL), the HTTP service (FastAPI), the serial
-- port's driver calls, the floating-point error ratio, the sockets' operations, the network of simulated
-- nodes and the shapes of their signals, the loops of asyncio, and, so far, the packing of the telemetry
-- message, and the Morse link's generator, line parser and feed. Firmware (C) and desktop (TypeScript)
-- are other programs.
pub mod Common
pub mod Protocol
pub mod Dio
pub mod Transports
pub mod Morse
pub mod Tests
pub mod Runtime
pub mod Sim
