-- ===== src/Lib.antt =====
-- JeffersonLab/ersap-ejfat: the C++ that cuts a buffer into UDP packets for the EJFAT load balancer
-- and puts the packets together again.
--
-- A sender calls `sendBuffer`, which finds the MTU and calls `sendPacketizedBuffer`; every datagram has
-- a load-balancer header (LB), a reassembly header (RE) and a chunk of the buffer. The load balancer
-- takes the LB header off. The receiver's `getBuffer` calls `getPacketizedBuffer`, which reads the
-- datagrams, parses the RE header and puts the chunks at their places, and keeps those that come too
-- early in a map; the engine's `process` gives the buffer on. The ET assembler writes the chunks of
-- several data sources into the buffers of an ET fifo and asks `allLastBitsReceived` when to hand
-- them over.
--
-- Paths are below ejfat/legacy/src/main/cpp/ where they name no directory.
--   Base        shared tests, list lemmas, the integers, and memory: blocks are lists of bytes, and what
--               C leaves undefined (a write or a read outside a block, a use or a free after a free) is
--               a value `fault`.
--   Wire        the two headers as bytes: `setLbMetadata`, `setReMetadata` (ejfat_packetize.hpp),
--               `parseLbHeader`, `parseReHeader` (ejfat_assemble_ersap.hpp). Wire.Bytes has the byte
--               swaps of a little-endian host.
--   Packetize   ejfat_packetize.hpp: `sendPacketizedBuffer` (`send_loop`, `round`, `after_error`),
--               `getMTU`, `sendBuffer`. Reads has the memory that the sender reads.
--   Assemble    ejfat_assemble_ersap.hpp: the readers `readPacket` and `readPacketRecvFrom`; Store is the
--               `std::map` of early packets and `freeMap`; Loop is `getPacketizedBuffer` (`drain` is its
--               inner loop, `put_aside` the branch of an early packet); GetBuffer is `getBuffer`.
--               Message, Reads, Invariant, Turns, Rounds, Kept, Safety and InOrder are the proofs on the loop,
--               GetBuffer.Blocks, Complete, Errors, Swallows and Fuel those on `getBuffer`.
--               Fast is `getPacketizedBufferFast`, which reads a datagram to its place, header and all.
--   Plain       ejfat_assemble.hpp, the same code with one reader, and Plain.Engine
--               `EjfatAssembleEngine::process` of ejfat_assemble_engine.cpp.
--   LastBits    `allLastBitsReceived` of ejfat_assemble_ersap_et.hpp.
--   EtAssemble  `getBuffers` of that file: `step` is the work on one packet, `run` the two outer loops;
--               Inner has the inner loop, Maps the `std::map`s. Keys, Invariant, Written, Turns, Drains,
--               Packets, Opened, Steps, Safety, Erased, Finishes and InOrder are the
--               proofs.
--   Config      `split`, `trim` and the fields of a line. Number has `strtol` with errno; Packetizer,
--               Assembler and Sources are `parseConfigFile` of ejfat_packetize_engine.cpp,
--               ejfat_assemble_engine.cpp and ejfat_assemble_et_engine.cpp; Sources has `process` of the
--               last one too, and Sources.Handles its constructor and destructor.
--   Services    ejfat/services/src/main/cpp: Configure has what the three services read from JSON,
--               Packetizer `execute` of ejfat_packetize_service.cpp and the engine's `process`,
--               Assembler `execute` of ejfat_assemble_service.cpp and Assembler.Ports
--               the sockets of its calls, Sources the rest of `configure` of
--               ejfat_assemble_et_service.cpp; Sources.Lives has its destructor and the engine that it
--               makes, and Sources.Leaks the proofs. RoundTrip and Delivery are the proofs on the
--               packetizer service with the receiver. ByteBuffer is that of
--               ejfat/data/src/main/cpp/clas_ejfat_data_type.hpp.
--   Output      `printBytes`, `printFileBytes` and `writeBuffer` of ejfat_assemble_ersap.hpp.
--   EndToEnd    the sender's datagrams into the receiver.
--
-- State is passed on explicitly: `Sender`, `Locals`, `Shared` and `Growing` hold the variables of the
-- functions, and a call by reference returns the new value. The system is a list of answers: what each
-- `sendmsg` says, and for each read the datagram, or an error, and whether `malloc` succeeds. The
-- loops recur on that list, one answer a round, and a call that has used it up is `waiting`. The loop
-- of `getBuffer` has fuel, one more than the answers, and every call takes one at least. Machine
-- integers are natural numbers with their wrap-around written out. `malloc`, the ioctl of `getMTU`,
-- `strtol`, `atoi`, `zmq_connect`, the JSON functions of ERSAP and the ET library are parameters. For
-- `getBuffers` each packet brings what the ET library answers: the new entry, if it can be had, and
-- whether there is a buffer for the id. The early packets of `getBuffers` are read after their vector is
-- freed; what such a read gives is a parameter too, and may be undefined behaviour. The inner loop of
-- `getBuffers` has fuel, one more than the early packets, and every turn but the first takes one of
-- them. An ET entry is taken to keep its contents once it is put back.
--
-- The handles of the process (sockets, ET systems and fifos) are a list: a call that opens one puts it in
-- front, and a close takes one out. What a constructor does not set is a parameter of it.
--
-- The socket of `getBuffer` is in Services.Assembler.Ports; what a new socket on a port gets is a
-- parameter there.
--
-- Not modelled: the debug output but for `printBytes` and `printFileBytes`, the delay between sends, the
-- socket of `sendBuffer`, which it closes, the functions of the services that return a constant or
-- nothing, and the Java code. They are input and output, or need libraries that are not in the repository.
pub mod Base
pub mod Wire
pub mod Packetize
pub mod Assemble
pub mod EndToEnd
pub mod Plain
pub mod LastBits
pub mod EtAssemble
pub mod Services
pub mod Config
pub mod Output
