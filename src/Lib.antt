-- ===== src/Lib.antt =====
-- The MQSS integration framework: a messaging library with pluggable transports and codecs, and an
-- offload service and a workflow built on it.
--
-- The library (include/mqss, src/transport). A transport sends and receives envelopes at named
-- addresses; a codec turns typed values into envelopes; a messenger puts a codec on a transport.
--   Mqss/StatusCode, Mqss/Status      include/mqss/Status.hpp: StatusCode, Status, Result
--   Mqss/Message                      include/mqss/Message.hpp: Address, Envelope, Message, ack, nack
--   Mqss/Transport, Mqss/Features     include/mqss/transport/Transport.hpp
--   Mqss/InMemory and below           src/transport/InMemoryTransport.cpp
--   Mqss/Codec                        include/mqss/protocol/Codec.hpp and ProtoCodec.hpp
--   Mqss/Messenger, Mqss/TypedDelivery  include/mqss/Messenger.hpp, and over the in-memory transport
--   Mqss/Consumer                     examples/mqss_consumer/main.cpp
--   Mqss/Rabbit and below             src/transport/RabbitMqSimpleTransport.cpp and
--                                     include/mqss/transport/RabbitMqSimpleTransport.hpp
--   Mqss/Config and below             include/mqss/Config.hpp
--
-- The offload service (examples/qoffload_service). Three workers share a task store and a forwarder:
-- one forwards the tasks of clients to QRM, one answers control requests in a REST or a typed form,
-- and one gives the results of QRM back to clients or stores them for control clients.
--   Qoffload/Config, Defaults,        examples/qoffload_service/include/qoffload/Config.hpp
--   Qoffload/Environment
--   Qoffload/Proto, Qoffload/Double   protocol/proto/v1/messages.proto
--   Qoffload/TaskStore and below      examples/qoffload_service/include/qoffload/TaskStore.hpp,
--                                     examples/qoffload_service/src/TaskStore.cpp
--   Qoffload/ResourceRegistry         examples/qoffload_service/include/qoffload/ResourceRegistry.hpp
--   Qoffload/Forward and below        examples/qoffload_service/include/qoffload/Forward.hpp,
--                                     examples/qoffload_service/src/Forward.cpp
--   Qoffload/Protocol                 examples/qoffload_service/src/control/ControlProtocol.hpp
--   Qoffload/Path, Decimal, Rest      examples/qoffload_service/src/control/RestControlProtocol.cpp
--   Qoffload/Typed                    examples/qoffload_service/src/control/TypedControlProtocol.cpp
--   Qoffload/Control and below        examples/qoffload_service/include/qoffload/Control.hpp,
--                                     examples/qoffload_service/src/Control.cpp
--   Qoffload/Service and below        examples/qoffload_service/include/qoffload/QOffload.hpp,
--                                     examples/qoffload_service/src/QOffload.cpp, a round at a time
--   Qoffload/Threads and below        the same, with Forward.cpp and Control.cpp an access at a time
--   Qoffload/Logger, Qoffload/Main    examples/qoffload_service/include/qoffload/Logger.hpp,
--                                     examples/qoffload_service/src/main.cpp
--
-- The workflow (examples/qrm_workflow). Four processes on one broker: the daemon submits a task and waits
-- for its result, the scheduler hands tasks on, the compiler lowers their circuits to OpenQASM 2, and the
-- submitter runs them on a device and sends the result to the destination that the task names.
--   Qrm/Config and below              examples/qrm_workflow/include/Config.hpp and src/Config.cpp
--   Qrm/Scheduler, Qrm/Run            examples/qrm_workflow/src/Scheduler.cpp, and what the loops share
--   Qrm/GateDefs, Qrm/Compiler        examples/qrm_workflow/src/Compiler.cpp
--   Qrm/Device, Qrm/Submitter         examples/qrm_workflow/src/Submitter.cpp
--   Qrm/Lines                         the loops of std::getline in both
--   Qrm/Daemon and below              examples/qrm_workflow/src/Daemon.cpp
--   Qrm/Pipeline and below            the three loops on a broker
--   Qrm/Logger                        examples/qrm_workflow/include/Logger.hpp
--   Qrm/Processes and below           the functions main of the four processes
--   Qrm/Offload, Qrm/System           the offload service in front of the submitter, and of the workflow
-- Base, Dict and Words hold what these share: Booleans, lists, maps as association lists, and machine
-- words. The Tests modules hold runs at concrete inputs, on the inputs of the Fixtures modules.
--
-- State and steps. An object with fields is a record, and an operation is a function that returns the
-- new record with its result. What runs under a mutex is one function. While a receive of the
-- in-memory transport waits, a schedule says what happens: another thread sends, takes or stops, the
-- waiting thread is woken, or its timeout passes; a receive whose schedule is over still waits. The
-- round of a service worker is a function of what it received and of the statuses of its sends, and a
-- run is a list of rounds in the order in which they take effect. In Qoffload/Threads each worker has a
-- place in its loop instead, a turn makes one access to what the workers share, and a run is any
-- sequence of turns of the workers and of requests to stop them.
--
-- The service sends its tasks over one RabbitMQ connection and has another for everything else;
-- sent_over and received_over of Qoffload/Service say which. Qrm/System has a broker for each address
-- that a connection reaches.
--
-- Numbers. A task id is a 64-bit number and wraps there; an int32 is its bit pattern, and the
-- conversions are those of C++20. A double is an exact fraction with a power of two below, an infinity
-- or a NaN, so that the conversions of integers are exact; the integers converted stay below 2 ^ 53.
--
-- Fuel. split_parts runs on the characters of the path itself, of which each round uses up at least
-- one, and digits runs on the number plus one, of which each round leaves a tenth. Both are enough
-- for every input. A polling loop of the RabbitMQ transport runs on rounds of fuel; a loop that has not
-- ended with them is unfinished. Rabbit/Deadline and Rabbit/Shutdown say
-- how much fuel a receive needs.
--
-- Other programs. The protobuf runtime, the AMQP client, the broker of the workflow, MLIR, the QDMI
-- driver, the file system and the logging library are parameters, most of them records of operations on
-- a state of their own. What a proof relies on is a record of named hypotheses: RoundTrips, Keeps (a
-- message keeps what is set in it), Passes (a wait that brings nothing takes time), Stops (a transport is
-- stopped at last), IsFifo, Works (the driver's calls succeed). A call of the AMQP client returns or
-- throws. In the workflow, a failed assertion and an access out of range end the process.
--
-- Not modelled: signals, an exception that a worker of the service throws, logging but for the choice of
-- sinks and the errors that a round logs, the iteration order of hash maps, and a negative receive
-- timeout. examples/qrm_workflow/include/common.hpp is a copy of a header of another project, which
-- nothing includes.
pub mod Base
pub mod Dict
pub mod Words
pub mod Mqss
pub mod Qoffload
pub mod Qrm
