-- ===== src/Lib.antt =====
-- A model of a distributed key-value store, with what makes it correct.
--
-- The program. Servers (src/app_kvServer/KVServer.java) stand on a ring of MD5 positions, and each
-- keeps the pairs whose key hashes into its range in a JSON file (src/storage/KVStorage.java). The
-- configuration service (src/app_kvECS/ECSClient.java) computes the metadata, a map from a server's
-- address to its range, and sends it to the servers with commands that start, stop and lock them and
-- that move data between them. Clients (src/client/KVStore.java) search the metadata for the server
-- in charge of a key. All of them talk through src/shared/comm/CommModule.java, which agrees on a key,
-- encrypts, and answers what a server is asked. A server publishes its changes through a message
-- broker (src/app_kvServer/Publisher.java).
--
-- The files.
--   Base       texts as lists of UTF-16 code units, dictionaries with one entry for each key, Boolean
--              tests, integers, exceptions. An `Effect S A` is a method that changes a state `S` as far
--              as it comes, and then throws or returns.
--   Radix      how BigInteger prints and reads numbers, and Integer.parseInt for ports and counts.
--              Decimal: what the digits of a printed number come to.
--   Ring       Range: a range as text, and the range test that inRange, moveData and connectCorrServer
--              share. Metadata: calc_metadata and the search of connectCorrServer. Sorting, Addresses,
--              Assignment, Coverage, Overlap and Routing prove what the metadata comes to; Circle
--              compares the range test with distances on the circle.
--   Storage    KVStorage. json-simple is a parameter, `JsonSimple`. The state holds what the next
--              writes of the file come to: written, not opened, or cut off in between.
--   Server     KVServer's state and operations. Server/Transfer: moveData, with the list dataToFlush.
--   Messages   KVMsg, KVAdminMsg and the status types. Network: what a program sees of the others.
--   Comm       Serve: CommModule.serve. Admin: adminServe. Modular: fastModExp. KeyExchange:
--              sendSecret and setKey. Secure: sendMsg, sendAdminMsg and receiveMsg, over a parameter
--              `Crypto` for serialization, the cipher and the digests.
--   Client     KVStore: put, get and connectCorrServer, over a Network. The loop runs on fuel;
--              Client/Rounds and Client/Retries are about how much of it a client needs, over an
--              interface, `Cluster`.
--   Cluster    machines together. Peer: a server that moves data to another server which answers by
--              serve. Service: the configuration service and the servers that answer it by adminServe,
--              and clients by serve; Changes is about a table of machines. Serving and Requests: the
--              servers of a ring as such a `Cluster` of Client/Rounds. Outcomes: a client's put and get.
--              RoundTrip: a get after a put.
--   Ecs        ECSClient over a parameter `EcsWorld`: the network, the script that starts a server,
--              Random and ZooKeeper. Ecs: start, stop, awaitNodes and getNodeByKey. Shutting: shutdown
--              and shutdown_server. Adding: addNode and UpdateAllNodesMeta. Removing: removeNode.
--              Commands: handleCommand. Known and the two files Conservation are about the servers
--              that it knows.
--   Mqtt       the MQTT client for browsers in the broker's distribution,
--              apache-activemq-5.15.14/examples/mqtt/websocket/js/mqttws31.js. Faults: what it throws.
--              Length: encodeMBI and its inverse. Utf8: UTF8Length, stringToUTF8, parseUTF8. Message:
--              Messaging.Message. Wire: WireMessage, with Wire/Encode for encode and Wire/Decode for
--              decodeMessage. Client: the state of ClientImpl; Client/Storing has store, restore and
--              the constructor, Client/Requests what the application calls, Client/Sending the queue,
--              the identifiers and _disconnected, Client/Welcome and Client/Receiving the packets of
--              the broker, Client/Timers the pingers and the errors of the socket. Client/Steps is
--              the transition system of all of these; Sound, Handling, Packets and Calls show what
--              each operation keeps, Closing, Identifiers and Persistence are about lost connections,
--              identifiers and the local storage. Client/Trace is the trace buffer by itself, and
--              Interface has the checks of Messaging.Client in front of ClientImpl. Receiver is the
--              contract of the qualities of service, Refinement and ExactlyOnce relate the client to
--              it.
--   Stomp      the STOMP client for browsers in the broker's distribution,
--              apache-activemq-5.15.14/examples/stomp/websocket/js/stomp.js. Frame: frames as text.
--              Parse: the frames in a text. Client: the operations that send frames; the loop of
--              _transmit runs on fuel, one more than the length of the text, of which every round
--              sends a part. Pieces: what it sends. Session: what comes in, and the heartbeats. Lines,
--              Headers, Marshalled and RoundTrip are about what is read of what was written.
--   Tokens     lines of a console as tokens; Words: lines that are words with one space between two.
--   Shell      KVClient's commands, over a parameter that tells which hosts are unknown. Puts: what a
--              put of several words sends.
--   Amq        the client of the AJAX servlet in the broker's distribution,
--              apache-activemq-5.15.14/webapps-demo/demo/js/amq.js. Amq: the state, and what is sent;
--              Polling: the polls and what they bring. Splitting and Batches are about the queue,
--              Stalled about a request that failed, Polling/Frames and Polling/Delivery about polls.
--   Checks     the theorems at concrete inputs.
--
-- How code and model correspond. A null is `none`; an exception is a `throw`, in the state that the
-- method has reached. MD5 is a parameter, a function from texts to numbers. The order in which a
-- HashMap is visited is a parameter (`HashOrder`), of which only is known that it visits every entry
-- and nothing else. A Java int that is a port or a secret is a natural number. The loop of fastModExp
-- runs on fuel, one more than the exponent, which each round makes smaller; printing a number runs on
-- fuel in the same way. The loop of awaitNodes runs as often as the world says it does before the time is
-- over. encodeMBI writes four bytes at most, as in the code; the loop of parseUTF8 runs
-- on the number of bytes to read, since every round reads one at least; the search for a free identifier
-- runs on fuel, one more than the number of messages that wait. Other loops follow lists.
--
-- In the MQTT client a method returns what it throws or returns with the state it has reached, and the
-- state has a log of what it did outside: packets sent, sockets opened and closed, functions of the
-- application called. The order of `for … in` over _sentMessages is a parameter.
--
-- Not modelled: the threads and sockets of KVServer.run and CommModule.run, what KVServer.run does when
-- its loop has ended after a SHUTDOWN (it clears the storage and exits), the cache (the program has
-- none), logging, ZooKeeper, the subscriber of the client, a negative port in its command connect, and
-- of ECSClient its constructor, the
-- methods addNodes and removeNodes, which no command calls, and a failure to close a connection. Two requests to one server do not overlap in the model:
-- the methods of KVStorage are synchronized, serve as a whole is not. Of the MQTT client: getTraceLog and
-- what each method traces, the texts of the errors, typed arrays other than Uint8Array, a port that
-- is no natural number behind the checks that let it pass, how the settings of connect become its options, functions of the application that call
-- the client back before they return, and a localStorage or a WebSocket constructor that throws. Of the
-- STOMP client: debug, and functions of the application that call the client back. Of the AJAX client:
-- such functions, too, timeouts that are no whole number of seconds, and names of handlers that every
-- JavaScript object has. A handler there is a test whether it returns or throws.
pub mod Base
pub mod Radix
pub mod Ring
pub mod Messages
pub mod Network
pub mod Storage
pub mod Server
pub mod Comm
pub mod Client
pub mod Cluster
pub mod Mqtt
pub mod Stomp
pub mod Amq
pub mod Ecs
pub mod Tokens
pub mod Shell
mod Checks
