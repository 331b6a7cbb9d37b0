-- ===== src/Lib.antt =====
-- The drone audio sensor's backend: phones stream audio to a gateway, an inference worker scores it
-- and alerts the operators, and a publisher puts the alerts on a TAK map.
--
-- The parts and the files that model them:
--
-- Lifecycle.antt has the states of a device and the transitions that an administrator may make,
-- backend/gateway/src/gateway/state_machine.py. Lifecycle/Graph.antt is the diagram of its
-- docstring, Lifecycle/Mirror.antt the copy in backend/admin/src/admin/state_machine.py.
--
-- Gateway.antt models backend/gateway/src/gateway. Gateway/Store.antt has the documents, the hot
-- state and the messages; Gateway/Registry.antt is `DeviceRegistry`, Gateway/HotState.antt
-- `DeviceStateStore`, Gateway/Auth.antt `JwtAuth`, Gateway/Admission.antt the checks of a call's
-- start, Gateway/Session.antt the message loop of `StreamAudio` and Gateway/Stream.antt the whole
-- handler; Gateway/Stream/History.antt follows the cache of keys over the calls of a process. A
-- method takes the store that it finds and returns the one that it leaves.
--
-- Inference.antt models backend/inference/src/inference. Inference/Gate.antt is the detection gate,
-- Inference/Memory.antt `DetectionState` in Redis, Inference/Publisher.antt `DetectionPublisher`,
-- Inference/Worker.antt `_decode_payload` and `_handle_frame`, Inference/Worker/Watchdog.antt
-- `_watchdog_loop` and Inference/Stream.antt `FrameStreamConsumer`.
--
-- Tak.antt models backend/tak_publisher/src/tak_publisher. Tak/Dedup.antt is `_LruSet`,
-- Tak/Client.antt `TakClient`, Tak/Event.antt `build_event`, Tak/Bridge.antt the way of a message
-- from `_on_message` over the queue to `_handle`.
--
-- Egress.antt models backend/egress_publisher and backend/egress_receiver. Egress/Message.antt is
-- the callback of the subscription with `to_proto`, Egress/Forwarder.antt is `GrpcForwarder`,
-- Egress/Receiver.antt the receiver's statistics, and Egress/Link.antt has the steps of both over
-- one stream after the other.
--
-- Admin.antt models backend/admin/src/admin: the change of a state and the lists of detections of
-- firestore_repo.py; Admin/Devices.antt has its lists of devices and sites, Admin/Live.antt the
-- live states of redis_repo.py, Admin/ChangeState.antt `change_state` of server.py, and
-- Admin/Simulate.antt `api_simulate_phones` with the methods of both repositories that it calls.
--
-- Provision.antt models the commands of scripts/provision_device.py that write, with the tool's own
-- copy of the state machine.
--
-- AudioReceiver.antt models the counters of backend/audio_receiver/src/audio_receiver/main.py,
-- `_Stats`; AudioReceiver/Sink.antt is `_FirestoreSink`, and AudioReceiver/Servicer.antt has the
-- two servicers over both, as steps. One instance of the receiver writes the documents.
--
-- Argos.antt models the bridges to the Argos sensors. Argos/Locate.antt is `LocationResolver`,
-- Argos/Bridge.antt a session of a station and Argos/Retry.antt `replay_station`, all of
-- scripts/argos_bridge/bridge.py; Argos/Live.antt is `LiveSubscriber` of
-- scripts/argos_live_pull/subscriber.py, whose handlers take their steps in any order, and
-- Argos/Stations.antt has the names of the sensors on both sides.
--
-- Replay.antt models the load test of scripts/replay_fleet.py: Replay/Clip.antt the clip that is
-- played in a loop, Replay/Truth.antt its ground truth, Replay/Collector.antt the collector of
-- detections, and Replay/Session.antt `persistent_stream_session` with its queues.
--
-- Common.antt has Boolean tests, lists, texts, results, integers and decimal numbers over the
-- native numbers.
--
-- How they interact: the gateway reads a device's state from the registry, and forwards the audio
-- of an active device to a stream from which the worker takes its frames; the worker publishes a
-- detection to a topic, of which the TAK publisher and the egress publisher are subscribers.
--
-- What stands outside the source: PyJWT, libsndfile, the neural networks, the printing of floats,
-- their rounding to the 32 bits of a protobuf `float`, and XML are parameters. Firestore and Redis
-- are maps with the documented effect of the commands that are called: `set(merge=True)` writes the
-- keys of its payload, `SET EX` and `EXPIRE` set a time from which a key is missing, `LPUSH`,
-- `LTRIM`, `ZADD`, `ZREMRANGEBYSCORE` change a list or a set of scores. The answers of Pub/Sub,
-- which call of a message raises, clocks and new ids are inputs. Floats are an interface: the
-- gateway only passes them on, and the worker uses their order and sum, for which
-- Inference/Float.antt names the laws of IEEE arithmetic that a theorem needs. UTF-8 is a parameter
-- with the law that it decodes what it encoded.
--
-- Bounds: loops are recursion on the list of messages, frames, reads or tries, with no fuel, but
-- for the watchdog's, whose times are in nanoseconds, and the one that goes around a clip, which
-- run on fuel, with theorems that say how much is enough. A sequence number that a message carries
-- is a natural number, and -1 stands for none, as an integer. Numbers are printed by recursion on
-- accessibility, and read on ASCII digits.
--
-- Simplifications: lower-casing and stripping of texts are exact as far as ASCII letters and spaces
-- decide; the calls before the message loop, and the one that records its end, are taken to return,
-- and the read and the write of one handshake are taken together; the trimming of the frame stream
-- is Redis's; a publication whose wait times out counts as one that did not happen; of the TAK
-- server only the writer is seen, with what it was handed and what it drained; a write to Firestore
-- that raises has written nothing; the detections that Firestore holds are kept in the order in
-- which they were written; the producer of a bridge's session is not cancelled, and its messages
-- can be built; a count of the live subscriber goes up in one step.
--
-- A gRPC stream keeps the order of its messages in each direction, and may end at any time.
--
-- Not modelled: the start of the servers, the tokens of the egress channel, the admin service's
-- pages, the listing and the resampling of clips and the synthetic health of the Argos bridges, the
-- length of the delays between connections of the TAK client, TLS, the start of processes, logging
-- and the other scripts.
pub mod Common
pub mod Lifecycle
pub mod Gateway
pub mod Inference
pub mod Tak
pub mod Admin
pub mod Provision
pub mod AudioReceiver
pub mod Egress
pub mod Argos
pub mod Replay
