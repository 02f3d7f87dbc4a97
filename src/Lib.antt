-- ===== src/Lib.antt =====
-- CloudNVR: a cloud server that keeps sites, cameras, agents and recordings, and agents that record
-- the cameras of a site and reach the server by polling it.
--
-- The server queues work for the agents in three brokers. A viewer's request for a recording waits
-- in the playback broker until the agent of the site takes it and uploads the file into a cache; a
-- command that moves a camera waits in the PTZ broker; a viewer's WHEP request waits in the WebRTC
-- broker. The server's tables hold sites, agents, cameras, recordings, pairing tokens and device
-- sessions. An agent guards its recordings directory by an identity and a reserve of free space,
-- runs one FFmpeg worker for each camera and purpose, and reports its recordings to the server.
--
-- Which file models which part (paths from the repository's root):
--   Playback/Cache, Playback/Broker   internal/cloud/playback_broker.go: playbackBroker as the record
--     Broker, with the cache directory in it; prepare, status, next, request, requeue, ready (here
--     set_ready), fail, cleanupLocked (cleanup) and enforceCacheLimitLocked (enforce_cache_limit).
--   Playback/Upload                   uploadRequestedRecording and rejectRequestedRecording of
--     internal/cloud/recording_handlers.go, after the broker's `request`.
--   Ptz                               internal/cloud/ptz_broker.go: ptzBroker as PtzBroker; enqueue,
--     resolve, abandon, next. A result channel is a number; a step is none where Go would block
--     under the mutex or panic.
--   Signaling                         internal/cloud/webrtc_broker.go: webRTCBroker as WebRtcBroker;
--     exchange as open_exchange and give_up, next, resolve, cleanupLocked (cleanup).
--   Media/Storage                     internal/media/storage.go: EnsureRecordingStorage,
--     RecordingStorageStats, EnforceMinimumFreeSpace.
--   Media/Workers                     internal/media/relay.go and recording.go: the two managers, which
--     share their code, and restartDelay with the loop that waits for it.
--   Store                             internal/store/store.go: a table is a list of rows and a
--     statement a function on it; Recordings, Enrollment, Devices, Cameras after their tables.
--   Sync                              syncAgentRecordings of internal/cloud/recording_handlers.go, and
--     the loops of cmd/agent/main.go that make its reports (Sync/Agent).
--   Server/Cookie, Server/Access      internal/cloud/server.go and agent_handlers.go: the admin and
--     agent middleware, sessions and mediaAuth of media_handlers.go with its signed cookie.
--   Server/Live                       cameraStream of internal/cloud/media_handlers.go and agentWebRTC:
--     a viewer's stream comes from the media server or through the broker of Signaling.
--   Server/Cameras, Server/Commands   createCamera, updateCamera and the policy handlers of server.go;
--     controlPTZ and completePTZCommand of ptz_handlers.go, before and after the broker of Ptz.
--   Server/Pairing                    internal/cloud/mobile_handlers.go: the pairing of a device.
--   Server/Sites                      createSite and resetEnrollmentToken of server.go, enrollAgent and
--     heartbeat of agent_handlers.go.
--   Agent/Client, Agent/Playback      UploadPlayback of internal/agent/client.go and its caller
--     servePlaybackRequest of cmd/agent/main.go.
--   Agent/Media, Agent/Proxy          reconcileMedia over the managers of Media/Workers, and
--     proxyLocalWebRTC that answers the requests of Signaling.
--   Agent/Inventory                   runInventorySync: what the agent remembers of its inventory, over
--     the reports of Sync/Agent.
--   Agent/Onvif, Agent/Dispatch       internal/onvif/ptz.go: the calls that move a camera, and the
--     commands of Ptz for which the agent makes them.
--   Media/Segments                    internal/media/recording.go: staged segments, their metadata and
--     checksum files, and ScanRecordings.
--   Cloud                             the loops of cmd/cloud/main.go over cameras and recordings.
--   Config                            internal/config/config.go: CloudFromEnv and AgentFromEnv.
--   Domain                            internal/domain/domain.go: the modes and their validation.
--   Base                              what the modules share: tests, lists, maps, sorting, time, text.
--
-- How it is modelled. A method that holds a mutex from start to end is one step on its state, and
-- it reads the clock as one instant; the waits between two such stretches are separate steps, so
-- that every interleaving is a sequence of steps. Time is a natural number of nanoseconds, and a
-- test `now.Sub(t) > d` is `t + d < now`. A Go map is an association list; the theorems hold for
-- every order of its entries. Sizes of files are unbounded numbers, but the sums that Go takes in
-- 64 bits without a check wrap around (u64 in Media/Storage/Space). Calls of the operating system,
-- of the database and of random sources come with their outcome as an argument; the functions of
-- net/url, path/filepath, strconv, unicode, time and crypto that the program uses are fields of
-- records of parameters, and what is relied on of them is a named hypothesis.
-- Recursion is structural but for the paging of reports in Sync/Agent, which has fuel: a page takes
-- at least one recording, so that as many rounds as there are recordings are enough.
--
-- Not modelled: HTTP routing, JSON, XML, the proxies, the handlers of exports and of viewers of
-- recordings, the lists for viewers, FFmpeg, the requests of the agent other than uploads with
-- their rate limit, encryption and hashing, migrations, failures of the file system while staged
-- segments are organized, and errors of the database other than those that are arguments.
-- The delays between uploads do not overflow in the model; the configuration allows twenty attempts.
-- Instants before 1970, clocks that step back between two calls and wrap around of durations do not
-- occur in the model, save that each call may name any instant. MySQL's answer to a row that
-- clashes with two others at once is taken to be the update of the first. In a statement of SQL two
-- texts are equal only if they are the same; the collation of the deployment ignores the case of
-- letters, so the theorems about the store are for ids, keys and tokens that do not differ in it alone.
pub mod Base
pub mod Agent
pub mod Cloud
pub mod Config
pub mod Domain
pub mod Media
pub mod Playback
pub mod Ptz
pub mod Server
pub mod Signaling
pub mod Store
pub mod Sync
