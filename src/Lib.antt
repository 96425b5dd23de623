-- ===== src/Lib.antt =====
-- The RPI-CAM application (rpi_cam_app): a network camera that captures frames with V4L2, hands
-- them to event programs, records video clips, is controlled over HTTP, and streams the camera
-- and recorded files over RTSP.
--
-- The parts and how they meet. The capture thread pushes frames into the video queue; six
-- threads distribute copies of them to the registered events; each event thread waits in pop
-- for the next copy. The HTTP daemon takes uploads of event programs, starts and stops them,
-- and answers event requests with the clip of the event. Each RTSP session chooses a handler by
-- its first request: the one multicast stream of the camera, which is fed from the video queue
-- like an event, or a stream of a recorded file.
--
-- - Base: Boolean tests, lists, decimal print, dictionaries (std::unordered_map, whose
--   iteration order the language leaves open, here from the latest entry on), outcomes (a
--   value, or the fault that undefined behaviour or an uncaught exception is), integers, texts
--   with stoi and strtoll.
-- - Config: the readers of rpi_cam_app/src/config over a property tree (Tree). Camera is
--   CameraConfig, Server is HttpConfig, Recording is VideoConfig, Events is EventConfig,
--   Program the getters of ProgramConfig.
-- - Event: rpi_cam_app/src/event. Processor is the constructor, event_init and event_exec of
--   EventProcessor, Loop its event_loop, Handler is EventHandler and EventInitializer; an
--   EventProcessor* is a position in a list of objects, where a deleted one is none. Lifetime
--   and Initializer hold the theorems on these objects, Served the way from the files of an
--   upload to the frames of its event, Thread what the thread of an event reports to the server
--   while other threads use the queue; a loaded program answers by the number of its earlier
--   calls, and so may keep state.
-- - VideoQueue: rpi_cam_app/src/camera_device/VideoQueue.cpp. A ThreadInfo* is a number into a
--   shared memory infos, since insert_event overwrites the caller's rate by the divisor. Each
--   critical section is one function: insert_event, remove_event, push, pop up to its first
--   wait, pop_wake (a wake-up), and one turn of distribute_buffer. Abstract is the view of the
--   queue as functions from names. Registry, Distribution, Delivery, Rates, Service, Waiting,
--   Departure, Cases, History, Traffic, Fifo, Serving, Progress, Liveness, PopRefines,
--   EventRefines and Refinement hold the theorems; a history is a list of critical sections in
--   any order.
-- - Camera: rpi_cam_app/src/camera_device/CameraInitializer.cpp: the set-up, the capture loop
--   over a list of Rounds (what the kernel answers in each), start and stop. Frames holds the
--   theorems on the frames that reach the video queue.
-- - Video: rpi_cam_app/src/video/VideoHandler.cpp. Lookup is get_video, Clips is set_filename,
--   process_video and remove_video, Selection, Ascending, Sorting and Directory hold the
--   theorems on the files they choose. Recorder is VideoStreamerGST.cpp and
--   GstreamerCallbacks.cpp, Copying the loop of its need_data, Initializer the thread of
--   VideoInitializer.cpp, Recording and Media hold its theorems.
-- - Http: the handlers of rpi_cam_app/src/http. Upload is program_accept, Control is
--   program_start_accept and program_stop_accept, Event is event_accept over process_video,
--   Dispatch is libmicrohttpd_handler, Complete is post_request_complete. The answers of
--   libmicrohttpd to a completion are an Env of its own: it refuses to queue a response there.
--   Sender is the requests sent with libcurl, Start is HttpInitializer. Slots, Storage,
--   Refused, Pieces and Answers hold the theorems.
-- - Rtsp: rpi_cam_app/src/rtsp. Session is the opening of a session and read of RTSPSessionImpl
--   (Target what it cuts out of texts), over a record of operations that a handler has;
--   Lifecycle is its run over a list of Receptions (what the library reads from the socket),
--   its destruction, and handle_session of RTSPListener; Listener is its acceptor, where each
--   connection has a thread of its own and a history is a list of accepted connections and of
--   what the threads read. File and Playing are RTSPSessionHandlerGstFile, where a GStreamer
--   object is the number of its references; Live is MulticastStreamV4L2 and
--   RTSPSessionHandlerGstLive with the part of VideoInitializer that starts them; Feed is the
--   callbacks that take frames from the video queue; Pads is the linking of a file's streams;
--   Sdp is what the DESCRIBE pipelines learn and the message they make. Streaming fills the
--   record of operations with the two handlers. Requests, Ending, Listening, Quiet, Crowd,
--   Description, Cached, First, Ownership, Broadcast, Startup, Clock and Connections hold the
--   theorems.
-- - Program: rpi_cam_app/src/main.cpp with rpi_cam_app/include/utils/Singleton.hpp: the parts
--   in the order in which main starts them, up to the accepting of connections, and the thread
--   of the camera. What the other threads do meanwhile is a list of critical sections of the
--   video queue. Start, Frames and Uploads hold the theorems, the last one on the way from the
--   upload of a program to its thread.
--
-- No function runs on fuel: loops are recursion on the lists they walk (what a wait receives,
-- what the other side answers in each round), and the decimal print is recursion on Acc. Rates,
-- sizes and times are natural numbers except where the code reads signed integers from text,
-- which are integers with the bounds of int and of long long written out: a signed overflow is
-- a fault, the conversion of a time_t to an int wraps around.
--
-- Third-party code is a parameter: Env holds what libmicrohttpd and the allocator answer in a
-- call, FileEnv and Boot what the file system answers, Curl what libcurl does, Loader what
-- dlopen finds, Device and Round what the kernel answers (the mappings of the buffers among
-- it), Gst, FileEnv of Rtsp.File, LiveEnv, FeedEnv and Structure what GStreamer answers,
-- AcceptorCalls what Boost.Asio answers, Library what the RTSP library computes, Machine all
-- that main is given, and a list of Part what the multipart parser reports. The wait of PLAY
-- for its first packet reads a flag without synchronisation: whether the compiler has left that
-- loop in is a field of FileEnv of Rtsp.File (rereads). Not modelled: the exceptions of
-- remote_endpoint in the answers of a session, of a configuration that cannot be parsed and of
-- the listing of a directory that is missing, the orders of a directory's listing other than
-- one in the files of an upload; the construction of the GStreamer pipelines but for its
-- failures, the thread that watches the bus after a SETUP, the sockets of the RTSP listener,
-- spdlog, log output, threads and mutexes below the level of critical sections.
pub mod Base
pub mod Config
pub mod VideoQueue
pub mod Camera
pub mod Video
pub mod Event
pub mod Http
pub mod Rtsp
pub mod Program
