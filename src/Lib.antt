-- ===== src/Lib.antt =====
-- The camera HAL for Rockchip image processors: capture requests on their way to the hardware,
-- their results on the way to the client, and the shared parts under common/ that carry them. Paths
-- are from the repository's root.
--
-- Parts and files. Each file opens with the source that it is about.
--
-- Base, Base/Tests, Base/Lists, Base/Signed: what the other files share. Numbers are natural
-- numbers, and an `int` that can be negative is a `ℤ`. A difference of unsigned numbers is written
-- so that it is not cut off at 0, or is not written.
--
-- Status: the status_t codes.
--
-- Pool/Items: ItemPool of common/ItemPool.h (init, deInit, acquireItem, releaseItem as init,
-- de_init, acquire_item, release_item). The address of the array that init allocates is an
-- argument. The lock makes each operation one step. Pool/Items/Owned: who holds the items.
-- Pool/Shared: SharedItemPool of common/SharedItemPool.cpp and .h, with the shared pointers of
-- clients as counts of references (`use_shared`); Pool/Shared/History holds proofs.
--
-- Results: ResultProcessor of AAL/ResultProcessor.cpp and .h. The message thread runs alone, so
-- that a history is a list of messages. Results/State holds RequestState_t, the members of
-- ResultProcessor and the map mRequestsInTransit (its values in the order of their keys);
-- Results/Returns the functions that tell the client (returnShutterDone, returnPendingBuffers,
-- returnPendingPartials, returnResult, processCaptureResult with returnRequestError,
-- recycleRequest); Results/Handlers the handlers and the switch of messageThreadLoop, `handle`. The
-- callbacks, the calls of RequestThread::returnRequest and of decOutBuffersInHal are entries of
-- `log`, newest first. A read of a missing key, of an empty vector or through nullptr is `fault`.
-- The status that `handle` returns is what the loop replies to the sender. A handler takes the
-- struct behind a RequestState_t * out of the map, threads it through its calls and writes it back
-- before the map is read again. The flag mError of a request, which other threads set, is a
-- function of the request's id that may change between messages. The other files of Results hold
-- proofs: Transit on the map, Accounts with the invariant, Deliver, Recycle, Invariant, Metadata
-- and Register on the handlers, Reach on histories, Guarantees, Errors and Exit.
--
-- Capture: the way of a request into the HAL. Capture/Stream: CameraStream of AAL/CameraStream.cpp
-- and .h, with a `Heap` of what stands at an address, since a camera3_stream_t and its CameraStream
-- point to one another and many parts hold them. Capture/Request: Camera3Request of
-- AAL/Camera3Request.cpp and .h (init, deInit, the checks, the queries) and CameraBuffer::init of
-- psl/rkisp1/CameraBuffer.cpp; a call through nullptr is the outcome `crashed`. Its children Order,
-- Counts and Outcomes hold proofs. Capture/Thread with its children Loop and Configure:
-- RequestThread of AAL/RequestThread.cpp and .h (handleProcessCaptureRequest, captureRequest,
-- recycleRequest, waitRequestsDrain, handleReturnRequest, the exit message, handleConfigureStreams,
-- deleteStreams). What the hardware, ResultProcessor::registerRequest, a stream's producer, a wait
-- on a fence, the buffer manager and initPartialResultBuffers answer is the record `Answers`; a
-- fence that a wait of 0 saw is not active any more, and fences do not change by themselves within
-- a handler. The flag mFlushing is kept, though nothing sets it. The other children, and those of
-- Configure, hold proofs: Accounts, Recycle, Fences and Held on the helpers, Books with the
-- invariant, Process, Replies and Return on the handlers, Blocking and Told on callers that are
-- blocked. Capture/Hal: Camera3HAL::configure_streams of AAL/Camera3HAL.cpp, which calls
-- RequestThread. Results/State keeps its own, smaller view of a request.
--
-- Poller: PollerThread of common/PollerThread.cpp and .h and V4L2DeviceBase::pollDevices of
-- common/v4l2dev/v4l2devicebase.cpp. The loop of handlePollRequest takes the answers of its rounds
-- as a list, and has no result where the list ends before the loop does. Poller/Outcomes holds
-- proofs.
--
-- Post: the post-processing pipeline of psl/rkisp1/workers/PostProcessPipeline.cpp and .h.
-- Post/Unit: PostProcessUnit. A buffer is the address of its CameraBuffer with the id of its
-- request, and settings are the id of theirs; what processFrame, the internal pool, a fence and the
-- listeners answer is the record `UnitAnswers`, and `notices` holds the calls of notifyListeners.
-- The rounds of the unit's thread and the calls of its clients are steps (`unit_event`), since both
-- share no more than the queues. A wait of the thread for a frame is the result none. start and
-- stop change the flag of the thread only, and drain's loop is its condition, `is_drained`, without
-- the time that it takes. Its children Deliver, Skipped and Forward hold proofs. Post/Sync:
-- OutputBuffersHandler, which keeps its items and the map to them by address; a call of
-- notifyNewFrame is one step. Its child Together holds proofs. Post/Pipeline: handleProcessFrame
-- and addOutputBuffer of PostProcessPipeLine on the units, which go by address; its children Given,
-- Outputs, Outcome and Heard hold proofs. Post/Types and Post/Links: prepare_internal, in which
-- Post/Types says what units the streams need and Post/Links how they are linked. A set of process
-- types is the list of its shifts, and a unit's address is the number of units made before it;
-- unit->prepare, which allocates buffers, is left out. Where there is no stream, which the code
-- reads the first of, there is no result. Its children Served, Prepared, Complete and Frames hold
-- proofs.
--
-- Gcss: the tree of settings of common/gcss/gcss_item.cpp and .h, with the loop of parseFormats of
-- gcss_formats.cpp (`nodes_by_index`, whose fuel is two rounds more than a node has items). A node
-- is the list of its items in the order of the multimap; find answers the first of several items
-- under one key. The map from names to keys is an argument. The children Copy, Values, Paths,
-- Strings and Enumerate hold proofs.
--
-- Messages: MessageQueue of common/MessageQueue.h and .cpp (send, receive, reply, remove). Each is
-- the step that it makes under its lock; a caller that blocks is the result `waits`, and `woken` is
-- the test of its loop. Messages/Order and Messages/Reply hold proofs.
--
-- Window: CameraWindow of common/CameraWindow.h and .cpp. Window/Clip holds proofs.
--
-- PixelFormat: common/Camera3V4l2Format.cpp, the table of formats, with all formats that the
-- kernel's headers may leave out. PixelFormat/Sizes holds proofs.
--
-- Video/Format: V4L2Format of common/v4l2dev/v4l2videonode.cpp; Video/Format/Access holds proofs.
-- Video/Buffer: V4L2Buffer of common/v4l2dev/v4l2videonode.cpp. Video/Node with its children
-- Formats, Pools and Present: V4L2VideoNode of the same file with V4L2DeviceBase::open and close,
-- its states, formats, streaming, and its buffer pools. What an ioctl returns is an argument of the
-- operation, with the buffer that the driver fills in; the driver is any function.
-- Video/Node/States has one `run` for the operations that change a node; Video/Node/History,
-- Video/Node/Shown and Video/Buffer/Accessors hold proofs. The test of two pixel formats for
-- equality is an argument of set_buffer_pool_addresses.
--
-- Tests: runs on concrete inputs.
--
-- How the parts meet. ResultProcessor takes its states from an ItemPool of 10 and gives them back,
-- and its invariant uses what Pool/Items/Owned shows of the pool; RequestThread does the same with
-- its pool of requests, initialises each as Camera3Request does, and sends it through the streams.
-- Its thread takes messages from a MessageQueue. A video node keeps its formats by means of
-- PixelFormat and its buffers as V4L2Buffer.
--
-- Bounds and fuel. `return_stored_partials` takes fuel, since its loop has no bound of its own; in
-- the states that keep the accounts no request is stored, and one round is enough. `recycle_all`,
-- the loop of handleMessageExit, takes one more than the number of requests in transit, since each
-- round recycles one. All else is structural. No overflow of an `int` is modelled, but for the
-- frame counter of a node, which wraps at 32 bits and is masked.
--
-- What a history may hold. A message is orderly when a request that is registered for the first
-- time has had no event, has as many buffers as `total` says and `partials` result buffers, when no
-- stored metadata of the request must wait for the request before it, and, where the settings serve
-- as metadata, when they are there and need not wait. The exit message is treated apart.
--
-- Not modelled: RequestThread::flush; the rest of Camera3HAL; the allocation of the result buffers
-- of Camera3Request; MessageThread; V4L2VideoNode::setFormat, getFormat, exportFrame, the
-- enumerations and cropping, and subdevices; setValue of a node, which goes through the attribute
-- options of graph_query_manager.cpp, and the rest of the graph configuration, which reads XML;
-- everything under psl/ but CameraBuffer::init, PostProcessUnit and the parts of
-- PostProcessPipeLine named above, since the rest drives hardware through closed libraries; the
-- platform's XML profiles; JPEG, EXIF and image processing; logs. CameraWindow::scale multiplies by
-- floats and is left out.
pub mod Base
pub mod Status
pub mod Pool
pub mod Post
pub mod Results
pub mod Window
pub mod Messages
pub mod Video
pub mod PixelFormat
pub mod Tests
pub mod Capture
pub mod Poller
pub mod Gcss
