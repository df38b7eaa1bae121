-- ===== src/Lib.antt =====
-- The parts of the claims-processing programs that keep work from being lost, with what is proved of
-- them. A claim is put on a storage queue; a worker of the workflow service takes it, runs the claim
-- workflow, and deletes it, returns it or buries it. Inside a claim, every document goes through the
-- steps of the content pipeline, each with a queue of its own. Both parts, and the agents of the
-- workflow, call language models through a client that trims what it sends and retries, and take
-- their services from a container; the agents talk in a group chat that a coordinator leads. Documents
-- come in as uploads, whose names are cleaned, and are read by the schemas of a set. An HTTP client
-- serves the services.
--
-- Exec is the language of the methods: an action takes the object and gives an outcome, returned or
-- raised, beside the object as it was left. Calls to the outside are logged in the object with their
-- replies, and what replies is an argument, a function of the log and the call, so that a theorem for
-- every such function holds for every behaviour of the storage account, the database and the
-- workflow. Exec/Keeps has the rules for invariants of actions. Dict is the dictionary, and Base has
-- lists, texts and tests. A cancellation is an exception that `except Exception` does not catch.
--
-- QueueService: src/ContentProcessorWorkflow/src/services/queue_service.py.
--   Payload     parse_claim_task_parameters_from_queue_content, _build_task_param
--   State       QueueServiceConfig, ClaimProcessingQueueService, the calls and their log
--   Blobs       _storage_account_name, _cleanup_output_blobs
--   Finalise    _handle_successful_processing, _handle_failed_no_retry
--   Renew       _renew_visibility_loop
--   Process     _process_queue_message, _worker_loop
--   Control     start_service, stop_service, stop_process, stop_worker, _ensure_queues_exist
--   The other files prove: NoLoss that no message is lost, Tracking and Frame what a job leaves of
--   the inflight dictionaries, Survival what leaves a job, Branches, Malformed and Success the calls
--   of each way a message ends, RenewBound the renewals, PayloadLaws the payload, Shutdown the stops.
-- A job and its renewal task interleave at the job's wait for the workflow: the renewals are an
-- argument there, the list of their wake-up times, so the loop is by recursion on that list. The
-- worker's loop runs for the entries of a schedule. Several workers are several runs: a job changes
-- the entries of its own worker only. Times are whole seconds. The flag that the renewals test is not
-- written while they run.
--
-- Pipeline: src/ContentProcessor/src/libs/pipeline.
--   Status          entities/pipeline_status.py, pipeline_step_helper.py, pipeline_step_result.py
--   Handler         pipeline_queue_helper.py, entities/pipeline_data.py, pipeline_file.py
--   Handler/Process queue_handler_base.py, HandlerBase, with utils/base64_util.py
--   Status/Progress, Journey and Results prove how a document comes through the steps; Handler/Calls,
--   Failure, Poison and Safety what becomes of a message.
-- What a step does is a reply: its result or exception, and the document as the step leaves it. The
-- loop over the queue runs for a number of rounds, and ends before only by an exception. A write to
-- the database and the parsing of the creation time for it are one call, which may fail. A message that
-- leaves the queue does so by a deletion, or in a copy that is sent to another queue.
--
-- ClaimWorkflow: src/ContentProcessorWorkflow/src.
--   Repository      repositories/claim_processes.py and model/claim_process.py
--   Run             steps/claim_processor.py, ClaimProcessor.run
--   Ending and Documents prove what a run comes to and how documents are put into a claim.
-- The events of the workflow and the end of their stream are arguments; the loop is by recursion on
-- the events. The base repository is an interface, and a database that answers has the laws of
-- IsWorking.
--
-- ContentProcess: src/ContentProcessorWorkflow/src/services/content_process_service.py, through which
-- the workflow hands its documents to the pipeline.
--   ContentProcess  ContentProcessService with its clients, submit, the reads and poll_status
--   Backed, Resubmit and Polling (with Polling/Log for what the loop leaves in the log) prove what a
--   message on the queue finds, what a second submission does, and how the polling ends.
--   Seconds         the sums of seconds, which are Python's floats
-- The loop of poll_status has its rounds as an argument; poll_status-Polled shows that one for each half
-- of an interval in the timeout, and one more, are enough.
--
-- AppContext: src/ContentProcessorWorkflow/src/libs/application/application_context.py, from which the
-- worker, the executors and the workflow take their services.
--   AppContext      the registration and resolution of services
--   Lifecycle       ServiceScope, create_scope, the disposal of objects and shutdown_async
--   Clients says which code uses a container and what such code keeps; Kept and Singletons prove what
--   stays the same, and Scopes (with Order, Disposal and Failure) how scopes end.
-- Services are named by their type's name, and objects are numbers; what hasattr says of an object is
-- an argument. The error texts of the exceptions are shortened.
--
-- Upload: src/ContentProcessorAPI/app/utils/upload_validation.py.
--   Filename        sanitize_filename
--   Validation      validate_upload_for_processing, get_upload_size_bytes, sniff_mime_type_from_magic
--   Safety proves what the names are like that are let through, Acceptance what the uploads are like.
-- The reads put the position of the file back, which is left out.
--
-- ResponseClient: src/ContentProcessorWorkflow/src/libs/agent_framework/
-- azure_openai_response_retry.py.
--   Truncate        _truncate_text
--   Trim            ContextTrimConfig, the text and role of a message, _trim_messages
--   Errors          _looks_like_rate_limit and its kin
--   Stream          _inner_get_streaming_response
--   Budget and Attempts prove what the trimming keeps to and what the attempts come to.
-- A text is the list of its characters' codes. The loop that drops messages has the number of
-- messages as its fuel, which drop_oldest-ends shows to be enough; the attempts are counted down, as
-- in the source. Messages are values, so a second trimming starts from the messages as they came,
-- where the source has changed a `ChatMessage` in place. Delays are in thousandths of a second, with
-- the random part as an argument. A message is a dictionary or a `ChatMessage`; None and other objects
-- are left out.
--
-- GroupChat: src/ContentProcessorWorkflow/src/libs/agent_framework/groupchat_orchestrator.py.
--   GroupChat       GroupChatOrchestrator, _request_forced_termination
--   SignOffs        _validate_sign_offs
--   Respond         _extract_first_json_payload, _complete_agent_response
--   Tools           the tool calls, their streamed arguments and the usage
--   Stream          _handle_agent_update, run_stream
--   Frame has what an update leaves alone; Rounds, Loops and Gate prove the limits and the guards of a
--   run.
-- The events of the workflow are a list, each with the time since the start. The raw JSON decoder, the
-- case of texts and the reading of a selection are the parameter `Reading`, and json.loads is
-- another. A JSON value is its text. Not modelled: times, the build of a forced result, the result
-- generator, and the exceptions of a run.
--
-- SchemaVault: src/ContentProcessorAPI/app/routers/logics/schemasetvault.py and schemavault.py.
--   SchemaVault     the documents, the interface of a collection and its laws, the calls of the blobs
--   Sets, Schemas   the operations of SchemaSets and Schemas
--   Shelf is what the sets stand for; Refine and Listing prove that the operations keep to it, and
--   what a set lists.
-- The collections of the database are pymongo's, behind app/libs/azure/cosmos_db/helper.py: an
-- interface, whose laws are hypotheses; Tests has one of lists. The calls of the database succeed.
--
-- HttpClient: src/ContentProcessorWorkflow/src/utils/http_request.py.
--   HttpClient      _join_url, HttpResponse.header, _build_headers, request
--   Poll            poll_until_done
--   OAuth           OAuthClientCredentials
--   Accepted and Ends prove what a request returns and that the loop ends.
-- The retries of tenacity are a parameter, with the hypotheses that it only runs the action it is given
-- and returns one of its results. The fuel of the loop is the timeout in milliseconds and two, which
-- is enough where each call takes a millisecond at least. Methods are given in upper case, and the
-- seconds of a token are not negative and give a date.
--
-- DocumentProcess: src/ContentProcessorWorkflow/src/steps/document_process/executor/
-- document_process_executor.py.
--   DocumentProcess the part of _generate_claim_process_name under the lock, and
--                   _load_document_type_sidecar after the JSON is read
--   Tasks           the tasks of handle_execute, a step for each await that another task may see:
--                   the semaphore, the lock, the read and the write of the claim
--   Naming, Types, Lock, Occupancy, Finished and Progress prove what comes of them.
-- A time is the number of its digits. What the calls reply is left to the step, since the submission and
-- the polling loop are modelled with ContentProcess and the claim document with ClaimWorkflow. Not
-- modelled: the downloads of the files, whose failures are those of a task, the results that are sent
-- on, cancellations, and the status of the claim that ClaimProcessor.run writes meanwhile.
--
-- Parameters, for code that is not in the repository: the base repository, the JSON, base64 and UTF-8
-- decoders, the normalization of Unicode, the text that the agent framework gives for a message and
-- the parent's stream; and the steps and the workflow, which are not modelled.
--
-- Not modelled: logging, spans and status reports, which change nothing; the responses that are not
-- streamed, whose retries are the tenacity package's; the steps of the pipeline and the executors of
-- the workflow, but for the processing of documents above; the web interfaces, which are routes over
-- the same stores, but for the validation of uploads and the schemas; the agents' prompts.
pub mod Base
pub mod Exec
pub mod Dict
pub mod QueueService
pub mod Pipeline
pub mod ResponseClient
pub mod SchemaVault
pub mod HttpClient
pub mod ClaimWorkflow
pub mod Upload
pub mod ContentProcess
pub mod DocumentProcess
pub mod AppContext
pub mod GroupChat
