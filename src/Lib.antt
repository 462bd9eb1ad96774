-- ===== src/Lib.antt =====
-- tb45 modem support library for Zephyr: a verification of its C sources, function by function.
--
-- The library keeps a cellular modem in service and sends SMS messages and pings through it. Work
-- arrives as jobs in one message queue (tb45_async_job.c); the dispatcher (tb45_async_dispatcher.c)
-- takes one job at a time off that queue and runs it, the SMS jobs under a retry object
-- (tb45_delayable_retry.c). Results of asynchronous SMS sends wait in a ring in tb45_sms.c, which
-- also looks for received messages: triggers wait in a queue for a poll item, the modem is set up
-- under a retry object before the first is served, and notices of messages go into another queue.
-- Events about all this reach the application through one callback (tb45_sms_event.c).
-- The probe (tb45_ppp_probe.c) pings through the PPP link and restarts the modem after repeated
-- failures. A text message goes to the modem as AT commands over a pipe (tb45_sms_at_helper.c);
-- a ping job runs as a state machine on the work queue (tb45_ping.c).
--
-- Files:
-- - Common: shared names, Boolean tests, lists, signed integers, error numbers and byte strings.
-- - Kernel: the kernel's message queue, work queue and semaphore as interfaces, with the laws that
--   their documentation gives. Nothing is assumed of them beyond these laws.
-- - DelayableRetry: `tb45_delayable_retry_*`; Trace drives an object by events and logs its calls.
-- - AsyncJob: `tb45_async_job_*`, the retry policy, the handler table and the queue.
-- - AsyncDispatcher: the work handler and its callbacks; Flight drives it by events, with any answers
--   of the kernel on the readiness of the work queue and to the submission of the poll item.
-- - Sms/Request, Sms/ResultQueue: the records of tb45_sms.h, and the ring of results; a wait for a
--   result may last, and then other threads change the ring.
-- - Sms/Validation: of tb45_sms.c, the checks of a number and a text and the identifiers of requests;
--   Sms/Fields: the readers of a quoted field and of the first number of a line; Sms/Listing: the
--   reader of an AT+CMGL answer. `strchr`, `strstr` and `strtoul` are written out for their uses.
-- - Sms/Receive: of tb45_sms.c, the triggers and notices with their queues (`tb45_sms_rx_*`); its
--   Init is the setup of the modem, Delete the deletions, Capture the scan, Worker the poll item and
--   the start at boot. Platform holds what they call.
-- - Sms/Send: of tb45_sms.c, the way of a request through the job queue (`tb45_sms_async_*` and
--   `tb45_sms_send_enqueue*`).
-- - Events: the whole of tb45_sms_event.c, but for what is only logged; Platform holds the events
--   and what it calls, among that the ring of results, which Delivery puts in its place.
-- - PppProbe: the whole of tb45_ppp_probe.c, its work handlers and public functions in Handlers and
--   the services and callbacks it uses in Platform. The callback that restarts the modem, in
--   tb45_cellular.c, calls the probe's own reset, which is therefore a part of the recovery's handler.
-- - AtHelper: of tb45_sms_at_helper.c, Capture is the buffer for the lines of an answer, Window the
--   window over an answer in which tokens are found (`tb45_sms_at_buf_*`), RawSend the steps of the
--   asynchronous send (`tb45_sms_at_raw_send_*`), and RawSend/Machine its work handler, its end and
--   `tb45_sms_at_send_text_raw_async_cb`; Trace and Transcript drive it by events. Platform holds
--   the pipe, the chat and the work queue, with what is assumed of a read. Script is one command as a
--   script of the chat, with its callback (`tb45_sms_at_run_async_cb` and its kin), which
--   Script/Trace drives by events.
-- - Ping: of tb45_ping.c, the context of a run, the reply handler, the check of a request and the
--   wait for a job; Ping/Async is the state machine of `tb45_ping_async_*`, which Async/Trace
--   drives by events. Platform holds the network stack, the clock and the dispatcher.
--
-- Every C function is a function that takes the state and gives back its result and the new state;
-- what lies outside the sources is a state `E` that the parameters act on. A pointer that may be
-- NULL is an `Option`, an `int` result an integer `ℤ` with the negated error numbers of
-- Common/Errno. Unsigned counters keep their wrap-around. A function that runs under a mutex, or on
-- the one work queue, is one step; interleavings are sequences of such steps.
--
-- Most loops of the modelled code run over a known number of entries. Some take fuel: a loop that
-- reads until the pipe is dry takes the bound on the reads that the pipe still answers with bytes;
-- the work handler of a send takes twelve rounds, one for each state, of which it never returns to
-- an earlier one; and the work handler of a ping job takes four rounds more than the job's count,
-- since in one run at most every request fails at once. Without fuel left the result is `none`,
-- which the results below on events rule out. The readers of strings take the length of the string,
-- of which every round uses a byte. The poll item of the receiving part takes one round more than
-- its queue holds triggers, since nothing that it calls adds one; the result on it shows that any
-- more rounds end in the same state. The workers of events and results
-- take their rounds as an argument, and the results below ask for more than wait.
--
-- Not modelled: logging; of tb45_sms_at_helper.c the synchronous send and the shell command; of
-- tb45_ping.c the synchronous run, the reading of a packet and the functions that enqueue a job; of
-- tb45_sms.c the send that waits in its own thread, the statistics, and the reading of a stored
-- message with the reader of an AT+CMGR answer;
-- tb45_cellular.c and the shell (tb45_shell.c).
pub mod Common
pub mod Kernel
pub mod AsyncJob
pub mod AsyncDispatcher
pub mod DelayableRetry
pub mod Sms
pub mod Events
pub mod PppProbe
pub mod AtHelper
pub mod Ping
