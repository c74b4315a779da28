-- ===== src/Lib.antt =====
-- Agent Letter Bridge: durable letters between a chat platform and a local agent.
--
-- The bridge polls a platform, writes each permitted message to disk as a letter, and only then
-- tells the platform to forget it; a doorbell line tells the agent that mail is waiting. Outbound
-- letters are claimed by exclusive creation, and each step of a send is one immutable receipt file.
-- A watchdog reads a health file and says what to do about it.
--
-- Files and the code they model:
--   Prelude       Python's dicts, texts, numbers and exceptions, as far as the program uses them
--   Json          the values of json.loads, with float() and hashing
--   Outbound      src/alb/outbound/store.py: record_event, _history, reconcile,
--                 reconcile_at_startup, and correspondent_key (Outbound/Identity)
--   Poller        src/alb/poller/loop.py: poll_once, over Letter, Allowlist, MsgIndex and
--                 Outbound/Identity
--   RingOutcome   src/alb/ring_outcome.py: parse_line and classify
--   Watchdog      src/alb/watchdog/health.py: verdict, status and _age_label
--   Grant         src/alb/grant/store.py: load, effective, set_limits, validate, require_granted
--   Allowlist     src/alb/allowlist/gate.py: allows and permits_anyone
--   MsgIndex      src/alb/msgindex.py: record, lookup and origins_of
--   Ids           src/alb/initiate/ids.py: length_prefixed, payload_digest, outbound_id, route_ref
--                 and the checks of an intent, a label and a reason
--   Media         src/alb/media/inspect.py: detect, dimensions and preflight
--   Destinations  src/alb/initiate/destinations.py: the operator's labels for grants
--   Initiate      src/alb/initiate/send.py: one crossing of an initiated letter, _cross, with what it
--                 settles, over the grants, the budget, the allowlist, the index and the receipts
--   Reply         src/alb/send/reply.py: destination, send_reply and resume_throttled
--                 (Reply/LetterFirst), _send_legacy with its claim files; and origin_chat_for and
--                 compose of src/alb/outbound/store.py
--   Letter        src/alb/letter/store.py: the letter format, resolve, publish and publish_once
--   Telegram      src/alb/adapters/telegram/api.py: fetch, send, ack and confirm with the mark's file
--   Slack         src/alb/adapters/slack: normalise of events.py (Slack/Events), the paged catch-up of
--                 api.py (Slack/Pages, Slack/Catchup), its queue, marks and confirm (Slack,
--                 Slack/Confirm), and send and send_photo of outbound.py (Slack/Outbound)
--   Budget        src/alb/initiate/budget.py and reservation.py: counts, admit_new, readmit_existing
--
-- Conventions. A function that may raise returns a Result; what was written before a raise stays in
-- the state. A directory is the list of its entries in the order in which it is listed. Texts that
-- are only compared are native strings, texts that are walked are lists of code points. A finite
-- float is a whole number of millionths; for the timestamps of Slack the floats are a parameter.
-- Fuel is in `str` of a number, where the number itself plus one bounds its digits, and in the walk
-- over a JPEG, where a turn for each byte is enough. The number of pages that Slack/Pages counts down
-- is the source's own cap for a cycle.
--
-- Not modelled: file system calls below the level of a file (fsync, modes, temporary names), locks,
-- sockets, HTTP and subprocesses, and the sentences printed for people.
-- Nor are the Discord adapter, the socket and the downloads of Slack, photos on the reply path,
-- send_initiated around its crossing, the media store, the wiring of the bridge, the surfaces, the
-- command line, the wizards and the diagnostics.
mod Prelude
pub mod Allowlist
pub mod Budget
pub mod Grant
pub mod Ids
pub mod Initiate
pub mod Json
pub mod MsgIndex
pub mod Outbound
pub mod RingOutcome
pub mod Watchdog
pub mod Reply
pub mod Letter
pub mod Telegram
pub mod Poller
pub mod Destinations
pub mod Media
pub mod Slack
