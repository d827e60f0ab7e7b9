-- ===== src/Lib.antt =====
-- OpenShift console plugins (plugins/): a library of models of the plugins' own logic, with the
-- theorems that make it correct.
--
-- Texts are JavaScript strings, as lists of UTF-16 code units (Prelude.Text); numbers are natural
-- numbers, or integers where the code goes below zero (Prelude.Int). Typed arrays are lists of a
-- fixed length (Prelude.Arrays).
--
-- Logs.Buffer models the class LogBuffer of plugins/logging/src/logs/buffer.ts: the fields are
-- those of the record LogBuffer, and each method is a function that returns the new buffer.
-- Buffer.antt has the state and the side that appends (append, flushPartial, pushLine,
-- compactOrGrow, newPage, evict, clear), Buffer/Front.antt prepend and reserveFront,
-- Buffer/Read.antt the getters, lineAt and text. The loops over newlines run on one more round
-- than the text has characters, which is enough, since each round moves past a line break; the
-- theorems on append and prepend state the whole result. Buffer/View.antt says what a buffer
-- stands for (the retained lines, the unfinished text) and the invariant IsValid;
-- Buffer/Spec.antt reads a text line by line with no offsets; the other children prove that the
-- methods agree with it. The capacity of the arrays starts at 4096 cells as in the code. An
-- Int32Array cell is a number that does not wrap around.
--
-- Logs.Pagination models plugins/logging/src/logs/pagination.ts: earlierPodLines, cursorOf,
-- earlierJournalLines and splitLines. An index below zero is none, and JSON.parse is a parameter
-- that returns none where it throws. The search for the join looks at JOIN_SEARCH_SLACK + 1
-- offsets, as the loop does, so its fuel is the loop's own bound.
--
-- Terminal.Portforward models the class PortForwardChannel of
-- plugins/terminal/src/pod/portforward.ts: the state is the record Channel, whose two pending
-- fields are the map pendingHeaderBytes, and onSocketMessage returns the calls of the callbacks
-- as a list of events, of those callbacks that are set. TextDecoder is a parameter. Step.antt has
-- the invariant and what one frame does, Run.antt whole runs, Send.antt the frames that are sent.
--
-- Filesystem.Paths models joinPath, parentPath, ancestorPaths and baseName of
-- plugins/filesystem/src/pod/format.ts; the regular expression for trailing slashes is
-- trim_slashes. Filesystem.Transfer models uploadFile, readFileBytes and concat of
-- plugins/filesystem/src/pod/transfer.ts: the client is a function that says which calls are
-- taken, or the messages that come and whether the stream breaks off. The upload loop runs on one
-- more round than the file has bytes, since every chunk has at least one.
--
-- Terminal.Endpoints models plugins/terminal/src/pod/endpoints.ts, with an object keyed by
-- container as a list of pairs and the members that it inherits (Prelude.Text.Keys). JSON.parse
-- is a parameter, and so is what the code asks of its numbers.
--
-- Dns.Hostnames models plugins/external-dns/src/utils/hostnames.ts, with the fields of a resource
-- that each function reads as arguments or a record.
--
-- Logs.Ansi models plugins/logging/src/logs/ansi.ts: Style.antt the styles and the palette,
-- Sgr.antt the parameters that set a style, Scan.antt where a sequence ends, Spans.antt the runs.
-- A position in the text is the text from there on, and the loop of parseAnsi runs on one round
-- for each character, which is enough since each round moves on by one at least. Runs.antt and
-- Visible.antt are about the runs of any text; Shown.antt, Commands.antt, Effects.antt and
-- Colored.antt about a text whose sequences set styles.
--
-- Logs.Parse models plugins/logging/src/logs/parse.ts: Entry.antt the types, Fields.antt how a
-- field is read, Record.antt the formats, Columns.antt the columns of an annotation, Line.antt
-- parseLine and sniffFormat. A record is what the parser makes of a JSON object, a missing field
-- is none, and null and none are told apart where the code does. The code looks a key up with in
-- and [], which find what objects and arrays inherit too: a lookup gives a value of the record, a
-- method, or one of the two prototypes, and where a method leaves an extra column undefined,
-- which throws, parse_line is none. The regular expressions are written out as functions. What
-- the runtime gives (JSON, numbers, dates, upper case, decoding) is the record Runtime.
--
-- Logs.Stream models plugins/logging/src/logs/useLogStream.ts: Stream.antt what each continuation
-- of an effect's run does, by what it waits for; Hook.antt the effect, its cleanup and the
-- render, with the runs that were superseded kept, since they can still go on. A promise that
-- settles, a frame and a render are events, in any order; a decoder is a parameter, the record
-- Engine.
--
-- Logs.Earlier models plugins/logging/src/logs/useEarlierPages.ts in the same way: controllers
-- are numbered, and the calls under way are a list.
--
-- Terminal.Typing models plugins/terminal/src/pod/typeText.ts: Typing.antt the layout and the
-- events, with the session's answers as a parameter, Layout.antt the layout read backwards, and
-- Strokes.antt a machine that reads the events.
--
-- Logs.Hints models plugins/logging/src/logs/format-annotation.ts. Each hint is put in the map
-- where it is made, and only the hint made last is ever changed, so the map and the pointer to
-- the current hint are a list, newest first, and a flag.
--
-- Flux.ReadyStatus models plugins/flux/src/utils/readyStatus.ts and getCondition of status.ts
-- beside it. The regular expression is a function that gives a match at the start of a text; the
-- loop has a round for each character of the text, which is enough since each goes on by one at
-- least.
--
-- Components that work together: the pages that Logs.Pagination selects, joined by line breaks,
-- are what Logs.Buffer.prepend takes; the hooks of Logs.Stream and Logs.Earlier stand on
-- Logs.Buffer, and their buffers stay valid by its theorems; an upload names its file by
-- Filesystem.Paths.join_path.
--
-- Not modelled: React components, tables and browser glue (rendering, drag and drop, downloads
-- through an anchor element), requests and their URLs, sizes as floating point numbers and dates
-- through Intl, generated clients, the Go backends, charts and patches. Exec sessions, debug pods
-- and the status utilities of cert-manager and external-secrets are not modelled either.
pub mod Prelude
pub mod Logs
pub mod Terminal
pub mod Filesystem
pub mod Dns
pub mod Flux
