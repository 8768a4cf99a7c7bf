-- ===== src/Lib.antt =====
-- Ether Memories: a local memory store for people and AI systems. This library models the core of
-- the program (src/core) and of its durable log (src/persistence), and proves what makes their parts
-- correct.
--
-- The program has three foundations. `MemoryNotes` holds notes in a map with a revision that counts
-- the changes, `DiarySystem` holds diary entries in the same way, and `MindGraphManager` holds a
-- directed graph of nodes and edges. `FoundationLinker` mirrors notes and diary entries as nodes of
-- the graph, and `EtherMemoriesCore` is the facade that calls all of them. `MemoryRetriever` answers
-- queries over the notes, the diary and the graph, with a `LexicalIndex` that caches their tokens.
--
-- A durable store is a head, which names a checkpoint, and a log of transactions behind it. A frame of
-- the log holds one transaction: a prefix with lengths, metadata and operations in canonical JSON, a
-- digest and an end mark. `scanWal` reads a whole log, `WalStreamScanner` reads it in pieces, and
-- `replayWal` applies the operations with the reducers of a registry.
--
-- The files, and the code that each one is about, by its path below src:
--   Text, Text/Trim, Text/Order  strings as UTF-16 code units; codeUnitCompare of core/Tokenizer.ts
--   Time, Number, Value          dates, doubles and unknown data; cloneValue of utils/clone.ts
--   OrderedMap, Sort             the language's Map with string keys and its stable sort
--   Result, Types                utils/result.ts and the records of types/index.ts
--   Notes                        core/MemoryNotes.ts: add, get, getAll, update, delete,
--                                promoteCandidate, purgeExpired, replaceAll, valuesUnsafe
--   Diary                        core/DiarySystem.ts: the same for diary entries
--   Graph                        core/MindGraph.ts: the manager
--   Graph/Neighbors, Graph/Recall  its getNeighbors and getRecallNeighbors
--   Graph/Package                the package graphology: its operations as a record, its
--                                documented behaviour as laws, and a graph that meets them
--   Linker                       core/FoundationLinker.ts
--   Core, Core/Queries           core/EtherMemories.ts: the calls that change the foundations,
--                                export, and the queries
--   Tokenizer                    core/Tokenizer.ts, and the runtime that it calls
--   Lexical                      core/LexicalIndex.ts
--   Retrieval, Retrieval/Query   core/MemoryRetriever.ts: classes, filters and order; query
--   Retrieval/DiarySearch        core/MemoryRetriever.ts: searchDiary, searchDiaryDetailed
--   Durable, Durable/Decimal     types/persistence.ts, utils/durablePersistence.ts; BigInt numbers
--   Bytes, Bytes/Utf8            byte arrays, 32-bit words and UTF-8, as the language has them
--   Json, Json/Nesting, Json/Records  persistence/walJson.ts
--   Codecs, Codecs/Head, Codecs/Checkpoint  persistence/codecs.ts
--   Wal, Wal/Header, Wal/Operations, Wal/Frame, Wal/Scan  persistence/wal.ts
--   Wal/Registry, Wal/Replay     persistence/walOperations.ts, persistence/walReplay.ts
--   Wal/Round, Wal/Stream        persistence/walStream.ts: the scanner's state and rounds; its loop and
--                                calls
-- The theorems stand in the child modules, named for what they prove; each component's runs and
-- concrete instances are in its module Tests.
--
-- A call takes the state of its component and returns its result and the state after it; sharing of
-- objects plays no part, since the code clones what it stores and what it hands out. Random ids and
-- clock reads are arguments of the calls. A moment is a number of milliseconds from the earliest date
-- of the language, or the invalid date. A double is a whole multiple of 2^-1074, NaN or an infinity.
-- Unicode normalisation, lower case, the token pattern, `JSON.stringify`, and the rounded sum and
-- product of doubles are parameters (`Runtime`), of which nothing is assumed. `JSON.stringify` and
-- `JSON.parse` of the log are parameters too (`JsonRuntime`), and so is SHA-256; where a theorem needs
-- more of them, that is a hypothesis: that one value is read back as it was written, on one line
-- (`IsFaithful`), or that a digest has 32 bytes. A query's limit is a
-- whole number, and its date a date or the timestamp of one.
--
-- Loops are structural recursion: over the entries, over the frontier and over the depth (a number
-- here, 0 to 2 in the code), so no fuel is needed. The scan of a log counts down from the bound of 1024
-- frames that the code has. The loop of the stream scanner counts down from the length of its input, as
-- each of its rounds takes at least one byte or is the last; the successor of a sequence number has one
-- round more than the number, which has fewer digits.
--
-- Not modelled: import, condensation, contexts, the dream cycle and inspection of src/core; of
-- src/persistence, the state root and its payloads, mutation preparation, startup recovery, rotation,
-- receipts, reclamation and the file stores; the durable runtime; src/adapters; messages and details of errors, which no code reads; saving and
-- loading, which are file I/O.
mod Prelude
pub mod Result
pub mod Text
pub mod Time
pub mod Number
pub mod Value
pub mod OrderedMap
pub mod Types
pub mod Notes
mod Sort
pub mod Diary
pub mod Tokenizer
pub mod Lexical
pub mod Retrieval
pub mod Graph
pub mod Linker
pub mod Core
pub mod Bytes
pub mod Durable
pub mod Json
pub mod Codecs
pub mod Wal
