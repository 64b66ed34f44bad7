-- ===== src/Lib.antt =====
-- A model of the agent library, and the theorems that make its parts correct.
--
-- The program is a Go library for agents: tools and chains of tools (tools), the memory of a session
-- with its compression (memory, memory/types), retrieval-augmented generation (memory/rag), and the
-- assembly of a prompt's context from all of these (ctx, ctx/gssc). An agent loop (agents) calls a
-- language model, and runs the tools that the model asks for.
--
-- The files and the code they model:
--
--   Go/Expand, Go/Strings         os.Expand, and the functions of package strings that the code calls
--   Tools/Tool, Tools/Registry    tools/tool.go, tools/registry.go: values, parameters, tools by name
--   Tools/Chain/Defs, Context     tools/chain.go: Chain, ChainStep, chainContext (store, load, expand,
--                                 resolve)
--   Tools/Chain/Refs, Validate    extractStepsRefs, checkParallelGroup, Chain.validate
--   Tools/Chain/Execute, Run      runSerialStep, Chain.Run
--   Tools/Chain/Group             runParallelGroup: the goroutines of a group action by action, in the
--                                 order of a schedule; an action expands one whole template, although
--                                 the code takes the lock once for each of its placeholders
--   Tools/Executor                tools/executor.go: Execute, executeOne, validateParams, checkType
--   Tools/Terminal                tools/builtins/terminal_tool.go: the sessions and their directories,
--                                 cd, and the commands that reach the shell
--   Rag/Chunker/...               memory/rag/ingestion/chunker: chunker.go, recursive.go. Tokens is
--                                 estimateTokens, Split is splitIntoChunks and its loops, Headings is
--                                 parseHeadings and buildContentRanges, Overlap is applyOverlap,
--                                 Recursive is chunkNode and Chunk; Sentences is splitSentences,
--                                 Semantic the rest of semantic.go
--   Rag/Ingestion/...             memory/rag/ingestion/pipeline.go and parser/parser.go. Store is store on
--                                 the tables of the schema, Embed is embedChunks and embedWithRetry,
--                                 Pipeline is Ingest
--   Memory/Item, Working          memory/types/memory.go and working.go
--   Memory/Compressor             memory/types/compressor.go: Summarize with callLLM and
--                                 buildEpisodicItem
--   Memory/Bm25, Bm25/Sparse      memory/retrieval: bm25.go, sparse.go
--   Memory/Manager                memory/manager.go: Add and compressWorking. The calls of Add and the
--                                 goroutines that they start are interleaved in every way (Reachable);
--                                 an action takes the lock of the memory once, or calls outside, but
--                                 RemoveItems and UnlockCompress at the end are one action
--   Core/Message, Agent           core/message.go, core/agent.go: messages, their text, the history
--   Agents/React                  agents/react.go: Run, with the replies and the tools it calls
--   Ctx/Packet, Selector,         ctx/context.go, ctx/gssc/selector.go, ctx/gssc/structurer.go
--   Structurer, Gatherer          and ctx/gssc/gatherer.go, utils.go, builder.go
--
-- Conventions. A text is the list of its code points, so invalid UTF-8 is not modelled; in
-- Tools/Terminal and Core/Message, which cut at bytes, it is the list of its bytes. Numbers are
-- natural numbers, and integers where the code goes below 0 or tests the sign; none of the counters
-- modelled comes near 2^63. A float64 is a value of a type F whose operations are arguments. A map is
-- an association list, and a nil map is `none` where the code tells it from an empty one. An error is
-- a value; a panic is one too where the code can reach it (Recursive.Fault).
--
-- Outside the repository, and so arguments: what a tool does to the world, json.Marshal and
-- json.Unmarshal, the character classes of Unicode, sort.Slice, path/filepath, os.Stat and os/exec, the
-- clock, SHA-256 and UUIDs, the embeddings of texts, the replies of the language model. The search of
-- the working memory takes its scorer as an argument. The stores of the ingestion are tables of which
-- any operation may fail, and then changes nothing; whether the deletion of a document takes its chunks
-- along, which only a connection that enforces foreign keys does, is an argument too.
--
-- Fuel. headings_from and char_chunks take the length of the text, and take a character at least in
-- each round. chunk_node takes seven: levels are from 0 to 6 and each call is one level deeper, so the
-- fuel does not run out (Recursive/Safety). semantic_split takes the length of the text and one more,
-- since each call is on a shorter text (Semantic/Total); the loops over its characters and over the
-- batches of its sentences take their lengths, and so does the loop over the batches of the ingestion,
-- where the fuel runs out for a batch size of 0 only (Embed/Batches). A run of an agent takes its
-- limit on steps. A schedule of a parallel group may be of any length: the
-- goroutines that it leaves unfinished run in order at its end, with fuel that their steps measure.
--
-- Not modelled: the recall of documents (memory/rag/advanced_features), the episodic and semantic
-- memory, and the built-in tools but the terminal; the
-- tokenizer, which wraps a segmenter of a third party; and the clients of OpenAI, SQLite, Qdrant, Neo4j
-- and of the file formats, which are input and output.
mod Prelude
pub mod Go
pub mod Core
pub mod Tools
pub mod Rag
pub mod Memory
pub mod Ctx
pub mod Agents
