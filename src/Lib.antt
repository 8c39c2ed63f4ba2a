-- ===== src/Lib.antt =====
-- The automated review of after-sales tickets, the consultation on policies, and the knowledge that both
-- rely on: python_agent/after_sales_agent.
--
-- A review (agent/workflows/formal_review) is a LangGraph graph (graph.py). It reads the ticket from
-- Java, checks its inputs, asks two specialists (a policy and an evidence workflow, workflows.py) for
-- assessments, drafts a proposal (by the standard procedure of sop.py, or by a language model,
-- synthesis.py), replaces the confidence by one computed from the assessments (confidence.py), and
-- lets a deterministic gate decide whether to submit an approval or a manual review to Java, or to ask
-- for more evidence; the graph then rests at an interrupt and is resumed by a signal.
--
-- Files:
--   Prelude          natives, Boolean tests, lists.
--   Python           the values of JSON (Value), exceptions as values (Result, Ensures), texts and
--                    conversions (Text, Convert), and what the interpreter supplies (Runtime).
--   FormalReview     Contracts and Context: contracts.py (`TrustedCaseContext.from_ticket`);
--                    Score and Confidence: confidence.py and `_score` of evaluators.py;
--                    Requirement: `is_core_evidence_requirement`; Sop: sop.py; Synthesis: synthesis.py.
--     Evaluate       evaluators.py: Citation, Hit and Policy are `PolicyEvaluator.assess`, Evidence is
--                    `EvidenceEvaluator.assess`; Trust and Visual are the proofs about them.
--     Graph          graph.py. State: `FormalReviewState`, the settings, the collaborators. Load,
--                    Decide, Submit, Request, Resume: the nodes. Run: the edges, the loop of
--                    supersteps, `start` and `resume`. Outcome: what a submission leads to. Gate, Approved,
--                    Sound, Reach: what approvals rest on. Rank, Progress: the end of an attempt. Routine: the routine path.
--     Workflow       Ports: tool_ports.py; Failure: application/rag_retrieval_policy.py; PolicyState and
--                    Policy: `PolicyWorkflow` of workflows.py; Evidence: `EvidenceWorkflow`. Evaluated,
--                    Answered, Nodes, Handled, Trusted and Seen are the proofs about their `handle`.
--   Resilience       infrastructure/resilience.py: Circuit is `CircuitBreaker`, Consistent and Probe are the
--                    proofs about its histories. The clock's readings are arguments.
--   Ingestion        application/knowledge_ingestion. Models: models.py; Tokens and Split: token_counter.py;
--                    Lines, Pieces, Oversized, Chunker and Chunk: structured_chunker.py, the splitting of
--                    blocks, their combination and `chunk`; Headings: section_builder.py; Terms and
--                    Classify: `_contains_term` and `_classify` of service.py. Parts, Units, Kept and Rows
--                    are the proofs that no text is lost, Merging, Selecting, Rounds, Candidates and
--                    Chunks those about the chunks, and Allowed those about their classification.
--   Consultation     agent/workflows/consultation.py. Flow: computations that call the registry; Hits, Ports,
--                    Handoff, Rewrite and Answer: the parts of `_handle_core`; Reliable, Served, Replies
--                    and Order are the proofs about its replies and its calls.
--   Rewriting        application/rag_query_rewrite.py. Query, Prompt and Decision are the code, Valid and
--                    Raises the proofs about `evaluate`.
--   Retrieval        Filters: retrieval/knowledge_filters.py; Rrf: `rrf_fuse_rankings` of retrieval/rrf.py;
--                    Plans and Fused are the proofs about them.
--   FunctionCalling  application/function_calling.py. Schema: `_validate_schema_value`; Message and Decide:
--                    the adapter; Within, Decided, Refused and Raises are the proofs about `decide`.
--   Tests            concrete inputs and runs.
--
-- The state of the graph is a record; a node maps it to the next one, in the monad Result where it can
-- raise. Calls of Java are listed in the machine beside the state, and a collaborator is a function of
-- the calls made before, so that it may answer differently each time. Dictionaries of decoded JSON
-- are Value; an absent key and a null are both none where the code treats them alike.
--
-- Floats, Unicode case mapping, number parsing, dates and digests are the record Runtime, a parameter;
-- the order of floats is assumed to be transitive and asymmetric (IsOrdered), which holds of NaN too.
-- The conversion of an integer to a float raises OverflowError beyond the range of floats
-- (fits_float). A pure definition that reads a score gives it for what is within the range; the
-- definition that calls it raises before it, at the place where the code converts.
-- The language model, the skill files, the Java tools and the two specialists as the graph calls them
-- are the record Collaborators; the specialists in turn take the tool registry and the service that
-- rewrites queries as parameters.
--
-- A text of the ingestion is the list of its code points; NFKC, `isalnum` and the case mappings are
-- the record Unicode, and the `casefold` of queries and the arithmetic of the fused scores are
-- arguments. The loop that merges small chunks takes as many rounds as there are chunks, which is
-- enough, since each merge takes one away.
--
-- The loop of supersteps takes a limit, as LangGraph's recursion_limit does, and raises when it is
-- exhausted; a limit of the rank of the position (Rank), 8 at most outside a resumption, is enough for an
-- attempt. The graphs of the specialists run with LangGraph's default limit of 25.
--
-- Not modelled: traces and metrics, which decide nothing; `_format_result`, the response that `start`
-- and `resume` build of the final state that the model returns; the parallel edge of the two specialists is
-- one step, in the order policy, evidence; threads, HTTP, SQL, Kafka, the Java service and the
-- frontends. Of python_agent the chat workflow of application, the retrieval from the database
-- and the parsers of file formats are not modelled.
pub mod Prelude
pub mod Python
pub mod FormalReview
pub mod Resilience
pub mod Ingestion
mod Tests
pub mod Consultation
pub mod Rewriting
pub mod Retrieval
pub mod FunctionCalling
