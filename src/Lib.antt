-- ===== src/Lib.antt =====
-- CTranslate2: an inference engine for Transformer models. This library models the parts of the C++
-- code that decide what runs and in which order, and proves what makes them correct.
--
-- Types (src/types.cc, src/devices.cc, include/ctranslate2/types.h, src/cpu/backend.cc, and the
-- tests on the compute capability in src/cuda/utils.cc): `DataType`, `ComputeType` and `Device` are
-- the enums; `Platform` stands for the build flags, the environment variables, and what the CUDA
-- runtime and the CPU report. `resolve_compute_type` calls itself for DEFAULT and INT8; `resolve` is
-- that recursion on fuel, and three nested calls are enough for every model whose own type is not
-- DEFAULT. The text of an exception is left out, its class is kept. Static caches (mayiuse_mkl, the
-- CT2_ variables) are read once per process, so they are fields of `Platform`.
--
-- Batching (src/batch_reader.cc, include/ctranslate2/batch_reader.h): `Reader` is a BatchReader over
-- any source, given by the function that stands for the virtual `get_next_example`; `VectorReader`,
-- `next_of_lines` and `next_of_parallel` are the three subclasses. A read takes fuel for one loop
-- round per example that is left and one more. Sizes are 64-bit and wrap (`u64`). `Feeds` says what
-- a source gives, `cut_batch` is the abstract read on a list, and `get_next-Reads` joins them.
-- `rebatch_input` takes std::sort as a parameter; nothing but that it rearranges its input is used.
--
-- Replica (include/ctranslate2/replica_pool.h): a promise is a number in the list of the states that
-- promises share with their futures, and a promise that was moved from is none. A job is its promises
-- and its function, which takes the replica of the worker that runs it, if there is one. `run_jobs`
-- runs jobs by their numbers in an order that is given; the writes of one job are taken together,
-- which makes no difference to jobs that share no promise. Setting a promise twice or one that was
-- moved, which throws, and too few results, undefined in the source, are `none`. In `consume_batches`
-- a future is known by what it comes to hold, and it is given how many are ready after each round; the
-- loop runs on one round more than there are examples. What the client does with a batch, and how a
-- replica is made from a model, are parameters.
--
-- Threads (src/thread_pool.cc, include/ctranslate2/thread_pool.h): one step is what a thread does
-- under the mutex of JobQueue, or one notification, and any thread may take the next step. A thread
-- at a wait goes on when it was notified, or by a spurious wake-up, which is a step of `Step` and not
-- of `Internal`, and tests its condition again. `Pool` counts the
-- threads at each place and names the jobs that they hold; the lists `accepted`, `started` and
-- `finished` are history and steer nothing. Thread affinity, the hook before a wait and
-- get_local_worker are left out, and a job is taken to return.
--
-- Vocab (src/vocabulary.cc, src/vocabulary_map.cc, include/ctranslate2/vocabulary.h): a text is the
-- list of its bytes. `token_to_id` is the hash map as an association list that holds a key once;
-- `id_to_token` has the text that each pointer leads to, so that a token that is given twice has one
-- entry in the map and two in the list. A file is the list of the lines that std::getline gives. The
-- vocabulary map (src/vocabulary_map.cc) is read character by character; on an empty file, where the
-- source reads a table that is not there, its constructor gives `none`.
--
-- Padding (src/padder.cc, include/ctranslate2/padder.h, src/ops/gather.cc, src/ops/gather_cpu.cc): a
-- storage is its shape and the list of its rows, where a row has the dimensions that the padder does
-- not touch, and may be of any type. Sizes are natural numbers; the one index that can be negative
-- is of a type that tells. A read out of bounds, undefined in the source, is `none`. The loop up to
-- a multiple runs on one round more than the multiple.
--
-- Buffered (src/buffered_translation_wrapper.cc): one step is what a thread does under `_mutex`, one
-- notification, or the call of post_examples that follows a flush. The time of wait_for may be up at
-- any moment of a sleep. No request is made once the destructor has begun. The lists `requests` and
-- `posts` are history and steer nothing. A spurious wake-up is a step of `Step`. `posted_jobs` are the
-- jobs of all posts, and `run_posts` runs them in the pool of Replica, in any order.
--
-- Storage (src/storage_view.cc, include/ctranslate2/storage_view.h): `Storage` is the state of a
-- StorageView without its elements; the memory is the number of bytes behind the pointer. A method
-- gives a storage, throws and leaves one, or does what is undefined in the source (`Effect`).
-- Dimensions of a shape are natural numbers, the arguments that may be negative are integers. A size or
-- a number of bytes that 64 bits with a sign do not hold is undefined where memory is reserved or
-- viewed; the products of reshape, expand_dims and index are not bounded. Which allocations succeed is a parameter. `Allowed` names what
-- the source leaves to its callers.
--
-- Utils (src/utils.cc): the functions on texts. The loop of split_string runs on one round more than
-- the text has characters, which is enough unless the delimiter is empty, when the source does not
-- end.
--
-- Decoding (src/decoding.cc, include/ctranslate2/decoding.h): GreedySearch::search is
-- `greedy_search` for one hypothesis (Decoding/Greedy), and `greedy_hypotheses` for several, where the
-- batch is repeated (Decoding/Hypotheses). `Engine` has the objects that it calls: the decoder with
-- its state, the logits processors, the sampler and the callback, which are functions of what they are
-- given, and the arithmetic of floats. The loop over the steps runs on get_max_step rounds, as in the
-- source. A batch is lists of one length; a row that is finished leaves them. `RowWise` says that
-- decoder, processors and sampler treat each row by itself, and `decode_one` is the search on one row
-- (Decoding/Lanes). The sampler may draw from a generator, whose state is part of the decoder state;
-- BestSampler fulfils `RowWise`, and RandomSampler does not. The logits that a search may return are
-- left out. So is a coverage penalty for a search that returns scores but no attention, where the source
-- writes to an empty vector or throws.
--
-- Constraints (src/decoding_utils.cc, include/ctranslate2/decoding_utils.h): `DisableTokens` has the
-- logits as one list; a write out of the matrix, undefined in the source, changes nothing. An index in the
-- list of a device is cut to 32 bits, and the theorems ask that the indices be less than 2 ^ 31 there.
-- The sequences are the rows of the storage, and an empty storage has none. The loop of
-- NoRepeatNgram runs on one round more than the row has tokens, which is enough, since each round moves
-- on by a token at least. RepetitionPenalty, a kernel on scores, is left out.
--
-- Warping (src/dtw.cc): `negative_dtw` with costs of any type. The tables are functions of row and
-- column. The loop of backtrace runs on i + j + 1 rounds, since each round lowers one of them; an
-- entry of a path may be -1, when the path runs along the border.
--
-- Output (src/layers/decoder.cc, include/ctranslate2/layers/decoder.h): `OutputLayer` has the sizes and
-- the two maps of a decoder whose output layer gives a part of the vocabulary; the hash map is an
-- association list. The weights that update_output_layer selects are only counted.
--
-- Prelude holds the shared names: Boolean tests, lists by native numbers, results, and
-- rearrangements.
--
-- Not modelled: the numerical kernels (src/cpu, src/cuda, src/metal, src/ops), whose content is
-- floating point arithmetic on device memory; the layers and models that are built from them; beam
-- search and the alternatives of src/decoding.cc; the Python bindings and the command line.
mod Prelude
pub mod Types
pub mod Batching
pub mod Replica
pub mod Threads
pub mod Vocab
pub mod Padding
pub mod Utils
pub mod Buffered
pub mod Storage
pub mod Decoding
pub mod Constraints
pub mod Warping
pub mod Output
