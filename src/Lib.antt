-- ===== src/Lib.antt =====
-- The serving layer of yllm, a runtime for language models that runs as several processes.
--
-- A client's request reaches a router, which knows the servers that are up, picks one and forwards
-- the request. A server keeps the token sequences of its conversations in a session cache, so that
-- only the new tokens of a request are computed. A supervisor collects heartbeats of all processes,
-- tells the routers which servers come and go, and leases ranks, which compute, to servers. They
-- talk in frames, one line of text each. A client talks HTTP: its request is an object in JSON, and
-- its answer a stream of events.
--
-- The files, and the code that they model:
--   Base.antt, Base/             what the parts share: integers, C's scanning functions on byte
--                                lists, outcomes of code that may loop or fault, lemmas on lists.
--   Session.antt, Session/       inference/core/cache.c and inference/include/cache.h.
--     Types                      `SessVal`, `SessCache`, their invariant, and the allocator.
--     Table                      sess_init, sess_free, sess_get, sess_new, sess_put, sess_evict.
--     Prefix                     sess_prefix, sess_lcp, sess_find_prefix.
--     Buffer                     sess_truncate, sess_grow, sess_commit, sess_append.
--     Disk                       write_all, read_all, sess_save, sess_load.
--     Path                       cache_path, sess_key_from_name.
--   Wire.antt, Wire/             the protocol of the processes.
--     Protocol                   proto_get, proto_is_error, proto_error_msg of serve/protocol.h.
--     Frame                      frame_send, frame_recv, frame_get of serve/frame.h, and
--                                sock_recv_line of serve/sock.h.
--   Router.antt, Router/         serve/router.c and serve/router.h.
--     Registry                   find_server, handle_server_add, handle_server_del,
--                                handle_server_update, and runs of these.
--     Pick                       router_model_known, pick_server.
--     Forward                    router_set_err, router_infer, and frame_t_payload of serve/frame.h.
--     Queue                      queue_snapshot and http_reject_if_busy of serve/router_http.c.
--   Node.antt                    `Node`, node_parse_hb and node_is_dead of serve/node.h.
--   Supervisor.antt, Supervisor/ serve/supervisor.c and serve/supervisor.h.
--     Types                      `SvNode`, `Supervisor`, and the notices to the routers.
--     Heartbeat                  find_node, sync_server_to_router, handle_heartbeat.
--     Lease                      handle_lease, handle_release, lease_expire_check.
--     Heal                       model_stride, spawn_record, spawn_kill, heal_dead, and the
--                                spawns less their command lines.
--   RateLimit.antt, RateLimit/   the sliding-window limiter of serve/router_http.c.
--   Tokenizer.antt, Tokenizer/   inference/core/tokenizer.c, and `Vocab` of inference/include/yllm.h.
--     Lookup                     vocab_id, vocab_bsearch_sorted, dict_compare.
--     Bytes                      tiktoken_special, gpt2_byte_str, build_byte_ids, utf8_clen, and the
--                                loop of vocab_decode that reads the byte alphabet.
--     Specials                   k_qwen_specials, special_token_id.
--     Merges                     vocab_encode_merges.
--     Greedy                     vocab_encode_greedy.
--     Sentence                   vocab_encode.
--     Decode                     vocab_decode.
--     Spells                     what the encoders and the decoder have in common, for proofs.
--   Http.antt, Http/             http_parse_request, http_header_get and http_auth_key of serve/http.h.
--     Lines                      the lines of a request.
--     RoundTrip                  requests that fit.
--     Full                       requests that do not.
--     Lookup                     the lookup of a header.
--   ClientId.antt, ClientId/     pick_client_sess_id of serve/router_http.c.
--     Body                       a key that stands in the body.
--   Json.antt, Json/             serve/json.h, less json_num.
--     Suffix                     places in a text.
--     Safe                       what the parser reads of its text.
--     Within, Find               what a lookup in an object reads, and what it finds.
--     Object                     a lookup, one field at a time.
--   Sse.antt, Sse/               the stream of tokens to a client: `SseCtx`, utf8_complete_len,
--                                sse_on_token and sse_on_done of serve/router_http.c, and
--                                http_sse_data and http_sse_done of serve/http.h.
--     Chunk                      the chunks, as the JSON reader reads them.
--     Event                      the event that a token sends, as the JSON reader reads it.
--     Escape                     the escaped texts, as the JSON reader reads them.
--     Stream                     the texts of a whole stream.
--     Truncated                  texts that are cut.
--   Tests.antt, Tests/           examples at concrete data.
-- Each part's theorems stand in the child modules of the module that declares its operations.
--
-- How the code is read:
--   A byte is its number, a C string the list of its bytes, a pointer into a string the suffix at
--   which it points, and an array with its count the list of the entries in use. A pointer to an
--   entry is its index. The clock is an argument, and so is malloc, with the properties of the C
--   library's as fields of `Allocator`. A `double` is a value of a type that `Floats` has.
--   `Outcome` is the result of code that may run for ever: `done`, `hang` or `fault`. A mutex is a
--   flag, and a lock of a held mutex hangs. Handlers run one after another, each under its mutex;
--   what other threads do to the router's table while a request is forwarded is a parameter. A
--   connection is the bytes to come before its close.
--   A `uint32_t` wraps: the growth loop of a buffer doubles modulo 2^32, on 33 rounds of fuel,
--   which reach a fixed value, since a doubled word is 0 after 32 rounds. The field lookup takes a
--   byte in each round, so the length of the line is enough fuel, and the loop over a server's
--   answer likewise takes one of the answer's bytes. An `int` is printed on ten rounds, one for each digit it can have.
--   The loops of the tokenizer take a byte of text or a symbol in each round, and their number is the
--   fuel. The loops of the JSON reader that are not recursive on the text have one round more of fuel
--   than the text has bytes. A score is the bit pattern of a `float`, and the comparison of two is
--   a parameter. A limit `max` is the size of the caller's buffer, and not negative.
--   Reading a terminated text at or behind its end is told apart: at its end the byte is 0, and a
--   pointer behind it is a `fault`. The clock in an event is the text that printed it.
--
-- What is not modelled: sockets, threads and files below the calls named here; the engine, its
-- kernels and devices, and the image encoders, which compute with floating-point numbers; the
-- copy of stb_image in inference/vision; the converters, which run offline.
pub mod Base
pub mod Session
pub mod Wire
pub mod Node
pub mod Router
pub mod RateLimit
pub mod Supervisor
pub mod ClientId
pub mod Http
pub mod Json
pub mod Sse
pub mod Tests
pub mod Tokenizer
