-- ===== src/Lib.antt =====
-- Models of the node's core parts and the theorems about them.
--
-- The program is a blockchain node built of plugins. A block that comes in from the network is pushed
-- into the pool of unresolved blocks, which keeps a tree of candidate blocks by height, counts the
-- signatures that support each, and confirms the lowest level. The peers that a node talks to stand in
-- a Kademlia routing table. A contract is an XML document whose conditions are evaluated over the
-- variables of a transaction; its directives read inputs and the storage, settle the fee and make the
-- queries that change the ledger. A user joins by an exchange of messages with the node, which packs and
-- parses them as bytes. The transactions of a block are split over threads to run their
-- contracts, and hashed into a Merkle tree. A block producer collects the signatures that support its
-- block.
--
-- Files:
--   Base: names of the standard library passed on, tests on numbers, lists, and the integers that an
--     `int` of the source becomes.
--   BlockPool: src/plugins/chain_plugin/unresolved_block_pool.cpp. setPool is set_pool, prepareDeque
--     prepare_deque, pushBlock push_block; updateTotalNumSSig and resolveBlock are in
--     BlockPool/Resolve, getPath and the searches in BlockPool/Paths. A Level is a bin of the deque.
--     Links has the invariant, Push, Contents, Votes and Resolve/* the proofs.
--   Kademlia: src/plugins/net_plugin/kademlia. Hash is hash.hpp, Node node.hpp, KBucket kbucket.cpp
--     and Routing routing.cpp, each function under its name in snake case. The iterators of the loops
--     are positions.
--   Contract: src/contract. Text is include/misc_tool.hpp, Datamap datamap.cpp with DataManager::eval,
--     Document what the handlers read of an XML element. Condition has a module for each condition
--     handler (Owner is user_handler.cpp), and Manager is condition_manager.cpp. Xml is xml_tool.hpp and
--     element_parser.cpp, DataManager data_manager.cpp with what it returns in DataManager/Lookups, and
--     Fee, Get, Input and Set are fee_handler.cpp, get_handler.cpp, input_handler.cpp and
--     set_handler.cpp. LookUps is the evaluation of conditions on the state of a run, whose caches it
--     fills; Condition/Handler has it on fixed services. Runner is contract_runner.cpp, with
--     setTransaction in Runner/Transaction, and Engine engine.cpp, contract_manager.hpp and
--     query_composer.cpp. Parallel is tx_parallelizer.cpp.
--   Merkle: src/plugins/chain_plugin/include/static_merkle_tree.hpp. generate and isValidSiblings are
--     generate and is_valid_siblings, for any number of leaves; the source has 4096.
--   Net: src/plugins/net_plugin. Message is config/include/message.hpp, with what is read of JSON,
--     UserPool and KeyExchange are include/user_pool_manager.hpp, Signature and Builder the signatures
--     and the replies of a key exchange. Packer is message_packer.hpp and message_parser.hpp. Validator,
--     Service and Merger are the classes of rpc_services/rpc_services.cpp: a service is a function from the
--     bytes of a request to its reply, what it publishes and sends, and the state; IdMapping is
--     id_mapping_table.cpp.
--   SupportSig: src/plugins/block_producer_plugin/ssig_pool.cpp, with the steps of several threads.
--
-- An index of -1 is `none`, and an access out of range or a size that does not fit gives `none` or
-- the value the source falls back to. Heights are 64-bit, and their differences wrap around as in
-- the source; a cast to int gives an integer of Base/Int, and the count of signers is an int that
-- wraps around. The loop of findNeighbors runs on fuel, one round for each bucket, which is enough
-- since no bucket is visited twice. The current time and the state of a gRPC channel are arguments,
-- since they come from outside. The record Services has what the conditions use of other code:
-- dates, certificates, storage and the check of signatures. A handler of messages gives back its
-- state after a throw too. The records Services of Net/Signature, Codec, InputServices, Storage and
-- Surroundings have what the network and the engine use of other code: cryptography, encodings,
-- CBOR, schemas, regular expressions, XML and the data base. A service that reads through a pointer
-- that is not set, or past the end of a message, is undefined, or gives none.
--
-- Not modelled: the locks, where an operation is one step here, except that fetchAll of the support
-- signatures is two; the ledgers that an UnresolvedBlock carries; time stamps of buckets; logging,
-- the chain and its data base, the state tree, whose root is a null pointer, the production of blocks, and
-- the calls of gRPC with the states of an RPC.
pub mod Base
pub mod BlockPool
pub mod Contract
pub mod Kademlia
pub mod Merkle
pub mod Net
pub mod SupportSig
