-- ===== src/Lib.antt =====
-- Verification library of casfa: a content-addressed store in which files and directories are trees
-- of nodes, each stored under the hash of its bytes.
--
-- Parts, and the files that model them:
--   Encoding/Cb32        packages/encoding/src/crockford-base32.ts: keys as Crockford Base32 text.
--   Core/Header          packages/core/src/header.ts, constants.ts: the 16-byte header and its flags.
--   Core/Pascal          packages/core/src/utils.ts: Pascal strings, as the names of a directory.
--   Core/SizeFlag        packages/core/src/utils.ts: size flag bytes.
--   Core/Node            packages/core/src/node.ts, types.ts: set, dict, successor and file nodes;
--                        Node/Fields, RoundTrip and Directory read them back, Node/Canonical shows that
--                        the order of the input does not matter.
--   Core/ByteOrder       compareBytes, the order of byte strings.
--   Core/Topology        packages/core/src/topology.ts: how a file is split into a tree of nodes;
--                        Topology/Depth is the choice of the depth, Topology/Layout the tree.
--   Core/Text, Words, Errors, NodeType
--                        what the files of packages/core share: text, DataView, thrown errors.
--   Core/Validation      packages/core/src/validation.ts: validateNodeStructure and validateNode; Sound is
--                        what a success says, Complete, Files and Dicts show that encoded nodes are valid.
--   Storage              packages/storage-core: the interface of a storage, with its laws;
--   Storage/Memory       packages/storage-memory, which fulfils them.
--   Controller           packages/core/src/controller.ts: writeFile (Write), readFile and openFileStream
--                        (Read), makeDict (Directory), getTree (GetTree; Complete is what it lists, Ends
--                        how many rounds it takes), and what they do together (Tree, RoundTrip,
--                        ReadBack, Files, Stream).
--   Cas                  packages/cas: getNode, hasNode, putNode, gc and info of cas-service.ts, and the
--                        meta blobs of cas-meta.ts (Lookup reads, Update writes); Cas/Blobs and Tracked are
--                        the bookkeeping, Cas/Closure the invariant of putNode, Cas/Reachable and Reached the
--                        traversal, Cas/Collect, Outcome and Sweep what gc and putNode leave behind;
--                        Cas/Facade is the interface CasFacade and createCasFacade.
--   Drive                cells/drive/backend/services: the drive over a CasFacade. Drive/Paths is
--                        normalizePath of root-resolver.ts and of transfer-paths.ts, Drive/Resolver the
--                        paths and nodes of root-resolver.ts, Drive/Mutations tree-mutations.ts (Put, Replace,
--                        Placed, Add, Remove, Reports and AtPath are its proofs), Drive/World what these
--                        change, Drive/Entries a dict node as a list of names with their children;
--                        Drive/Branches is the interface of db/branch-store.ts, Drive/Branches/Memory the store
--                        in memory (Realms is its invariant) and Drive/Branches/Histories what holds of
--                        it after any calls, Drive/Transfer transfer-paths.ts (Spec is
--                        validateTransferSpec, Frame and Outcome what a transfer leaves), Drive/BranchApi
--                        controllers/branches.ts, whose handlers call these (Requests is what they read
--                        and answer, Errors the choice of the status, Create, CreateRoot and Granted
--                        what a creation leaves, Removal what may be removed, Transfers what a transfer may
--                        change), Drive/BranchUrl middleware/branch-url-auth.ts (Lifecycle is the URL of
--                        a branch from its creation to its removal), Drive/CurrentRoot the root that a
--                        caller reads, of root-resolver.ts.
--   Encoding/Hex         packages/encoding/src/hex.ts.
--   Maps                 a JavaScript Map from strings.
--   Delegates            packages/cell-delegates-server/src: the grants of types.ts and the interface of their
--                        store; MemoryStore is memory-grant-store.ts (Index and Laws show that its two
--                        indexes are exact), Token token.ts, Operations delegate-ops.ts and
--                        verify-delegate-token.ts (Laws is what a token gives access to, Revoked what a
--                        revocation takes away), AuthCodes auth-code-store.ts, Requests and Oauth
--                        delegate-oauth-routes.ts (Codes, Refresh and Rotated are the exchanges of codes and
--                        of refresh tokens, Flow the routes together).
--   Base                 tests, lists, results, the sort of Array.prototype.sort, and the state and
--                        error monad of Base/Exec in which the writing operations are written.
-- writeFile asks Core/Topology for a layout, encodes its nodes with Core/Node from the leaves up, and
-- puts them into a Storage under the Base32 text of their hashes; readFile follows the hashes down.
-- The services of the drive take a CasFacade, which Cas/Facade makes from a Storage, read dict nodes
-- through it and put changed ones, from the changed entry up to a new root; every key that they put is
-- reported to a callback, onNodePut, and the model keeps the reported keys in a list beside the CAS.
--
-- A delegate is given an access token and a refresh token by the routes of Delegates/Oauth: authorize makes
-- the grant and a code, exchange gives out the tokens of the code once, refresh makes new ones. The grant
-- store has the digests of the tokens only, and verifyDelegateToken looks a token up by its digest.
--
-- State and errors: code that changes a storage is a function from its state to a result and the new
-- state, and a thrown error is a value beside the state at the throw. An asynchronous call is the step
-- that it makes once it runs; concurrent calls are not modelled.
--
-- Numbers: sizes and offsets are natural numbers; 32-bit words are written with their wrap-around, and
-- masks and shifts as division and remainder. The capacity of a tree is computed in floating point by
-- the program, through Math.exp and Math.log. The function that does so is a parameter, of which nothing
-- is assumed: its result is a whole part and whether there is more. A capacity that is not whole makes
-- sizes of nodes that are not whole either, or negative, where it divides a file over children: from
-- depth 3 on. The model stops there with `fractional`, so the theorems about layouts are about files
-- of at most two levels (about 68 GB at the default limit). Node limits there are 16 + 16 k bytes.
--
-- Parameters: the key provider (a hash function outside of the repository's logic), of which the
-- controller theorems assume 16-byte keys and no collision among the nodes in question; the text
-- decoder of the platform, of which only the reading of well-formed text is assumed; JSON, of which only
-- the round trip is assumed; the collation of localeCompare, of which nothing is assumed but what a
-- theorem states.
--
-- SHA-256, Base64, JSON, random bytes and times of the tokens are parameters too: Delegates.Token.TokenPlatform
-- and the arguments named draws, now and later. The theorems assume of them what
-- Delegates.Token.RoundTrip.IsTokenPlatform states, and that new ids and digests are new to the store.
--
-- Bounds and fuel: computeDepth stops at depth 10, so 10 rounds cover its loop; the reading traversals
-- take a fuel that bounds how deep they descend, and two levels are shown to be enough for the files of
-- at most two levels. reachableKeys and getTree take a fuel for the rounds of their loops, with a
-- bound that is shown to be enough. Every inner loop of encodeCB32 takes at least 5 bits a round.
--
-- Not modelled: the other parts of the drive that serve HTTP and MCP requests, the stores on DynamoDB and S3, and
-- the services around the store, which are user authorization, the other cells and the deployment tools.
pub mod Base
pub mod Encoding
pub mod Core
pub mod Storage
pub mod Controller
pub mod Cas
pub mod Drive
pub mod Maps
pub mod Delegates
