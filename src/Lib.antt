-- ===== src/Lib.antt =====
-- aSocial: a decentralised messenger with plugins for storage, transport and user interface.
--
-- Parts and files. The core (src/core.cpp) keeps a user's profile in a database (plugins/dbkv-rocksdb)
-- on a virtual file of an encrypted container (plugins/vfs-cake) and serves the plugins, the console
-- (plugins/ui-console) among them, through a gate (src/CoreAccessProxy.cpp). Its records, their keys
-- and their validation are generated from protobuf files (libs/asocial_proto).
--
-- Core models src/core.cpp over a record of operations (Core/Host): the storage plugins, protobuf's
-- serializers, QFile, Settings and the clock, on a world that the operations pass on. Core/State has
-- the fields of Core (src/core.h), isProfileOpen, keyExists and what all operations share;
-- Core/Lifecycle createContainer, openProfile, createProfile, closeProfile, deleteCurrentProfile, exit
-- and init, with each nested part of openProfile and createProfile as a function of its own; and
-- Core/Records, file by file, the operations on the profile, personas, contacts, groups, messages and
-- events. Core/Entities has the messages of the .proto files, and Core/Schema what the generator makes
-- of them. Core/Machine takes every operation that can change the core's state for a step of a
-- state machine. Core/Toy is a host in memory, on which Core/Examples runs.
--
-- Protogen models the generator: Protogen/Names, Protogen/Descriptors and Protogen/Schema src/entity_parser.cpp of
-- libs/asocial_proto/libs/asocial_protogen, from what protobuf's descriptors say of a message to an
-- EntityInfo, and Protogen/Generated what the functions do that src/templates.cpp has it write: keys,
-- prefixes and validators.
--
-- Dbkv models plugins/dbkv-rocksdb/src: Dbkv/Stream the stream of serialiseToDevice and
-- deserialiseFromDevice, Dbkv/Keys listKeys, and Dbkv/Store the rest of RocksDBStore.cpp and the
-- plugin's operations, over RocksDB, QDataStream and QIODevice as parameters (Dbkv/Engine).
--
-- Vfs models the container of plugins/vfs-cake/src/EncryptedVFSContainer.cpp, a file with 4096
-- encrypted header slots and a data area of blocks. Vfs/Platform holds what the code uses and does
-- not implement, as a record of operations with the documented behaviour as laws: QFile, libsodium,
-- QUuid, the UTF-8 codec of QString and the modes of QBuffer; Vfs/Toy is one such platform, a disk in
-- memory. Vfs/Layout has the constants of EncryptedVFSContainer.h, FilePointer, allocateBlock's
-- placement and nextPowerOf2; Vfs/Slots the searches over m_files (findFileSlot, findFreeSlot, the
-- loop of writeFileData); Vfs/Header serializeFilePointer and deserializeFilePointer; Vfs/Container
-- the state and the operations: loadSlots, encryptSlot, clearSlot, readBlobFromDisk,
-- writeBlobToDisk, allocateBlock, growContainer, openFile, readFile, writeFileData, deleteFile and
-- renameFile; Vfs/Opening close with VirtualFile::flush, open on an existing container, deriveKey
-- and the size that createContainer chooses. An operation takes the state and returns it beside its result.
--
-- Access models include/PluginPermissions.h and src/CoreAccessProxy.cpp, the gate in front of the
-- core: Access/Permissions the flags as the bits of a number, Access/Calls the 57 calls of the
-- interface as data, Access/Rights the permission that each of them is documented to need, Access/Proxy
-- the gate method by method over any core, Access/Gated, Access/Methods and Access/Gate what holds of
-- all methods.
--
-- Console models plugins/ui-console/src/console: Console/LineEditor the line editor over a list of
-- key events, Console/Tokenizer CommandRouter::tokenize, and Console/CommandRouter the tree of
-- menus and commands as a store of nodes with dispatch and navigation. What Qt says of letters is a
-- parameter (Letters). A console line goes from the editor to the tokenizer and the router.
--
-- Numbers. quint64 arithmetic wraps at 2 ^ 64 (add64, sub64, align_up); offsets of seek and sizes
-- of lists do not. A theorem that needs room below that bound names it among its hypotheses.
-- Where the source narrows a size to int the model does too (to_int); from 2 ^ 31 on the source writes
-- behind its arrays there, which the model does not show, so what is read back is stated below that.
--
-- Loops. The loop of growContainer runs on as many rounds as there are chunks and one more, the
-- loops over slots on SLOT_COUNT rounds, and currentPath on one round more than the index of the
-- current node, as a parent has a smaller index; reading a stream follows its count; all other loops
-- follow a list.
--
-- Not modelled: the template engine, whose outcome for the generator's templates is modelled instead;
-- the reading of protobuf's options; the wiring of plugins and the clearing of buffers (secureWipe);
-- of the container the writing of a new one; of
-- the router the completions and the help; terminal output, the graphical interface, the log, the
-- settings and the transport, which only pass data to Qt.
pub mod Access
pub mod Base
pub mod Console
pub mod Core
pub mod Dbkv
pub mod Protogen
pub mod Vfs
