-- ===== src/Lib.antt =====
-- The resource allocator of newExplorer-AIOS, in C: items of memory and time in a hierarchy of
-- buddy allocators. Every file of a part says at its top which code it is about.
--
-- Parts, with the paths of the code from the repository's root:
--   include/types.h             Types: bit search on words, and bitmaps.
--   include/list.h              Links: intrusive doubly linked lists.
--   source/tensor_struct.h      Macros: the bit macros. Struct: sizes, enumerations, structures.
--   source/tensor_ops.h         Flags: the flags of an item. Convert: sizes, orders, indices.
--                               Request: the class of a request. Locate: nodes and items in memory.
--   source/tensor_init.c        Init: set-up of groups, items and nodes, and the blocks of a node.
--   source/tensor.c             Group: the free lists of a group, taking, splitting and freeing blocks,
--                               compound items, budgets. Node: the operations of a node. Sparse: the
--                               tables of sparse items. Heap: slices, with source/tensor_util.c.
--                               Request.State: the state of an item that is handed out.
--   include/err.h               Errors.
-- Prelude and Bits are shared: numbers, lists, and the digits of 64-bit words.
--
-- How code becomes definitions. A word is a native number below 2^64 and wraps where the C code
-- does. A macro or function that assigns through a pointer returns the new value. A list function
-- is a command on a memory that holds the two links of every address: it ends with a value, with a
-- fault (an access through NULL), or out of fuel. Each function has the name it has in C, in lower
-- case. The operations on groups are commands on a world (Group.World): the links, the other words
-- of the items, and the counts of the free lists. The compiler's `__builtin_clzl` is a parameter,
-- with what its documentation says of it (Types.Clz.IsClz) as a hypothesis, and Types.CountZeros has a
-- function for which it holds.
--
-- Fuel and bounds. The walks along a list take fuel, since a damaged list has no end; a ring of n
-- nodes needs n + 1 for the length and n + 2 for the search. The loops over bitmap words and levels
-- have their number of rounds from the code; places in a bitmap wrap as in C, and the theorems on
-- the searches are for sizes up to 2^64 - 64, where they do not.
--
-- How the parts interact. A request (Request) becomes a number of items and an order (Convert);
-- the group (Group) takes a block from a free list, which is a list of Links, and splits it,
-- marking the halves with the flags of Flags; Locate leads from a block to its index and range.
-- Init sets up the arrays that Locate reads. A node (Node) tests its budget, sends a request to its
-- groups level by level, and goes to other nodes where these fail; its operations call each other
-- through a table.
--
-- Code that C does not accept as it stands is read in one way, which the comments of its file name:
-- a missing parenthesis or argument, a search written behind an expression that is no loop.
--
-- Operations that a part takes from another stand in a record: a node takes those on sparse items
-- (Node.Shared.SparseOps), which Sparse.Operations fills, and the tables take the allocation and
-- the free of a slice (Sparse.Tables), which are those of Heap. The file Operations ties them as
-- `g_node_vtbl` does: a search for sparse items allocates tables by the heap, and so from the node
-- again. A depth bounds the calls within calls, and how deep they go is not proved. Group.Ensures
-- has the rules for what holds of every command that returns, and the bodies of the loops over
-- lists and bitmaps are parameters (Links.Loops, Types.Each).
--
-- What the code calls without declaring it, in the update of an item by an event, is a record of
-- operations too (Node.Trans.Events).
--
-- Not modelled: the demonstration in standalone/, the dumps, which print, the functions of
-- source/tensor.c that are empty, and the locks.
mod Prelude
pub mod Bits
pub mod Macros
pub mod Types
pub mod Struct
pub mod Flags
pub mod Links
pub mod Convert
pub mod Errors
pub mod Request
pub mod Init
pub mod Group
pub mod Locate
pub mod Node
pub mod Heap
pub mod Operations
pub mod Sparse
mod Tests
