-- ===== src/Lib.antt =====
-- skl is a library for Windows kernel drivers: containers, strings, pointers and threads over the
-- pools of the kernel (skl/). sl (sl/) does the like for programs, and KMDF/, Fs/, SrvTest/, dl/,
-- test/, winTest/ and InstallDriver/ are drivers and programs that use the two. Modelled here are
-- the byte FIFO and its typed wrapper, the counted string and its hashes, the growing array, the
-- linked containers, the counted pointers, sets, maps, the table of numbers, variants and the work
-- queue. The work queue
-- stands on the queue, the list on the holders of counted items, and both on the links of cells.
--
--   * Kfifo.antt is skl/kfifo.hpp, the functions on `struct kfifo`: highest_bit,
--     roundup_pow_of_two, kfifo_alloc (alloc), kfifo_free (free), __kfifo_put (put), __kfifo_get
--     (get), __kfifo_reset (reset) and __kfifo_len (len). Kfifo/Window says which bytes of the block
--     are stored, Kfifo/Inv is the invariant, and Kfifo/Put, Kfifo/Get and Kfifo/Alloc are about the
--     operation of that name.
--   * Fifo.antt is `class Fifo<T>` of the same file. It calls the functions above with the bytes of
--     a value. Fifo/Laws is about push and pop.
--   * Text.antt is `class string` of skl/string.hpp: its state is the `UNICODE_STRING` in it, and its
--     operations are the constructors, operator=, clear, operator[], at and swap. Text/Compare has
--     compare, icompare, operator< and comparemem, Text/Affix startwith and endwith, Text/Find find,
--     rfind and replace, each with its variant that ignores case. Text/Inv is the invariant and the
--     list of characters. Text/Substitute is `repalce` and `irepalce` of a text: Substituted says
--     what text they are to make, Pieces, Copying and Rebuilt follow the loop that copies, and Repalce
--     joins them. The other files below Text are proofs: Build and Assign about constructors and
--     assignment, At about reading, Order and Less about the order, Prefix and StartEnd about the
--     two ends, Search, FindChar, FindText and Occurrences about searches, Replace about replace,
--     and Substr is substr with its proof.
--   * Vector.antt is `class vector` of skl/vector.hpp: construct, copy, move, swap, push_back,
--     pop_back, insert, insert_range (insert of a range), reserve, append, erase, at and clear.
--     Vector/Inv is the invariant and the list of elements, Splice and Grow say how copies make room
--     for one element, Insert, Erase, Append and Range are about the operations, Placed and Own about
--     the cases of Insert and Between about the copies of Range; Walk has its iterator and the loop by it, and Transfer the constructors and
--     assignments from another vector or a list. A value or a range that is passed by reference or by
--     pointers stands elsewhere or is the vector's own (Ref, Span).
--   * Hash.antt is skl/hash.hpp and skl/hashstring.hpp, the functions BKDRHash; Hash/Sum says what
--     they compute.
--   * Links.antt is the `LIST_ENTRY` of the system: cells, rings of them and the routines, with
--     their documented laws, as a record; Links/Single is the same for `SINGLE_LIST_ENTRY`, and
--     Links/Ring has the lemmas on rings.
--   * Heads.antt is what skl/list.hpp does to the links itself: swap and append of two heads and
--     the unlinking in remove; each has a child with its proof.
--   * Items.antt, Queue.antt, Stack.antt and RefList.antt are list_item, `queue`, `stack` with its
--     iterator, and `list` with its iterator, of skl/list.hpp. Queue/Run and Stack/Run are about
--     any sequence of calls. RefList/Keeps is the invariant of a list, RefList/Ends is about
--     push_back, push_front and pop_front, RefList/Whole about the constructor, empty, remove,
--     clear, swap and append, and RefList/Loop about a loop by iterators.
--   * RefHolder.antt is skl/refholder.hpp, `ref_item` and `ref_holder`: RefHolder/Counts says when
--     counts agree with references, RefHolder/Run is about any sequence of actions on holders.
--   * SharedPtr.antt is `shared_ptr` and `helper::make_shared` of skl/shared_ptr.hpp, with
--     SharedPtr/Shares, Actions, Steps and Run likewise.
--   * JustACall.antt is `just_a_call` of skl/work_queue.hpp, as far as its item is counted.
--   * WorkQueue.antt is `WorkQueue` and the loop of `simple_worker` of skl/work_queue.hpp: one
--     worker, step by step, and any number of other threads, each of whose calls with the lock is
--     one step. WorkQueue/Order is about all states that can be reached, WorkQueue/Drain about the
--     worker alone, and WorkQueue/Lost about goExit.
--   * Uint64Table.antt is `Uint64GenericTable` of skl/unit64table.hpp; Uint64Table/Avl are the AVL
--     tables of the system, and Uint64Table/Run is about any sequence of calls.
--   * KeySet.antt and KeyMap.antt are `set` and `map` of skl/set.hpp and skl/map.hpp. Keyed.antt is
--     what the two have word for word in common: items in an AVL table that count the references to
--     them, with find, insert, remove and the iterators. Keyed/Avl are the tables of the system, whose
--     elements are pointers; Keyed/Sorted is about the order of the items, Keyed/Keeps is the
--     invariant, Keyed/Calls, Remove, Insert, Faults and Loop are about the operations, and
--     KeyMap/RoundTrip is about calls of a map that undo each other.
--   * Variant.antt is `Variant` of sl/Variant.hpp: Variant/Types is what is computed of the list of
--     types, Variant/Valid and Variant/Change are about the variants.
--   * Util.antt is skl/util.hpp, the case of letters, which the string's variants call.
--   * Base.antt and the files below it are what all of them share: Boolean tests, lists by native
--     indices, machine words, blocks of memory, masks and powers of two.
--
-- A pointer to a block of memory is the list of its cells, from the pointer on where it walks. An
-- operation that writes an object returns its new value. An access outside a block, and a shift
-- that C++ leaves undefined, give `none`: a theorem that names a result shows that there is none of
-- these. `unsigned` and `ULONG` are 32 bits wide and `USHORT` and `WCHAR` 16, with the wrap-around
-- written out; a C `bool` is a Bool and the result of a comparison an Ordering.
--
-- Loops are structural, on what is left of a count or of a block. Two are on fuel: highest_bit with
-- 32 rounds, which is the width of an `unsigned`, and find with one round more than the string has
-- characters, which every position from 0 to the end needs. The loops of repalce, of
-- clear and of iterators take their fuel as an argument, and one more than the number of characters or
-- elements is enough.
--
-- The system is a parameter: the pool, `ExAllocatePoolWithTag` and `operator new`, is a function
-- from a size to a block or `none`, about which a theorem may assume that a block has the size asked
-- for; `RtlCompareMemory` is a function, about which a theorem may assume that it returns the whole
-- count exactly where all those bytes agree. `memcpy` and its kin are copies of cells with the check
-- that both ranges are inside. The list routines and the AVL tables are records of functions with
-- their documented laws, and what `new` gives is an argument of each call that uses it. An address is
-- a number, 0 is null, and an item, its list entry and its holder's pointer have one address. Counts
-- are 32 bits wide. A wait of the worker ends by the event or by its time, and the mutex lets one
-- thread in. The comparison of an AVL table reads the items through their pointers, so it may fault;
-- the temporary item of a call is on the stack, at an address of its own. A type of a Variant is the
-- number of its `type_index`, and a storage holds one object or none.
--
-- Not modelled: in skl/kfifo.hpp the move assignment of Fifo, which no instance compiles; in
-- skl/string.hpp the variants of comparemem that skip a character; in skl/vector.hpp the swap of
-- iterators, push_back and insert of an rvalue, a range given by the vector's own iterators,
-- append of a vector to itself, and the members that no instance compiles; in skl/list.hpp stack::swap and
-- copy_wraper; in skl/shared_ptr.hpp unique_ptr and make_shared_array; in skl/unit64table.hpp
-- clear and Enum; in skl/set.hpp and skl/map.hpp clear, which reads what the table freed, and the
-- iterators' swap and assignments; in skl/work_queue.hpp the creation of threads; skl's wrappers
-- of locks, threads and lookaside lists; the rest of sl, the drivers and the programs, which are
-- for the most part calls of the system; skl/type_traits.hpp, a copy of a standard library's
-- header.

pub mod Base
pub mod Kfifo
pub mod Fifo
pub mod Text
pub mod Vector
pub mod Links
pub mod Heads
pub mod Items
pub mod Queue
pub mod Stack
pub mod RefHolder
pub mod RefList
pub mod SharedPtr
pub mod WorkQueue
pub mod JustACall
pub mod Uint64Table
pub mod Hash
pub mod KeySet
pub mod KeyMap
pub mod Keyed
pub mod Variant
pub mod Util
