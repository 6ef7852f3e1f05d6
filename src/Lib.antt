-- ===== src/Lib.antt =====
-- LaTTe, a virtual machine for Java bytecode: the parts of its runtime and translator that decide and
-- allocate. All paths are under src/ of the repository.
--
-- How the parts interact. When a class is linked, runtime/class_inclusion_test.c gives it a row and a
-- column of a matrix of bits; `instanceof`, `checkcast` and exception handlers of
-- translated code then read one bit, while the functions of runtime/soft.c walk the class graph. The
-- translator keeps sets of variables in the same layout, translator/bit_vector.ic.
--
-- Files.
--   Common      names and lemmas that all parts share: tests, lists, maps
--   Word        the binary digits of a machine word under `&`, `|`, `~` and shifts
--   BitRow      a row of 32-bit words read as a row of bits
--   BitVector   translator/bit_vector.ic and the masks of translator/bit_vector.c; one function for
--               each `BV_...`, a `word*` is the list of the words behind it
--   ClassHierarchy
--               runtime/class_inclusion_test.c; `Cit` holds the file's static variables, what it writes
--               into classes and virtual tables, and a heap of rows; `class` is what the class loader
--               has set up: superclass, interfaces, and the component, element type and dimension of
--               an array class. Spec has the subclass relation, the rule for arrays and the order of
--               entry (`Loaded`); Inclusion has the theorems; Bits to Reached are the steps to them.
--   SoftInstanceof
--               the type tests of runtime/soft.c, which walk superclasses and interfaces, and those of
--               translator/functions.c, which read the matrix. Walks, Peeled, Bases and ArrayCases are
--               the cases; Agreement compares the two.
--   AllocStat   the searches for a free register or spill location of translator/AllocStat.c and .ic, by
--               the reference counts of the locations; Scan has the loops, Search what they return.
--   LiveAnalysis
--               the functions of translator/live_analysis.c that set up the vector of live variables;
--               Vectors has their effect bit by bit.
--   VarMap      the type `map` of translator/AllocStat.h, its operations and `map_merge`; Merge has the
--               look-ups after them.
--   Sma         the session allocator of translator/sma.c; Step has the invariant of the stack of heaps,
--               Growing the new heaps, Taking and Chunks the memory handed out, Ending what is given back
--   Fma         the arena allocator of translator/fast_mem_allocator.c; Granting has one call, Bounds
--               all of them
--   Locks       the monitors of runtime/locks.c with the run queues of runtime/thread-internal.c; one
--               function for each of the source's, cut where it gives the processor away. LockWord has
--               the fields of the lock word, System the steps of any number of threads, Exclusion who
--               holds a monitor, Waiters the bit of the waiters, Moves to Wakeup the queues, and Table
--               the chains in which `getLock` finds the queues of an object
--   Alarms      the alarm list of runtime/thread-internal.c; Order has its invariant, Keeping that the
--               functions keep it, Waking what the handler of the alarm does
--   Fields      the fields of a class in runtime/classMethod.c: Reading has their order, Slots the places
--               of instance and static fields, Layout and Statics what holds of these, Constants the
--               initial values of static fields and Writing what holds of them
--   Scheduler   which thread of runtime/thread-internal.c runs; Fairness has the invariant of the run
--               queues, Steps that the operations keep it
--   Signature   the signatures of fields and methods, as runtime/classMethod.c counts their words and
--               runtime/itypes.c reads their classes; Printing writes them, Counting has the words
--   Prime       get_next_prime of runtime/prime.h, with the table of runtime/prime.c; Nearest has what
--               it returns
--   ExceptionTable
--               the hash table of translator/exception_info.c. Counts has the pigeonhole principle,
--               Residues the squares that probing adds, Probing the search, Lookup and Writing what is
--               found before and after an entry is written, Moving and Rehash the larger table, Inserting all of it
--   Utf8Table   the table of constant strings of runtime/string.c; Searching is the search of a string,
--               Interning what makeUtf8Const keeps, Deleting what finalizeUtf8const keeps
--
-- Bounds. A search in ExceptionTable or Utf8Table has a round for each cell and one more; with a prime number of
-- cells and half of them free, half as many are enough. The loop of Prime has a round for each entry. Words are numbers below 2^32, and what is not so is stated. An access past the end of a row
-- reads 0 and writes nothing; ClassHierarchy.Inclusion.rows_kept shows that none takes place there.
-- `gc_malloc_fixed` is a fresh block of zeros, `valloc` and
-- `calloc` return a block that they did not return before, and none of them fails. In Sma and Fma `none` is a failed assertion, and in Sma also a size that an `int` does not have or a
-- sixteenth heap; Sma doubles with one round of fuel for each byte requested, which is enough from any
-- positive size. In Fields the counts of fields, which are `short`, are taken below 32768, and in
-- Scheduler the priorities at most 10. In Locks a call runs without a change of threads up to where it gives
-- the processor away, and only the holder of a monitor calls the functions other than `_lockMutex`. In the walks of
-- SoftInstanceof `none` is the end of the fuel: more than the number of columns, and more than the dimension of the
-- array class that is cast to, is enough, since a superclass has an earlier column than its subclass.
--
-- The loop of `alarmException` has a round for each
-- thread in the list, which is enough since each round takes one out.
-- A thread number has sixteen bits, and a monitor is entered at most 32767 times.
--
-- Not modelled: time-outs, ThreadDeath and changes of threads by the timer in the monitors, the garbage collector, code generation, the interpreter, class files, the library
-- natives, and the copy of Kaffe's compiler in kaffejit.
pub mod Common
pub mod Word
pub mod BitRow
pub mod BitVector
pub mod ClassHierarchy
pub mod SoftInstanceof
pub mod AllocStat
pub mod LiveAnalysis
pub mod VarMap
pub mod Sma
pub mod Fma
pub mod Locks
pub mod Alarms
pub mod Fields
pub mod Scheduler
pub mod Signature
pub mod Prime
pub mod ExceptionTable
pub mod Utf8Table
