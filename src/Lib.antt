-- ===== src/Lib.antt =====
-- pefa: filters and projections over Apache Arrow tables, whose filter predicates are compiled
-- with LLVM.
--
-- The parts and how they interact. A user writes a condition (pefa/query_compiler/expressions) and
-- builds a plan with `QueryCompiler::project` and `filter` (pefa/query_compiler). `execute` runs the
-- optimizer over the plan (lp_optimizer), which joins filters that follow one another, and then
-- visits its nodes from the source on with a context (pefa/execution): `project` picks columns,
-- `generate_filter_bitmap` computes a bitmap with a bit for each row, and `materialize_filter` copies
-- the selected rows of each column into new chunks. The bitmap of a comparison comes from a kernel
-- (pefa/kernels/filter.cpp), which emits and calls code that filters a chunk.
--
-- Files:
--   Base          shared helpers: lists and tests on the native numbers, bits, signed integers, and
--                 Outcome, the result of code that may throw (pefa/utils/exceptions) or may do
--                 what C++ leaves undefined, which is a Fault.
--   Bitmap        the i8 operations of the emitted code; Bits reads a bitmap row by row; Masks is
--                 the contract of code that clears rows of a bitmap.
--   Arrow         what the program uses of Arrow: the data as records, the functions as the
--                 parameter Arrow, and ArrowLaws, the documented behaviour that is relied on.
--   Expressions   pefa/query_compiler/expressions; Meaning is the truth of a condition.
--   Kernel        pefa/kernels/filter.cpp and pefa/utils/llvm_helpers.h. Ir: types, constants and
--                 comparisons. Emit: IrEmitVisitor. Code: the two emitted functions as loops, with
--                 the arithmetic of their instructions. Graph: the graphs of blocks that
--                 gen_filter_func and gen_filter_remaining_func build, and how they run as these
--                 loops. Object: FitlerKernelImpl. The other children hold proofs: Loops,
--                 Remaining and Execute about bitmaps, Literals, Integers and Predicates about
--                 what the predicate compares, Numbers the same for integers and floating point
--                 numbers, Limits and Wraps about the chunks and the literals that are not handled,
--                 Typed about the types of the emitted values.
--   Jit           pefa/jit: the table of modules; Interface is what is used of LLVM, as the
--                 parameter Llvm, and Laws the documented behaviour that is relied on. Passes:
--                 optimizeModule. Kernels: compile and the destructor of FitlerKernelImpl on the
--                 JIT. Optimized, Table, Compiled and Keys hold proofs about one call each,
--                 Verified is about the modules that LLVM verifies,
--                 Lifecycle the step relation of kernels that are compiled, compiled again and
--                 destroyed, Reuse the functions that kernels find, Drain their destructors.
--   Execution     pefa/execution. Context: ExecutionContext. Counter: the int counters of loops.
--                 Project: project. Filter: FilterExprExecutor and generate_filter_bitmap. Materialize: materialize_column and
--                 materialize_filter. Rows has the rows of a column and the layouts on which a
--                 filter is right, Metadata the tables that have a context; Selection,
--                 Integers and Nulls join the parts. Ignored is about what a filter does not
--                 read of a chunk: its offset and its validity; Materialize/Immutable about the chunks
--                 whose buffers are not mutable.
--   Plan          logical_plan; Optimizer: lp_optimizer; Meaning and Joined are about what the
--                 optimizer keeps and makes.
--   Relation      what a query promises, without chunks, bitmaps and kernels: a table is a header
--                 and a list of rows. Filter and Project are the two steps, Tables the tables
--                 that are admitted, Atoms the comparisons and Lists the selection of rows.
--   Query         query_compiler.cpp; Refines is about all queries that the interface can build,
--                 against the rows that their plans mean; Filters and Projections are about queries
--                 of filters, and of a projection, on the columns themselves.
--   Program       the same functions with the static variable of get_JIT: kernels are compiled on the
--                 JIT that it has, called by their addresses, and destroyed at the end of their
--                 scope, also where an exception leaves it. Same relates them to those of
--                 Execution and Query, Laws is what is relied on of the code in memory. Called and
--                 Lifetime are about one kernel, Filters about one filter, Queries about all that a
--                 query does, Leaks and Resolvers about what it leaves in the table of the JIT.
--   Tests         concrete inputs.
--
-- How the code is modelled. A buffer is the list of its elements, and a bitmap the list of its bytes,
-- the first row in the highest bit of the first byte. The buffers that FilterExprExecutor allocates
-- stand in a heap, because two of its pointers may be to one buffer. An element is the bit pattern
-- of its value: `to_int` reads it as an integer. size_t, uint8_t, i8 and i64 arithmetic wraps
-- around; the int counters of materialize_column and of the loop that joins two bitmaps fault above
-- 2 ^ 31 - 1. The operations of double are the parameter Floats. An access outside a buffer, a null pointer and a shift by too much
-- are faults. A value buffer may be immutable, and mutable_data of it is then null. A predicate that
-- is emitted with ret void, for an expression that is a constant, a column reference or a literal, is
-- the fault of LLVM's verifier. A pass of the optimizer changes only nodes that it has made itself, so
-- plans are values.
--
-- Fuel. materialize_chunks, the do loop of materialize_column, recurs on fuel, of one more than the
-- rows of the column: every round but the last one passes over at least one row. A graph of blocks
-- runs on fuel, a unit for each block. All other loops recur on the rounds that are left or on
-- their lists.
--
-- The kernels of Execution are those of Kernel, which find the functions of their own modules;
-- Program has those of Jit, and relates the two.
--
-- Not modelled: the layers and passes of LLVM and the initialization of its targets; the two
-- bounds in the metadata of a chunk, which nothing sets; the tests, the benchmarks and the
-- vendored libraries. A chunk of the model has its offset and its validity, as the code has them.
pub mod Base
pub mod Bitmap
pub mod Arrow
pub mod Expressions
pub mod Kernel
pub mod Jit
pub mod Execution
pub mod Plan
pub mod Relation
pub mod Query
pub mod Program
pub mod Tests
