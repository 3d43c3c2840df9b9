-- ===== src/Lib.antt =====
-- Umka OS, a small operating system whose user programs run in the Umka interpreter. This library
-- models the C core that those programs stand on.
--
-- The parts and how they meet. The allocator (src/mock_libc/alloc.c) is `malloc`, `realloc` and
-- `free` for everything else. The virtual file system (src/mock_libc/vfs.c) keeps a tree of nodes
-- with their data, and streams over them; the stdio functions and the Umka bindings call it. The
-- runtime (src/sys/umka.c) has a queue of packets: the interrupt handler fills it from the
-- keyboard controller, and the scheduler, called from the main loop, empties it into calls of the
-- Umka code. `umkaLock` keeps the two apart.
--
-- Files.
--   Base: Boolean tests, lists, stores (functions of an address), results that can fault, texts.
--   CString: `strcmp` of src/mock_libc/mock_libc.c as a test of equality; Compare is `strncmp`, Search
--     is `strrchr`.
--   Memory: `memcmp`, `memcpy`, `memmove`, `memset`, `calloc`, `strlen`, `strcpy`, `strcat`, `strncpy`
--     and `strncat` of the same file.
--   Alloc: `allocatorInit`, `allocatorAlloc`, `allocatorFree` and `allocatorRealloc`, with the
--     headers of the blocks and the data bytes as two stores. Blocks has the invariant `IsHeap`.
--   Vfs: `Node`, `VFS` and the invariant `IsTree`. Path is `vfsBasename`, `vfsGetPath` and
--     `vfsExists`; Tree is `vfsAlloc`, `vfsCreate_`, `vfsInit`, `vfsFree` and `vfsRemove`; Stream is
--     `vfsOpen` (here `fopen`), `vfsRead`, `vfsWrite`, `vfsSeek`, `vfsTell`, `vfsEof`, `vfsFlush`,
--     `vfsHookFlush` and `vfsSetData`.
--     Listing is `vfsRoot`, `vfsChild`, `vfsNext`, `vfsFSOName` and `vfsFSOOpen`.
--   Stdio: `fgetc`, `fputc`, `fread` and `puts` over the streams; Files has `open`, `fclose`, `fseek`,
--     `ftell`, `rewind`, `feof`, `fflush`, `remove` and `fwrite`; Print is `sprintf`; Start is `rtlInit`.
--   Fmt: of src/mock_libc/fmt.c `fmtParseNum`, `fmtParseULL`, `fmtParseLL`, `fmtStringifyULL`,
--     `fmtStringifyLL` and `_strWrite`; Printf is `fmtvprintf` with `fmtStringifyD`, and `vsnprintf`
--     of src/mock_libc/mock_libc.c; Scanf is `fmtvscanf` with `fmtParseD`; Convert is
--     `strtoull`, `strtoll`, `strtol`, `strtod` and `sscanf`. The parsers work on the text that is left
--     to read; Source has the streams that stand for it, strings and files.
--   Gfx: src/sys/gfx.c. Rect is `rectIntersect` and `rectOverlap`; Hash is `fnv32buf`; Draw is
--     `gfxSetPixel`, `gfxDoDrawRect` and `gfxDoDrawChar`; Cells is the marking and the search of
--     cells in `gfxSwap`; Blit is the copy of a region to video memory; Queue is the drawing
--     functions that queue commands, `gfxRedrawRegion` and `gfxSwap`; Calls is `gfxInit` and the bindings `api__gfx…` of
--     src/sys/umka.c.
--   Runtime: `packetAddByte`, `makePacket` and `umkaRuntimeHandleIRQ`; Schedule is
--     `umkaRuntimeSchedule`, once as a whole and once as steps between which interrupts come.
--   Loader: `loadVfsImage` of src/sys/main.c; Image is the format that src/mkfs.py packs, Boot the
--     start of `kmain`.
--   Panic: `panic` of src/sys/panic.c, over `vsnprintf` and the graphics.
--
-- State. A pointer is a number, 0 for NULL, and a store gives a node for each live pointer. Reading
-- through a dead pointer, running over an array and a failed `assert` are `fault`; `panic`, which
-- does not return, is `panicked`. `size_t` has 32 bits, and sums of it wrap. A packet and a file are
-- the lists of their valid bytes. The flush callback of a stream is a number that names it, and a
-- call of it is an event with the bytes. The Umka interpreter is a parameter, the record `Machine`.
--
-- The graphics keep a queue of commands, which the Umka bindings fill. Once a frame `gfxSwap` hashes
-- the commands into the cells that they touch, compares with the frame before, and draws the changed
-- cells again. There an `int` is an integer, and arithmetic that leaves its 32 bits is a fault. The
-- images, the font and the bytes of a command in memory, with its padding, are parameters.
--
-- Fuel. Loops along pointers take fuel. A search among siblings has one round for every node ever
-- made, since a sibling is always made later; the search for a free block has one round for every
-- block on the free list. `remove` has fuel for a visit of every node and every list end. A 64-bit
-- number has at most 22 digits in the bases that are used, and the buffer has room for 62. The loop
-- over a format has a round for each of its characters, and the loader one for each byte of the
-- image. The arithmetic on `double` is a parameter,
-- the records `Doubles` and `Reals`, and so is what `%n` is told of the position in the stream.
--
-- At start-up `rtlInit` makes the file system with the standard streams, and the loader unpacks the
-- image of it that is linked into the kernel: directories and files with their bytes.
--
-- Not modelled: the mathematical functions and the stubs of src/mock_libc/mock_libc.c, the bindings of
-- the interpreter other than those of the graphics, and the compilation of the Umka code. src/mock_libc/arith.c is a third-party library, and src/sys/font8x8.c is a
-- table.
pub mod Alloc
pub mod Base
pub mod CString
pub mod Fmt
pub mod Gfx
pub mod Loader
pub mod Memory
pub mod Panic
pub mod Runtime
pub mod Stdio
pub mod Vfs
