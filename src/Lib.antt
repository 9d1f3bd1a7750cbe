-- ===== src/Lib.antt =====
-- Verification of the core of cyanea, a 64-bit kernel for x86: the parts that decide on data before
-- any device is driven.
--
-- Early in the boot the firmware's memory ranges go into the table of arch/x86/ukernel/e820.c, which
-- merges neighbours and gives the usable ranges to ukernel/memblock.c; that keeps the map of the
-- physical memory and allocates from it, and arch/x86/ukernel/mm.c maps it, with temporary mappings
-- from ioremap.c. ukernel/params.c looks up options on the command line, among them that of
-- drivers/console.c, which keeps the consoles that are asked for; drivers/uart_core.c keeps the serial
-- ports.
-- uklib/string.c has the string and memory functions. The streams of uklib/io_buffer are what the
-- formatted output and the number parser stand on. Before all of this the stub in efi-boot/ unpacks
-- the kernel with its decompressor, efi-boot/deflate.c. Later drivers/acpi/acpi.c reads the tables of
-- the firmware.
--
-- The files:
--   * Memblock: ukernel/memblock.c and include/cyanea/memblock.h. The state is the static
--     `memory`: `live` are the regions below `memory.n`, `rest` the entries of the array behind them,
--     which the code may read and does overwrite, and `size` is `memory.size`. Regions has
--     `insert_region`, `remove_region` and `merge_regions`, Add has `add_range` and `memblock_add`,
--     Isolate has `isolate_range`, Update has `memblock_remove`, `memblock_setclr_flag`,
--     `memblock_set_node`, `memblock_free` and `memblock_reserve`, and Alloc has
--     `find_in_range_node`, `memblock_alloc` and `__next_mem_pfn_range`.
--     Memblock/Shape and Memblock/Good say what a good memory is: the regions stand in order, apart,
--     none is empty, `size` is the sum of their sizes, and what the entries behind them still hold
--     begins below the end of the last region. `view` is the abstract map
--     that the operations implement: from an address to the node and flags of its region.
--   * E820: arch/x86/ukernel/e820.c. The table is the list of its entries.
--   * Params: ukernel/params.c. The state machine has one function for a round and one for each case.
--   * Strings: uklib/string.c. Strings are lists of bytes; memory is a function from addresses.
--   * IoBuffer: uklib/io_buffer/io_buffer.c, with the operations of a buffer as parameters, and those
--     that ukernel/ulog.c gives it. The output loop takes fuel, a round for each byte and one more; the
--     theorem says that it is enough. IoBuffer/Input has `__iob_read`, whose loop takes two rounds for
--     a byte and one more, and `__iob_ungetc`; IoBuffer/Stream relates them to a list of bytes.
--   * Ctype: uklib/ctype.c and include/cyanea/ctype.h.
--   * Strtox: uklib/io_buffer/strtox.c and uklib/strtox.c. The loop over the digits takes a round for
--     each byte of the string and one more.
--   * Printf: uklib/io_buffer/vsnprintf.c. Printf/Number has the conversions and Printf/Directive the
--     state machine over the format, the list of its bytes without the NUL that ends it, which holds
--     no other NUL. What is written is a list of bytes; an argument is a 64-bit word
--     or a string. A precision of -1 is none, and the ranks count from `RANK_CHAR`. Printf/Text puts
--     formats together from pieces.
--   * Deflate: efi-boot/deflate.c. State has `struct deflate` and the bits, Huffman the trees, Block
--     the blocks and `deflate_buffer`, Crc the checksum, and Gzip `decompress_gzip`. The input is the
--     list of the bytes that are left, the output the list of those written. The loop of a block takes
--     a round for each bit that is left and one more, since a symbol takes a bit at least; the loop
--     over the lengths a round for each length and one more; the loop over the blocks a round for
--     each bit of the input and one more. Deflate/Progress counts the bits, so that this is enough, and
--     Deflate/Stream is the stream of bits that `get_bits` reads. Deflate/Stored and
--     Deflate/Gzip/RoundTrip lay out a file in which nothing is compressed, and Deflate/Code has the
--     canonical codes of RFC 1951, against which the trees are held. The trees, which the code
--     leaves uninitialised on the stack, are parameters.
--   * Ioremap: arch/x86/ukernel/ioremap.c. The loop of `find_free_range` takes fuel, two rounds more
--     than there are slots, since each round goes at least one slot on. Ioremap/Pages has `__ioremap`
--     and `iounmap`, and Ioremap/Mapped says what is mapped.
--   * Acpi: drivers/acpi/acpi.c. The memory is a function from addresses to bytes, and `memremap` a
--     parameter that says which mappings succeed. `acpi_subtable_parse` takes a round for each byte of
--     the table and one more, which is enough where no subtable has the length 0.
--   * PageTable: arch/x86/ukernel/mm.c. `range_pieces` are the calls of `physical_mapping_init` for one
--     range, PageTable/Tables has the tables of the four levels and the functions that fill them,
--     PageTable/Direct the loop over the ranges, which takes a round for each region and one more, and
--     PageTable/Reserve `init_mem_mapping`. A table is known by the physical address of its page; what
--     the linker fixes is a record. PageTable/Kept, PageTable/Levels and PageTable/Leaf say what becomes
--     of the entries.
--   * Pat: the page attribute table of arch/x86/ukernel/cache.c. The two tables are functions from an
--     index.
--   * Console: drivers/console.c; Console/Preferred has the table of the consoles that are asked for,
--     Console/Setup the option of the command line, and Console/Register the console in use. The arrays
--     of an entry are lists of all their bytes.
--   * Uart: drivers/uart_core.c. The table is the list of its entries; a function is its address.
--   * Align: the macros of include/uapi/cyanea/const.h and arch/x86/include/asm/page_types.h.
--   * Bits: laws of `|` and `&` that the decompressor needs.
--   * Prelude: numbers, lists, words and runs that all of these share.
--
-- A number of C is a natural number; sums and differences of 64-bit words wrap (`add64`, `sub64`).
-- `int nid` is the 32-bit word of its two's complement, `no_node` being -1. A run (`Run`) returns a
-- value, halts at an assertion, faults, which stands for an access outside an array, an endless copy,
-- a shift by too many bits or the use of a variable that was never set, or is out of fuel. The two
-- loops over the regions that insert as they go take fuel, the rounds that `add_fuel` and
-- `isolate_fuel` count from the number of regions; the theorems say `Returns`, so the fuel is enough.
--
-- Not modelled: what only prints (`memblock_dump`, `early_memblock`, `e820__print_table`), the drivers
-- of devices, arch/x86/ukernel/acpi/boot.c, the calls of the firmware in efi-boot/, what reads and
-- writes the registers of the processor, the start-up code, and assembly.
pub mod Prelude
pub mod Align
pub mod Memblock
pub mod E820
pub mod Params
pub mod Strings
pub mod Acpi
pub mod Bits
pub mod Console
pub mod Ctype
pub mod Deflate
pub mod IoBuffer
pub mod Ioremap
pub mod PageTable
pub mod Pat
pub mod Printf
pub mod Strtox
pub mod Uart
