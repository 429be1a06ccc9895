-- ===== src/Lib.antt =====
-- Random_C_Code_Snippets_by_me: the dirty-page detection of dirtPages.c, and the block hash and hash
-- table of fast_hash.h, hashalg.c and hashalg.cu.
--
-- dirtPages.c finds pages of memory that were written since they were last looked at, in the manner
-- of the kernel's UKSM. A page is hashed over some of its words only, those at the first
-- `hash_strength` entries of the permutation `random_nums`. Every hash and every comparison is
-- accounted for in counters of saved and wasted work, and once in a scan round `rshash_adjust`
-- compares the two and adapts the strength. Shared pages stand in the stable tree under their hash, so
-- a change of the strength rebuilds that tree. fast_hash.h is a 64-bit hash of blocks of 128 or 4096
-- bytes with a chained hash table on it, hashalg.c is the same hash as a plain loop, and hashalg.cu
-- computes it for many blocks on a GPU. whichPages.c asks the kernel for the dirty bit of a page of a
-- process.
--
-- The files, and what they model:
--   Prelude, Bits, Word     shared names, lists, runs; laws of exclusive or; 32- and 64-bit words
--   DirtPages               the constants, structs and globals of dirtPages.c
--   DirtPages/Sample        HASH_FROM_TO, HASH_FROM_DOWN_TO, random_sample_hash, delta_hash
--   DirtPages/Memory        memcmpx86_32, memcmpx86_64 and the three variants of is_full_zero
--   DirtPages/Benefit       encode_benefit, reset_benefit, inc_rshash_pos, inc_rshash_neg,
--                           inc_uksm_pages_scanned
--   DirtPages/Hashing       page_hash, page_hash_max, memcmp_pages_with_cost,
--                           pages_identical_with_cost, is_page_full_zero, find_zero_page_hash,
--                           hash_cmp, rmap_item_hash_max, check_collision, init_zeropage_hash_table
--   DirtPages/Strength      inc_hash_strength, dec_hash_strength, inc_hash_strength_delta,
--                           get_current_neg_ratio, get_current_benefit, judge_rshash_direction
--   DirtPages/Adjust        rshash_adjust, up to its call of stable_tree_delta_hash
--   DirtPages/WriteProtect  write_protect_page
--   DirtPages/Rbtree        the walks over struct rb_node, rb_link_node, and the interface of
--                           rb_insert_color and rb_erase
--   DirtPages/StableTree    the structs and globals of the stable tree, its allocators,
--                           remove_node_from_stable_tree; /Keyhole: get_uksm_page; /Rebuild:
--                           stable_node_hash_max, stable_node_reinsert, free_all_tree_nodes,
--                           stable_tree_delta_hash, and rshash_adjust as a whole
--   DirtPages/Init          init_random_sampling, cal_positive_negative_costs
--   FastHash                fast_hash.h: fh_load64, fh_mix, fast_hash_128, fast_hash_4096_scalar,
--                           fast_hash_4096_aes, fast_hash; hashalg.c: fast_hash (fast_hash_words);
--                           /Demo: fill_pattern and main of hashalg.c
--   FastHash/Table          fast_hash.h: init_hash_table, hash_table_insert, hash_table_lookup,
--                           free_hash_table
--   Cuda                    hashalg.cu: fast_hash_device, fast_hash_kernel, and a launch as a schedule
--                           of its threads; /Host: its main
--   WhichPages              whichPages.c: check_page_metadata, trackPage
--   VcString                VCstring.h: volatile_memcpy, const_memcpy_alloc, volatile_memset
--   Tests                   the theorems at concrete inputs
--
-- State: the globals of dirtPages.c are the record `Uksm`, which each function takes and gives back.
-- A page is the list of its 1024 words, and a block the list of its bytes, little-endian. A function
-- that can leave defined behaviour returns a `Run`: a value, or a fault (an access out of bounds, a
-- division by zero, BUG, or a loop that was given too few rounds). In the hash table a pointer to a
-- block is a number, and `memory` gives the bytes behind it, since the table stores pointers and
-- reads the blocks at each lookup.
--
-- The stable tree: pointers to stable nodes, tree nodes and rmap items are addresses, and the record
-- `Stable` has a store for each kind, next to the lists, the two roots, the counters, and a trace of
-- what the code holds or has released (page references, page locks, anon_vmas). A list that the
-- kernel links through the objects is the list of their addresses. rshash_adjust (Adjust) chooses the
-- strength on `Uksm` alone; rshash_adjust (StableTree/Rebuild) calls it and then rebuilds the tree.
-- The record `Kernel` is the other side: balanced trees, the words of page frames (which a shared page
-- keeps, being write-protected), the allocator of tree nodes, and, for each call of get_uksm_page,
-- what its passes read while other CPUs unmap or migrate the page.
--
-- Integers: `u32`, `u64` and `unsigned long` values are natural numbers with every wrap-around
-- written out; `unsigned long` has 64 bits, and PAGE_SIZE is 4096. The index of a thread in
-- hashalg.cu is the unsigned sum of 32 bits, which as an `int` is negative from 2 ^ 31 on; the
-- number of blocks there is an `int` that is not negative.
--
-- Arguments that stand for the machine: the results of the allocators, the random values, the
-- memory that kmalloc and malloc return, the calls of the CUDA runtime and the order of the
-- threads on the device, the answers of open, lseek and read on the pagemap, the clock
-- `jiffies`, the zero flag before the string instructions, and the AES round of the processor.
--
-- Loops: those with a counter recurse on the rounds left. The `while` over `jiffies` has fuel, which
-- is enough when the clock goes on to 100 ticks within that number of reads. The doubling loop of
-- init_hash_table has 64 rounds: after 63 doublings the size is 2 ^ 63, and the next one gives 0.
-- get_uksm_page goes back to `again` once for each pass that the kernel lists, which is enough when
-- one of them meets no migration.
--
-- Not modelled: the reuse of freed addresses by the slab allocators; the malloc calls of hashalg.cu,
-- taken to succeed, and its frees; PageTransfer.c; and the snippets that call one function of the C
-- library each.
pub mod Prelude
pub mod Bits
pub mod Word
pub mod DirtPages
pub mod FastHash
pub mod Cuda
pub mod Tests
pub mod VcString
pub mod WhichPages
