-- ===== src/Lib.antt =====
-- A model of the parts of the recovery that compute: the script language of updates, the hash table
-- of the archive reader, the application of patches, and the retouching of binaries, with theorems on
-- them.
--
-- Parts, and how they go together. An update is a zip archive (minzip/) with a script in the
-- language edify (edify/). The updater (updater/) registers its functions with edify and runs the
-- script; among them are functions that patch files (applypatch/). The archive reader keeps the
-- entries by name in a hash table (minzip/Hash.c).
--
--   Common            numbers, lists, integers and bits that the parts share
--   Edify             edify/expr.c. Text: strings and strcmp, strstr. Number: strtol and %d, %ld.
--                     Machine: State, Value, Expr, Evaluate, EvaluateValue. Builtins: ConcatFn to
--                     GreaterThanIntFn, ReadArgs to ReadValueVarArgs, ErrorAbort. Table:
--                     RegisterFunction, FinishRegistration, FindFunction. Terms: what the grammar of
--                     edify/parser.y builds. Script: all of a script over the builtins.
--   HashTable         minzip/Hash.c and minzip/Hash.h: mzHashTableCreate, mzHashTableClear,
--                     mzHashTableLookup, mzHashTableRemove, mzHashForeach, resizeHash
--   Zip               minzip/Zip.c and minzip/Bits.h. Parse: the central directory. Insert, Names: the
--                     sorted insertion. Archive: parseZipArchive, mzOpenZipArchive, mzFindZipEntry,
--                     which fill and ask the hash table. Extract: targetEntryPath, mzExtractRecursive;
--                     Calls: what it tries for an entry, as a list of attempts.
--   DirUtil           minzip/DirUtil.c: dirCreateHierarchy, which the extraction calls
--   ApplyPatch        Bytes: applypatch/utils.c, offtin and offtout. BsPatch: applypatch/bspatch.c
--                     (FillBuffer, ApplyBSDiffPatchMem) and what applypatch/bsdiff.c writes. FreeCache:
--                     applypatch/freecache.c with FreeSpaceForFile and CacheSizeCheck of
--                     applypatch/applypatch.c. ImgPatch: applypatch/imgpatch.c. Sha: ParseSha1 and
--                     FindMatchingPatch. Load: LoadFileContents, LoadPartitionContents and
--                     applypatch_check of applypatch/applypatch.c. Target: applypatch and
--                     GenerateTarget, which load, choose, make room, patch and rename.
--   Retouch           minelf/Retouch.c: decode_bytes, decode_in_memory, retouch_mask_data
--
-- State is passed explicitly. An edify function maps its arguments and the state to a value, to NULL
-- or to a read outside of memory, each with the state after it; expressions are trees whose nodes
-- carry their function. The hash table is a record with its entries in a list; a failed assert, a
-- step past the array and an endless probe are outcomes of their own. The patch decoder keeps three
-- streams, the old position and the bytes written.
--
-- Bounds. Loops of the source that are not over a list run on fuel. A probe of the hash table and the
-- search of bsearch have as much fuel as the table has entries, the binary search of the archive reader
-- one more than there are entries, and the loop of Retouch as much as the
-- binary has bytes: the theorems say that these are enough. The fuel of the patch decoder is a
-- parameter, and its theorem says how much is enough. A `long` is 32 bits wide in edify, and
-- `size_t` in FreeCache and ImgPatch; Retouch keeps its 32-bit patterns. Hash sizes and the offsets of
-- bsdiff patches are plain numbers, with hypotheses where a width matters.
--
-- Parameters. libbz2 is a record with its documented behaviour as a hypothesis
-- (ApplyPatch/BsPatch/Stream), and zlib is a record with nothing assumed; so are the calls of the
-- system in FreeCache. The sink of an image patch is a parameter, of which the theorem asks that it
-- takes all it is given. The comparison of items in the hash table is a parameter, and so are the
-- names that a program registers with edify. The addresses of the archive reader (the map, the array of
-- entries) and libsafe_iop are parameters, with the hypotheses `Wide`, that no sum of an address and a
-- 32-bit offset wraps round, and `IsLayout`, that addresses of entries lead back to them. The calls of
-- the system in Extract, and the reading and writing of an entry, are parameters with nothing assumed;
-- those of DirUtil have the hypothesis `IsFileSystem` where directories are to be there. SHA-1 is a parameter; the reads of a partition and the order of qsort are too, with
-- the hypotheses that they return what the device holds, and the same pairs by size. The calls that
-- write files are parameters of Target, with the hypotheses `IsDisk`, which file each call changes and
-- that it may fail, and `Works`, that all succeed; WriteToPartition is a parameter with nothing
-- assumed.
--
-- Not modelled: memory management (`malloc` does not fail, `free` is not followed); the suffix sort
-- of bsdiff, since any segmentation may be written; the lexer and the generated parser; the
-- contents of the entries of an archive; devices, drawing, sockets and processes, which are system calls.
pub mod Common
pub mod Edify
pub mod HashTable
pub mod ApplyPatch
pub mod Retouch
pub mod Zip
pub mod DirUtil
