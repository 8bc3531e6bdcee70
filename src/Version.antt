-- ===== src/Version.antt =====
-- include/gt/version.h and src/runtime/version.c: the version of the library.
use green_threads.Base.{ℕ, ◌+◌, ◌*◌, ◌%◌, ◌^◌}
use Prim.Native.String.{String}

abbrev pub major : ℕ
major = 1

abbrev pub minor : ℕ
minor = 0

abbrev pub patch : ℕ
patch = 0

-- GT_VERSION_NUMBER, of 32 bits.
abbrev pub number : ℕ
number = (major * 10000 + minor * 100 + patch) % 2 ^ 32

-- `gt_version_number`.
abbrev pub version_number : ℕ
version_number = number

-- `gt_version_string`: GT_VERSION_STRING, of the numbers as they are written.
abbrev pub version_string : String
version_string = "1.0.0"
