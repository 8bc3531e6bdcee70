-- ===== src/Examples/Versions.antt =====
-- examples/11_version_information.c: the version of the headers against that of the library.
use green_threads.Base.{ℕ, ◌==◌, List, [], ◌∷◌, if◌then◌else◌}
use green_threads.Version.{major, minor, patch, number, version_number, version_string}
use Prim.Native.String.{String}

-- What `main` prints, without the headings.
pub data Line : Type 0 where
  version_text : String → Line
  version_code : ℕ → Line
  major_number minor_number patch_number : ℕ → Line
  versions_match versions_differ : Line

-- `main`, by the version that the library answers: its exit status and its lines.
abbrev pub version_main : (runtime_string : String) → (runtime_number : ℕ) → ℕ × List Line
version_main runtime_string runtime_number =
    let matches = runtime_number == number in
    (
      if matches then 0 else 1,
      version_text version_string
          ∷ version_code number
          ∷ major_number major
          ∷ minor_number minor
          ∷ patch_number patch
          ∷ version_text runtime_string
          ∷ version_code runtime_number
          ∷ (if matches then versions_match else versions_differ)
          ∷ [],
    )

-- With this library.
abbrev pub version_run : ℕ × List Line
version_run = version_main version_string version_number
