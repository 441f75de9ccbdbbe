-- ===== src/Durable/Disk.antt =====
-- The log directory and the operating system. Each call of the program is given the outcomes of its
-- calls of `os` and the readings of the clock by a value of `Os`, so a theorem holds for every fault.
use map_reduce_rpc.Prelude.{
  ℕ, Bool, Option, none, some, List, [], ◌++◌, take, if◌then◌else◌, list_eq, nat_eq,
}
use map_reduce_rpc.Prelude.Assoc.{Assoc, lookup, store}
use map_reduce_rpc.Durable.Types.{Error, open_failed, write_failed, sync_failed}

pub record File : Type 0 where
  pub bytes : List ℕ
  pub mod_time : ℕ

-- The files of the directory by their names.
abbrev pub Disk : Type 0
Disk = Assoc (List ℕ) File

pub record Os : Type 0 where
  -- the `i`-th reading of `time.Now().UnixNano()`
  pub clock : ℕ → ℕ
  -- the modification time that a write leaves
  pub write_time : List ℕ → ℕ
  pub mkdir_all : Bool
  pub read_dir : Bool
  pub opens : List ℕ → Bool
  -- how many bytes a failing write leaves in the file
  pub short_write : List ℕ → Option ℕ
  pub sync : List ℕ → Bool
  -- the order in which `range` visits the map of files to be written
  pub range : Assoc (List ℕ) (List ℕ) → Assoc (List ℕ) (List ℕ)
  pub rename : Bool
  pub info : List ℕ → Bool
  pub remove : List ℕ → Bool

abbrev pub contents_of : Option File → List ℕ
contents_of none = []
contents_of (some file) = file.bytes

abbrev pub file_bytes : List ℕ → Disk → List ℕ
file_bytes name disk = contents_of (lookup name disk)

-- `Write` on a file opened with O_APPEND, then `Sync`.
unfoldable pub append_file : Os → List ℕ → List ℕ → Disk → Option ℕ → Disk × Option Error
append_file os name bytes disk none = (
  store name (record { bytes = file_bytes name disk ++ bytes; mod_time = os.write_time name }) disk,
  if os.sync name then none else some sync_failed,
)
append_file os name bytes disk (some n) = (
  store name
      (record { bytes = file_bytes name disk ++ take n bytes; mod_time = os.write_time name }) disk,
  some write_failed,
)

-- `writeToFile` of `syncContentsToFile`.
unfoldable pub write_to_file : Os → List ℕ → List ℕ → Disk → Disk × Option Error
unfolding append_file
write_to_file os name bytes disk =
    if os.opens name
    then append_file os name bytes disk (os.short_write name)
    else (disk, some open_failed)
