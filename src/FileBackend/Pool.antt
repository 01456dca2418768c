-- ===== src/FileBackend/Pool.antt =====
-- src/bake-file-backend.c: how a log is made and opened, `bake_file_makepool`,
-- `bake_file_backend_initialize` and `bake_file_backend_finalize`, with the CONFIG_ macros of
-- src/bake-macros.h. What is freed on the way is left out, and so are the names of the log's parts.
pub mod Opening
use mathlib.Core.Option
use mochi_bake.Prelude.{
  as_int, ℕ, ◌+◌, ◌-◌, ◌%◌, ◌^◌, bit_and, ℤ, pos, negsuc, is_pos, is_zero, is_neg, same_int, Bool,
  true, false, not, ◌&&◌, Option, none, some, List, [], ◌∷◌, ◌++◌, ◌==◌, if◌then◌else◌, replicate,
  take,
}
use mochi_bake.ReturnCode.{success, err_io, err_invalid_arg, err_noent, err_allocation}
use mochi_bake.FileBackend.{Entry, superblock_size}

-- POSIX, abt-io and libuuid, as these functions use them.
pub record FileSystem : Type 1 where
  pub State : Type 0
  pub AbtIo : Type 0
  -- `open(name, O_EXCL | O_WRONLY | O_CREAT, 0644)`
  pub open_new : State → List ℕ → ℤ × State
  -- `write(fd, buf, count)` on a file just created
  pub write : State → ℤ → List ℕ → ℤ × State
  pub close : State → ℤ → State
  -- `uuid_generate`: 16 bytes
  pub uuid_generate : State → List ℕ × State
  pub uuid_is_null : List ℕ → Bool
  -- `abt_io_init(nthreads)`, NULL where it fails, and `abt_io_finalize`
  pub abt_io_init : State → ℤ → Option AbtIo × State
  pub abt_io_finalize : State → AbtIo → State
  -- `abt_io_open(aid, path, O_RDWR or O_RDWR | O_DIRECT, 0)`
  pub abt_io_open : State → List ℕ → Bool → ℤ × State
  pub einval : ℤ
  -- `fstat`: the code and `st_size`
  pub fstat : State → ℤ → ℤ × ℕ
  -- `posix_memalign` of the superblock
  pub memalign : State → ℤ
  -- `abt_io_pread(aid, fd, buf, 4096, 0)`: the code, and the bytes that `buf` then holds
  pub pread : State → ℤ → ℤ × List ℕ

-- A member of a JSON object: missing, of another type than it should be, or there.
pub data Field (A : Type 0) : Type 0 where
  missing wrong : Field A
  given : A → Field A

-- CONFIG_HAS_OR_CREATE and its like: the value that stands in the object then, or `none` for the
-- `return -1`.
abbrev pub has_or_create : {A : Type 0} → Field A → A → Option A
has_or_create missing default = some default
has_or_create wrong default = none
has_or_create (given a) default = some a

-- CONFIG_HAS.
abbrev pub has : {A : Type 0} → Field A → Bool
has missing = false
has wrong = true
has (given a) = true

-- The configuration as far as the file backend reads it: the provider's "pipeline_enable", and the
-- members of "file_backend", which are all missing where the object is.
pub record FileConfig : Type 0 where
  pub pipeline_enable : Bool
  pub file_backend : Field Unit
  pub targets : Field (List (List ℕ))
  pub alignment : Field ℤ
  pub sync : Field Bool
  pub directio : Field Bool
  pub abtio_nthreads : Field ℤ

-- `((unsigned)a & ((unsigned)a - 1)) == 0`, for an int `a` that is not negative.
abbrev pub is_power_or_zero : ℕ → Bool
is_power_or_zero a = bit_and a ((a + 2 ^ 32 - 1) % 2 ^ 32) == 0

abbrev pub power_or_zero : ℤ → Option ℕ
power_or_zero (negsuc n) = none
power_or_zero (pos a) = if is_power_or_zero a then some a else none

-- The alignment that the target gets, if it is one: `json_object_get_int` gives an int.
abbrev pub parse_alignment : ℤ → Option ℕ
parse_alignment a = power_or_zero (as_int a)

module _ (fs : FileSystem) where
  open fs use {
    State, AbtIo, open_new, write, close, uuid_generate, uuid_is_null, abt_io_init, abt_io_finalize,
    abt_io_open, einval, fstat, memalign, pread,
  }

  -- The superblock that `bake_file_makepool` writes for a pool id.
  unfoldable pub superblock : List ℕ → List ℕ
  superblock id = id ++ replicate (superblock_size - 16) 0

  -- `bake_file_makepool`; the size is not looked at.
  unfoldable pub file_makepool : State → List ℕ → ℕ → ℤ × State
  file_makepool s name size =
      let (fd, s₁) = open_new s name in
      let (id, s₂) = uuid_generate s₁ in
      let (count, s₃) = write s₂ fd (superblock id) in
      if is_neg fd
      then (err_io, s₁)
      else if is_pos count superblock_size
      then (success, close s₃ fd)
      else (err_io, s₃)

  -- The members of an entry that these functions set, with the ones that the operations read.
  pub record Opened : Type 0 where
    pub entry : Entry
    pub fd : ℤ
    pub abtio : Option AbtIo
    pub id : List ℕ

  -- `abt_io_open`, with the second try without O_DIRECT: the descriptor.
  unfoldable pub open_log : State → List ℕ → Bool → ℤ × State
  open_log s path direct =
      let (fd, s₁) = abt_io_open s path direct in
      if same_int fd einval && direct then abt_io_open s₁ path false else (fd, s₁)

  -- From the check of the log's size on.
  unfoldable pub check_log : State → ℤ → Option AbtIo → ℤ → Bool → ℤ × Option Opened
  check_log s fd abtio alignment sync =
      let (code, size) = fstat s fd in
      let (count, root) = pread s fd in
      let id = take 16 root in
      if is_neg code
      then (err_io, none)
      else if is_neg (memalign s)
      then (err_io, none)
      else if is_neg count
      then (err_io, none)
      else if uuid_is_null id
      then (err_io, none)
      else elim (parse_alignment alignment) [
        | none ↦ (err_invalid_arg, none)
        | some a ↦ (
          success,
          some (record {
            entry = record { log_offset = size; log_alignment = a; sync = sync };
            fd = fd;
            abtio = abtio;
            id = id;
          }),
        )
      ]

  -- What `error_cleanup` does for the file system.
  abbrev pub clean_up : State → ℤ → Option AbtIo → State
  clean_up s fd none = if is_neg fd then s else close s fd
  clean_up s fd (some abtio) = abt_io_finalize (if is_neg fd then s else close s fd) abtio

  -- From the opening of the log on; `abtio` is the instance that was made for this target.
  unfoldable pub open_target :
      State → List ℕ → Option AbtIo → ℤ → Bool → Bool → ℤ × Option Opened × State
  unfolding open_log check_log
  open_target s path abtio alignment sync direct =
      let (fd, s₁) = open_log s path direct in
      let (code, opened) = check_log s₁ fd abtio alignment sync in
      if is_neg fd
      then (err_noent, none, clean_up s₁ fd abtio)
      else (code, opened, if is_zero code then s₁ else clean_up s₁ fd abtio)

  -- The choice of the abt-io instance: `provided` says whether the provider has one.
  unfoldable pub choose_abtio : State → Bool → FileConfig → ℤ × Option AbtIo × State
  choose_abtio s provided config =
      if provided
      then if has config.abtio_nthreads then (err_invalid_arg, none, s) else (success, none, s)
      else elim (has_or_create config.abtio_nthreads (pos 16)) [
        | none ↦ (negsuc 0, none, s)
        | some n ↦
            let (made, s') = abt_io_init s n in
            elim made [ none ↦ (err_io, none, s') | some abtio ↦ (success, some abtio, s') ]
      ]

  abbrev pub none_opened : {A : Type 0} → ℤ → A → ℤ × Option Opened × A
  none_opened code s = (code, none, s)

  -- `bake_file_backend_initialize`: -1 where a member has the wrong type.
  unfoldable pub file_backend_initialize :
      State → Bool → FileConfig → List ℕ → ℤ × Option Opened × State
  unfolding choose_abtio open_target
  file_backend_initialize s provided config path =
      if not config.pipeline_enable
      then (err_invalid_arg, none, s)
      else elim (has_or_create config.file_backend tt) [
        | none ↦ (negsuc 0, none, s)
        | some _ ↦ elim (has_or_create config.targets []) [
          | none ↦ (negsuc 0, none, s)
          | some _ ↦ elim (has_or_create config.alignment (pos 4096)) [
            | none ↦ (negsuc 0, none, s)
            | some alignment ↦ elim (has_or_create config.sync true) [
              | none ↦ (negsuc 0, none, s)
              | some sync ↦ elim (has_or_create config.directio true) [
                | none ↦ (negsuc 0, none, s)
                | some direct ↦
                    let (ret, abtio, s₁) = choose_abtio s provided config in
                    let opened = open_target s₁ path abtio alignment sync direct in
                    if is_zero ret then opened else (ret, none, s₁)
              ]
            ]
          ]
        ]
      ]

  -- `bake_file_backend_finalize`.
  unfoldable pub file_backend_finalize : State → Opened → ℤ × State
  file_backend_finalize s opened = elim opened.abtio [
    | none ↦ (success, close s opened.fd)
    | some abtio ↦ (success, abt_io_finalize (close s opened.fd) abtio)
  ]
