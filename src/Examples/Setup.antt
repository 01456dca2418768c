-- ===== src/Examples/Setup.antt =====
-- Providers and clients that are registered in a small Margo instance: src/bake-server.c and
-- src/bake-client.c at concrete inputs.
use mochi_bake.Prelude.{
  ℕ, ◌+◌, ◌*◌, ◌≡◌, refl, inl, inr, ℤ, pos, Bool, true, false, not, ◌&&◌, ◌||◌, Option, none, some,
  List, [], ◌∷◌, ◌==◌, if◌then◌else◌, Bool-cases, arith, is_zero,
}
use mochi_bake.ReturnCode.{err_mercury}
use mochi_bake.Registry.{
  RpcName, create_rpc, write_rpc, eager_write_rpc, eager_read_rpc, persist_rpc,
  create_write_persist_rpc, eager_create_write_persist_rpc, get_size_rpc, get_data_rpc, read_rpc,
  probe_rpc, noop_rpc, remove_rpc, migrate_region_rpc, migrate_target_rpc, Registry, IsRegistry,
}
use mochi_bake.Provider.{
  Provider, file_name, same_string, attach_or_create, target_name, attach_target, insert_target,
  backend_named, parse_target_name, setup_poolset,
}
use mochi_bake.Provider.Setup.{
  Json, provider_register, provider_deregister, attach_targets, configure_targets, attach_names,
  validate_and_complete_config,
}
use mochi_bake.Provider.Setup.Undone.{
  provider_register-undone, provider_register-once, provider_deregister-register,
}
use mochi_bake.Provider.Setup.Names.{Attached, no_names, one_more, attach_targets-twice}
use mochi_bake.Client.Register.{client_register, client_register-again, AllOrNothing}
use mochi_bake.Examples.Targets.{platform, table, backend, world, provider}
use mochi_bake.FileBackend.{Entry}
use mochi_bake.Examples.Machine.{File}
use mochi_bake.Provider.FileService.{file_backend}

abbrev index : RpcName → ℕ
index create_rpc = 0
index write_rpc = 1
index eager_write_rpc = 2
index eager_read_rpc = 3
index persist_rpc = 4
index create_write_persist_rpc = 5
index eager_create_write_persist_rpc = 6
index get_size_rpc = 7
index get_data_rpc = 8
index read_rpc = 9
index probe_rpc = 10
index noop_rpc = 11
index remove_rpc = 12
index migrate_region_rpc = 13
index migrate_target_rpc = 14

abbrev number : RpcName → Option ℕ → ℕ
number name none = index name
number name (some provider_id) = index name + 15 * (provider_id + 1)

-- An instance is the ids that are registered, one after another.
abbrev member : List ℕ → ℕ → Bool
member [] k = false
member (i ∷ is) k = (i == k) || member is k

abbrev removed : ℕ → List ℕ → List ℕ
removed i [] = []
removed i (j ∷ js) = if j == i then removed i js else j ∷ removed i js

member-removed : (is : List ℕ) (i k : ℕ) → member (removed i is) k ≡ (not (i == k) && member is k)
member-removed [] i k = nothing (i == k)
  where
    nothing : (b : Bool) → false ≡ (not b && false)
    nothing true = refl
    nothing false = refl
member-removed (j ∷ js) i k = elim (Bool-cases (j == i)) [
  | inl same ↦ ground (arith, same, member-removed js i k)
  | inr other ↦ ground (arith, other, member-removed js i k)
]

abbrev registry : Registry
registry = record {
  State = List ℕ;
  id_of = number;
  registered = member;
  register = λ s i. i ∷ s;
  register_data = λ s i. s;
  deregister = λ s i. removed i s;
  push_finalize = λ s i. s;
  pop_finalize = λ s i. s;
  rwlock_create = λ s. (pos 0, s);
  rwlock_free = λ s. s;
}

registry-IsRegistry : IsRegistry registry
registry-IsRegistry = record {
  register_is = λ s i k. refl;
  deregister_is = λ s i k. member-removed s i k;
  register_data_is = λ s i k. refl;
  push_is = λ s i k. refl;
  pop_is = λ s i k. refl;
  lock_is = λ s k. refl;
  unlock_is = λ s k. refl;
}

-- Configurations that list the given targets of the file backend.
abbrev json_with : List (List ℕ) → Json platform
json_with names = record {
  parse = λ text. some true;
  new_object = false;
  set_version = λ config. config;
  enable_member = λ config b. some config;
  int_member = λ config member n. some config;
  has_backend = λ config prefix. same_string prefix file_name;
  target_size = λ config prefix. some 4;
  target_list = λ config prefix. some names;
  delete_targets = λ config prefix. config;
  size_member = λ config n. some config;
}

-- Targets "a" and "b". The backend gives both the same id.
abbrev one : Json platform
one = json_with ((97 ∷ []) ∷ [])

abbrev two : Json platform
two = json_with ((97 ∷ []) ∷ (98 ∷ []) ∷ [])

abbrev address : List ℕ → ℕ → ℕ
address prefix i = 1000 + i

unused : (name : RpcName) → member (99 ∷ []) (number name (some 1)) ≡ false
unused create_rpc = refl
unused write_rpc = refl
unused eager_write_rpc = refl
unused eager_read_rpc = refl
unused persist_rpc = refl
unused create_write_persist_rpc = refl
unused eager_create_write_persist_rpc = refl
unused get_size_rpc = refl
unused get_data_rpc = refl
unused read_rpc = refl
unused probe_rpc = refl
unused noop_rpc = refl
unused remove_rpc = refl
unused migrate_region_rpc = refl
unused migrate_target_rpc = refl

-- A registration whose second target fails.
abbrev failing : ℤ × Option (Provider platform table) × (Entry × File) × List ℕ
failing =
    provider_register platform table two backend backend registry 1 none world (99 ∷ []) address

failing_fails : is_zero failing.0 ≡ false
unfolding provider_register configure_targets attach_targets attach_names attach_or_create
    attach_target insert_target backend_named parse_target_name file_backend setup_poolset
    validate_and_complete_config
failing_fails = refl

provider_register-undone_example : member failing.3 40 ≡ false
provider_register-undone_example =
    provider_register-undone platform table two backend backend registry-IsRegistry 1 none world
      (99 ∷ []) address 40 unused refl failing_fails

-- A registration with one target.
abbrev working : ℤ × Option (Provider platform table) × (Entry × File) × List ℕ
working =
    provider_register platform table one backend backend registry 1 none world (99 ∷ []) address

working_works : is_zero working.0 ≡ true
unfolding provider_register configure_targets attach_targets attach_names attach_or_create
    attach_target insert_target backend_named parse_target_name file_backend setup_poolset
    validate_and_complete_config
working_works = refl

provider_register-once_example :
    provider_register platform table one backend backend registry 1 none world working.3 address
    ≡ (err_mercury, none, world, working.3)
provider_register-once_example =
    provider_register-once platform table one backend backend registry-IsRegistry 1 none world
      (99 ∷ []) address none world working_works

provider_deregister-register_example :
    member
      (provider_deregister platform table one backend backend registry 1 provider world working.3).2
      40
    ≡ false
provider_deregister-register_example =
    (provider_deregister-register platform table one backend backend registry-IsRegistry 1 none
      world (99 ∷ []) address 40 provider world unused refl working_works).1

-- Of the targets "a" and "b" the second fails.
abbrev vacant : Provider platform table
vacant = record { num_targets = 0; targets = []; poolset = none; json_cfg = false }

abbrev names : List (List ℕ)
names = (97 ∷ []) ∷ (98 ∷ []) ∷ []

abbrev first_name : List ℕ
first_name = target_name platform table file_name (97 ∷ [])

abbrev second_name : List ℕ
second_name = target_name platform table file_name (98 ∷ [])

abbrev after_first : ℤ × Option ℕ × Provider platform table × (Entry × File)
after_first = attach_or_create platform table backend backend vacant world first_name 4 1000

abbrev after_second : ℤ × Option ℕ × Provider platform table × (Entry × File)
after_second =
    attach_or_create platform table backend backend after_first.2 after_first.3 second_name 4 1001

first-Attached :
    Attached platform table two backend backend 4
      (address file_name)
      0
      vacant
      world
      (first_name ∷ [])
      after_first.2
      after_first.3
unfolding attach_or_create attach_target insert_target backend_named parse_target_name file_backend
first-Attached = one_more refl no_names

second_fails : is_zero after_second.0 ≡ false
unfolding attach_or_create attach_target insert_target backend_named parse_target_name file_backend
second_fails = refl

attach_targets-twice_example :
    (attach_targets platform table two backend backend vacant world file_name (address file_name)).0
    ≡ after_second.0
attach_targets-twice_example =
    (attach_targets-twice platform table two backend backend file_name names (first_name ∷ []) refl
      refl first-Attached second_name [] after_second.0 after_second.1 0 refl refl second_fails
      (omega arith)).0

empty-AllOrNothing : AllOrNothing registry-IsRegistry []
empty-AllOrNothing h = cc

client_register-again_example : (client_register registry []).1 write_rpc ≡ some 1
client_register-again_example =
    (client_register-again registry-IsRegistry [] write_rpc empty-AllOrNothing).1
