-- ===== src/Examples/Targets.antt =====
-- A provider with targets of the file backend on one small log: src/bake-server.c at concrete inputs.
use mathlib.Core.Option.{some-injective}
use mochi_bake.Prelude.{
  ℕ, ◌≡◌, refl, sym, ap, ◌∙◌, inl, inr, pos, Bool, true, false, Option, none, some, List, [], ◌∷◌,
  ◌++◌, arith, ◌==◌, Bool-cases, if◌then◌else◌,
}
use mochi_bake.ReturnCode.{success, err_io}
use mochi_bake.Backend.{Platform, Backend}
use mochi_bake.Table.{Table, IsTable}
use mochi_bake.FileBackend.{Entry, FileRegion}
use mochi_bake.Provider.{
  Target, Provider, attach_target, set_param, backend_named, parse_target_name, pipeline_key,
}
use mochi_bake.Provider.Targets.{IsProvider, attach_target-ok}
use mochi_bake.Provider.Pools.{set_param-stale}
use mochi_bake.Provider.FileService.{Store, IsStore, file_backend}
use mochi_bake.Examples.Machine.{File, machine, log, blank}

abbrev pub platform : Platform
platform = record {
  World = Entry × File;
  Context = Unit;
  TargetId = ℕ;
  Rid = FileRegion;
  zero_rid = record { log_entry_offset = 0; log_entry_size = 0 };
  Bulk = Unit;
  Addr = Unit;
  addr_lookup = λ w name. (pos 0, tt);
  addr_dup = λ w. (pos 0, tt);
  Poolset = ℕ;
  Config = Bool;
  poolset_create = λ w config. (pos 0, 1, w);
  poolset_destroy = λ w pools. (pos 0, w);
  pipeline_enable = λ config. config;
  set_pipeline_enable = λ config b. b;
}

abbrev pub first_with : List (Target platform) → ℕ → Option (Target platform)
first_with [] k = none
first_with (e ∷ es) k = if e.target_id == k then some e else first_with es k

abbrev pub without : List (Target platform) → ℕ → List (Target platform)
without [] k = []
without (e ∷ es) k = if e.target_id == k then es else e ∷ without es k

-- Targets in the order in which they were attached.
abbrev pub table : Table (Target platform) ℕ
table = record {
  Carrier = List (Target platform);
  empty = [];
  add = λ t e. t ++ e ∷ [];
  find = first_with;
  delete = λ t e. without t e.target_id;
  iterate = λ t. t;
}

==_refl : (k : ℕ) → (k == k) ≡ true
==_refl k = ground arith

-- A search that a test decides.
first_of-none :
    (b : Bool) (x e : Target platform) (here there : Option (Target platform))
    → (if b then some x else here) ≡ none
    → (here ≡ none → there ≡ some e)
    → (if b then some x else there) ≡ some e
first_of-none true x e here there h k = cc
first_of-none false x e here there h k = k h

first_with-add :
    (t : List (Target platform)) (e : Target platform)
    → first_with t e.target_id ≡ none
    → first_with (t ++ e ∷ []) e.target_id ≡ some e
first_with-add [] e h = rw (==_refl e.target_id) refl
first_with-add (x ∷ t) e h =
    first_of-none (x.target_id == e.target_id) x e (first_with t e.target_id)
      (first_with (t ++ e ∷ []) e.target_id) h (first_with-add t e)

first_with-key :
    (t : List (Target platform)) (k : ℕ) (e : Target platform)
    → first_with t k ≡ some e
    → e.target_id ≡ k
first_with-key [] k e h = cc
first_with-key (x ∷ t) k e h = elim (Bool-cases (x.target_id == k)) [
  | inl same ↦
      ap (λ (y : Target platform). y.target_id) (some-injective e x (sym h ∙ rw same refl))
      ∙ ground (arith, same)
  | inr other ↦ first_with-key t k e (sym (rw other refl) ∙ h)
]

first_with-without :
    (t : List (Target platform)) (k : ℕ) (e : Target platform)
    → first_with t k ≡ some e
    → (front back : List (Target platform)) × (t ≡ front ++ e ∷ back)
      × (without t k ≡ front ++ back)
first_with-without [] k e h = cc
first_with-without (x ∷ t) k e h = elim (Bool-cases (x.target_id == k)) [
  | inl same ↦ (
    [],
    t,
    ap (λ (y : Target platform). y ∷ t) (some-injective x e (sym (rw same refl) ∙ h)),
    rw same refl,
  )
  | inr other ↦
      let (front, back, was, now) = first_with-without t k e (sym (rw other refl) ∙ h) in
      (
        x ∷ front,
        back,
        ap (λ (y : List (Target platform)). x ∷ y) was,
        rw other (ap (λ (y : List (Target platform)). x ∷ y) now),
      )
]

delete_found :
    (t : List (Target platform)) (k : ℕ) (e : Target platform)
    → first_with t k ≡ some e
    → (front back : List (Target platform)) × (t ≡ front ++ e ∷ back)
      × (without t e.target_id ≡ front ++ back)
delete_found t k e h =
    let (front, back, was, now) = first_with-without t k e h in
    (front, back, was, ap (without t) (first_with-key t k e h) ∙ now)

without-first :
    (t : List (Target platform)) (e : Target platform) (es : List (Target platform))
    → t ≡ e ∷ es
    → without t e.target_id ≡ es
without-first t e es h = rw h (rw (==_refl e.target_id) refl)

pub table-IsTable : IsTable (λ (e : Target platform). e.target_id) table
table-IsTable = record {
  iterate-empty = refl;
  iterate-add = λ t e. refl;
  find-add = first_with-add;
  find-key = first_with-key;
  iterate-delete = delete_found;
  iterate-delete_first = without-first;
}

abbrev pub store : Store machine platform
store = record {
  get = λ w c. some w;
  put = λ w c e. e;
  to_rid = λ frid. frid;
  of_rid = λ rid. rid;
  towards = λ w bulk addr. w;
  max_size = 8;
  initialize = λ w config path. (pos 0, 7, tt, config, w);
  finalize = λ w c. w;
  makepool = λ w path size. (pos 0, w);
}

pub store-IsStore : IsStore store
store-IsStore = record { get-put = λ w c e e' h. refl; of_rid-to_rid = λ frid. refl }

abbrev pub backend : Backend platform
backend = file_backend machine platform store 10

-- A backend that finds no target.
abbrev broken : Backend platform
broken = record backend { initialize = λ w config path. (err_io, 0, tt, config, w) }

abbrev pub target : Target platform
target = record { target_id = 3; context = tt; backend = backend; address = 1000 }

abbrev pub provider : Provider platform table
provider = record { num_targets = 1; targets = target ∷ []; poolset = some 1; json_cfg = true }

pub provider-IsProvider : IsProvider table-IsTable provider
provider-IsProvider = record { counted = refl; in_range = omega arith }

abbrev pub world : Entry × File
world = (log, blank)

-- "file:a"
abbrev name : List ℕ
name = 102 ∷ 105 ∷ 108 ∷ 101 ∷ 58 ∷ 97 ∷ []

attach_target-ok_example :
    (attach_target platform table backend backend provider world name 2000).0 ≡ success
unfolding file_backend backend_named parse_target_name
attach_target-ok_example =
    (attach_target-ok table-IsTable backend backend provider world name 2000 backend 7 tt true world
      provider-IsProvider refl refl refl).0

-- "0" and "1"
set_param-stale_example :
    (set_param platform table provider world pipeline_key (48 ∷ [])).1.poolset ≡ some 1
set_param-stale_example =
    (set_param-stale platform table (λ c b. refl) provider world 1 (48 ∷ []) (49 ∷ []) refl refl
      refl).1
